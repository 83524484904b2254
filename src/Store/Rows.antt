-- ===== src/Store/Rows.antt =====
-- Rows that are counted by their key.
use hypertron_api.Prelude.{
  ◌≤◌, String, List, [], ◌∷◌, ◌++◌, Bool, false, ◌≡◌, arith, str_eq, eq_iff, count, count-append,
  filter, not, ap, ◌∙◌, refl,
}
use hypertron_api.Store.Effects.{update_by}

module _ {ℓ} {A : Type ℓ} (key : A → String) where
  abbrev pub has_key : String → A → Bool
  has_key id a = str_eq (key a) id

  -- A primary key.
  abbrev pub Unique : List A → Type 0
  Unique rows = (id : String) → count (has_key id) rows ≤ 1

  pub count-update_by :
      (id j : String) (f : A → A) (rows : List A)
      → ((a : A) → key (f a) ≡ key a)
      → count (has_key j) (update_by key id f rows) ≡ count (has_key j) rows
  unfolding update_by
  count-update_by id j f [] keeps = refl
  count-update_by id j f (a ∷ rows) keeps =
      ground (arith, keeps a, count-update_by id j f rows keeps)

  -- The one row with its key, between the rows before and after it.
  pub record IsAt (a : A) (rows : List A) : Type ℓ where
    pub pre : List A
    pub post : List A
    pub split : rows ≡ pre ++ a ∷ post
    pub before : count (has_key (key a)) pre ≡ 0
    pub after : count (has_key (key a)) post ≡ 0

  pub IsAt-cons :
      (a b : A) (rows : List A) → has_key (key a) b ≡ false → IsAt a rows → IsAt a (b ∷ rows)
  IsAt-cons a b rows h s = record {
    pre = b ∷ s.pre;
    post = s.post;
    split = ap (λ (r : List A). b ∷ r) s.split;
    before = ground (arith, h, s.before);
    after = s.after;
  }

  pub count-IsAt : (a : A) (rows : List A) → IsAt a rows → 1 ≤ count (has_key (key a)) rows
  count-IsAt a rows s =
      rw s.split
        (ground (arith, count-append (has_key (key a)) s.pre (a ∷ s.post), eq_iff (key a) (key a)))

  update_by-before :
      (id : String) (f : A → A) (pre : List A) (a : A) (post : List A)
      → count (has_key id) pre ≡ 0
      → key a ≡ id
      → update_by key id f (pre ++ a ∷ post) ≡ pre ++ f a ∷ post
  unfolding update_by
  update_by-before id f [] a post h e = ground (arith, eq_iff (key a) id)
  update_by-before id f (b ∷ pre) a post h e = ground (arith, update_by-before id f pre a post)

  pub update_by-IsAt :
      (f : A → A) (a : A) (rows : List A)
      → (s : IsAt a rows) → update_by key (key a) f rows ≡ s.pre ++ f a ∷ s.post
  update_by-IsAt f a rows s =
      ap (update_by key (key a) f) s.split ∙ update_by-before (key a) f s.pre a s.post s.before refl

  filter-free :
      (id : String) (rows : List A)
      → count (has_key id) rows ≡ 0
      → filter (λ b. not (str_eq (key b) id)) rows ≡ rows
  filter-free id [] h = refl
  filter-free id (b ∷ rows) h = ground (arith, filter-free id rows)

  pub filter-append :
      (p : A → Bool) (rows more : List A) → filter p (rows ++ more) ≡ filter p rows ++ filter p more
  filter-append p [] more = refl
  filter-append p (b ∷ rows) more = ground (arith, filter-append p rows more)

  pub filter-IsAt :
      (a : A) (rows : List A)
      → (s : IsAt a rows) → filter (λ b. not (str_eq (key b) (key a))) rows ≡ s.pre ++ s.post
  filter-IsAt a rows s =
      let other = λ (b : A). not (str_eq (key b) (key a)) in
      let gone : other a ≡ false = ground (arith, eq_iff (key a) (key a)) in
      ap (filter other) s.split
      ∙ filter-append other s.pre (a ∷ s.post)
      ∙ rw (filter-free (key a) s.pre s.before)
          (ap (λ (r : List A). s.pre ++ r) (rw gone (filter-free (key a) s.post s.after)))
