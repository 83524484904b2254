-- ===== src/Pages/Walk.antt =====
-- A client that follows the cursors sees every row once, in order.
use hypertron_api.Prelude.{
  str_eq, eq_iff, ℕ, zero, suc, ◌+◌, ◌≤◌, ◌<◌, String, List, [], ◌∷◌, ◌++◌, Option, none, some,
  Bool, true, false, ◌&&◌, ltb, all, length, take, length-take, take_all, ◌≡◌, refl, sym, ap, ◌∙◌,
  arith,
}
use mathlib.Core.Path.{subst}
use native.Mathlib.Decide.{dec_lt}
use mathlib.Core.List.{append-nil, append_assoc}
use hypertron_api.Prelude.Text.{Text}
use hypertron_api.Pages.{
  Cursor, Runtime, encode_cursor, decode_cursor, after_cursor, where_rows, order_rows, find_many,
  last_row, page_of, find_all, cursor_param, cursor_of,
}
use hypertron_api.Pages.Order.{
  IsStrict, Descending, Distinct, where_rows-Descending, where_rows-and, where_rows-all,
  all-where_rows, all-order_rows, order_rows-Descending, where_rows-order_rows,
  where_rows-after_cursor,
}

abbrev pub is_text : Text → Bool
is_text [] = false
is_text (_ ∷ _) = true

-- What the runtime promises: it reads back what it has written, and writes no empty text.
pub record IsFaithful (r : Runtime) : Type 0 where
  pub base64url : (s : Text) → r.from_base64url (r.to_base64url s) ≡ s
  pub json : (p : Text × Text) → r.parse (r.stringify p) ≡ some p
  pub date : (n : ℕ) → r.date (r.to_iso_string n) ≡ n
  pub iso_text : (n : ℕ) → is_text (r.to_iso_string n) ≡ true
  pub written : (p : Text × Text) → is_text (r.to_base64url (r.stringify p)) ≡ true

-- An id whose text is not empty and is read back.
abbrev pub is_id : Runtime → String → Bool
is_id r id = is_text (r.id_text id) && str_eq (r.id_of (r.id_text id)) id

cursor_param-text :
    (r : Runtime) (t : Text) → is_text t ≡ true → cursor_param r (some t) ≡ decode_cursor r t
cursor_param-text r [] h = cc
cursor_param-text r (c ∷ cs) h = refl

cursor_of-text :
    (r : Runtime) (t i : Text)
    → is_text t ≡ true
    → is_text i ≡ true
    → cursor_of r (some (t, i)) ≡ some (record { created_at = r.date t; id = r.id_of i })
cursor_of-text r [] i h k = cc
cursor_of-text r (c ∷ cs) [] h k = cc
cursor_of-text r (c ∷ cs) (d ∷ ds) h k = refl

-- The cursor of a row is read back as the row's place, where the row's id is not empty and its text is
-- read back, and the runtime reads back what it writes.
pub decode_cursor-encode_cursor :
    (r : Runtime) (created_at : ℕ) (id : String)
    → IsFaithful r
    → is_id r id ≡ true
    → cursor_param r (some (encode_cursor r created_at id))
      ≡ some (record { created_at = created_at; id = id })
unfolding encode_cursor decode_cursor
decode_cursor-encode_cursor r created_at id f h =
    let p : Text × Text = (r.to_iso_string created_at, r.id_text id) in
    let k : r.id_of (r.id_text id) ≡ id = ground (arith, h, eq_iff (r.id_of (r.id_text id)) id) in
    cursor_param-text r (r.to_base64url (r.stringify p)) (f.written p)
    ∙ ap (λ s. cursor_of r (r.parse s)) (f.base64url (r.stringify p))
    ∙ ap (cursor_of r) (f.json p)
    ∙ cursor_of-text r (r.to_iso_string created_at) (r.id_text id) (f.iso_text created_at)
        (ground (arith, h))
    ∙ rw (f.date created_at, k) refl

-- The first rows of a list that has more of them, and the last of these.
record Cut {ℓ} {A : Type ℓ} (limit : ℕ) (rows : List A) : Type ℓ where
  before : List A
  row : A
  after : List A
  whole : rows ≡ before ++ row ∷ after
  page : take limit (take (suc limit) rows) ≡ before ++ row ∷ []
  shorter : length after < length rows

cut {ℓ} : {A : Type ℓ} (k : ℕ) (rows : List A) → suc k < length rows → Cut (suc k) rows
cut k [] h = absurd (omega arith)
cut zero (x ∷ xs) h = record {
  before = [];
  row = x;
  after = xs;
  whole = refl;
  page = refl;
  shorter = omega arith;
}
cut (suc k) (x ∷ xs) h =
    let c : Cut (suc k) xs = cut k xs (omega arith) in
    record {
      before = x ∷ c.before;
      row = c.row;
      after = c.after;
      whole = ap (λ l. x ∷ l) c.whole;
      page = ap (λ l. x ∷ l) c.page;
      shorter = omega (arith, c.shorter);
    }

all-true {ℓ} : {A : Type ℓ} (xs : List A) → all (λ _. true) xs ≡ true
all-true [] = refl
all-true (x ∷ xs) = all-true xs

all-middle {ℓ} :
    {A : Type ℓ} (p : A → Bool) (ys : List A) (x : A) (zs : List A)
    → all p (ys ++ x ∷ zs) ≡ true
    → p x ≡ true
all-middle p [] x zs h = ground arith
all-middle p (y ∷ ys) x zs h = all-middle p ys x zs (ground arith)

last_row-append {ℓ} :
    {A : Type ℓ} (id_lt : String → String → Bool) (key : A → Cursor) (xs : List A) (x : A)
    → last_row id_lt key (xs ++ x ∷ []) ≡ some x
unfolding last_row
last_row-append id_lt key [] x = refl
last_row-append id_lt key (y ∷ []) x = refl
last_row-append id_lt key (y ∷ z ∷ zs) x = last_row-append id_lt key (z ∷ zs) x

module _ {ℓ} {A : Type ℓ} (id_lt : String → String → Bool) (key : A → Cursor) (r : Runtime)
    (own : A → Bool) (limit : ℕ) (rows : List A) where
  -- The pages that a client gets from a cursor on, `n` pages at most.
  unfoldable pub walk : ℕ → Option Cursor → List A
  walk zero c = []
  walk (suc n) c =
      let page = find_all id_lt key r own limit c rows in
      page.data_rows
      ++ elim page.next_cursor [ none ↦ [] | some t ↦ walk n (cursor_param r (some t)) ]

  -- All rows of the merchant, in the order of the list.
  abbrev pub listing : List A
  listing = order_rows id_lt key (where_rows id_lt key own rows)

  abbrev pub after_of : Option Cursor → List A → List A
  after_of c = where_rows id_lt key (after_cursor id_lt key c)

  abbrev pub has_id : A → Bool
  has_id a = is_id r (key a).id

  module _ (laws : IsStrict id_lt) (faithful : IsFaithful r) (distinct : Distinct id_lt key rows)
      (ids : all has_id rows ≡ true) (positive : 0 < limit) where
    listing-Descending : Descending id_lt key listing
    listing-Descending = rw (where_rows-order_rows id_lt key laws own rows distinct) (
        where_rows-Descending id_lt key own (order_rows id_lt key rows)
          (order_rows-Descending id_lt key laws rows distinct))

    listing-has_id : all has_id listing ≡ true
    listing-has_id =
        all-order_rows id_lt key has_id (where_rows id_lt key own rows)
        ∙ all-where_rows id_lt key has_id own rows ids

    where_rows-true : (xs : List A) → after_of none xs ≡ xs
    where_rows-true xs = where_rows-all id_lt key (λ _. true) xs (all-true xs)

    find_many-listing :
        (c : Option Cursor) (n : ℕ) → find_many id_lt key own c n rows ≡ take n (after_of c listing)
    unfolding find_many
    find_many-listing c n =
        rw
          (
            where_rows-order_rows id_lt key laws own rows distinct,
            where_rows-order_rows id_lt key laws (λ a. own a && after_cursor id_lt key c a) rows
                distinct,
            where_rows-and id_lt key own (after_cursor id_lt key c) (order_rows id_lt key rows),
          )
          refl

    -- A page that is the last one, and a page behind which there are more rows.
    last_page :
        (c : Option Cursor) (rest : List A)
        → after_of c listing ≡ rest
        → length rest ≤ limit
        → (n : ℕ) → walk (suc n) c ≡ rest
    unfolding walk find_all page_of
    last_page c rest e le n =
        let read : find_many id_lt key own c (limit + 1) rows ≡ rest =
          find_many-listing c (limit + 1)
          ∙ ap (take (limit + 1)) e
          ∙ take_all (limit + 1) rest (omega arith) in
        let short : ltb limit (length rest) ≡ false = ground arith in
        rw (read, short) (append-nil rest)

    inner_page :
        (c : Option Cursor) (rest : List A)
        → after_of c listing ≡ rest
        → (t : Cut limit rest) → (n : ℕ) → limit < length rest
        → walk (suc n) c
          ≡ (t.before ++ t.row ∷ [])
            ++ walk n
                (cursor_param r (some (encode_cursor r (key t.row).created_at (key t.row).id)))
    unfolding walk find_all page_of
    inner_page c rest e t n lt =
        let read : find_many id_lt key own c (limit + 1) rows ≡ take (suc limit) rest =
          find_many-listing c (limit + 1)
          ∙ ap (take (limit + 1)) e
          ∙ ap (λ k. take k rest) {y = suc limit} (omega arith) in
        let more : ltb limit (length (take (suc limit) rest)) ≡ true =
          ground (arith, length-take (suc limit) rest) in
        rw (read, more, t.page, last_row-append id_lt key t.before t.row) refl

    Cut-at : (rest : List A) → limit < length rest → Cut limit rest
    Cut-at rest lt = subst_cut limit positive lt
      where
        subst_cut : (n : ℕ) → 0 < n → n < length rest → Cut n rest
        subst_cut zero pos lt = absurd (omega arith)
        subst_cut (suc k) pos lt = cut k rest lt

    walk-rest :
        (n : ℕ) (c : Option Cursor) (before rest : List A)
        → listing ≡ before ++ rest
        → after_of c listing ≡ rest
        → length rest < n
        → walk n c ≡ rest
    walk-rest zero c before rest w e lt = absurd (omega arith)
    walk-rest (suc n) c before rest w e lt = elim (dec_lt limit (length rest)) [
      | no all_read ↦ last_page c rest e (omega arith) n
      | yes more ↦
          let t : Cut limit rest = Cut-at rest more in
          let split : listing ≡ (before ++ t.before) ++ t.row ∷ t.after =
            w
            ∙ ap (λ l. before ++ l) t.whole
            ∙ sym (append_assoc before t.before (t.row ∷ t.after)) in
          let decoded : cursor_param r
                (some (encode_cursor r (key t.row).created_at (key t.row).id))
              ≡ some (key t.row) =
            decode_cursor-encode_cursor r (key t.row).created_at (key t.row).id faithful (
              all-middle has_id (before ++ t.before) t.row t.after
                (subst (λ l. all has_id l ≡ true) split listing-has_id)) in
          let next : after_of (some (key t.row)) listing ≡ t.after = rw split (
            where_rows-after_cursor id_lt key laws (before ++ t.before) t.after t.row
              (subst (Descending id_lt key) split listing-Descending)) in
          inner_page c rest e t n more
          ∙ ap (λ o. (t.before ++ t.row ∷ []) ++ walk n o) decoded
          ∙ ap (λ l. (t.before ++ t.row ∷ []) ++ l)
              (walk-rest n (some (key t.row)) ((before ++ t.before) ++ t.row ∷ []) t.after
                (split ∙ sym (append_assoc (before ++ t.before) (t.row ∷ []) t.after)) next
                (omega (arith, t.shorter)))
          ∙ append_assoc t.before (t.row ∷ []) t.after
          ∙ sym t.whole
    ]

    -- A client that starts without a cursor and follows the cursor of each page gets, page after
    -- page, all rows of the merchant, once each and in the order of the list; it needs one page for
    -- each row at most, and one more. The limit is positive, ids are different, not empty
    -- and read back from their texts, the order of ids is strict and total, and the runtime reads back
    -- what it writes.
    pub walk-listing : walk (suc (length listing)) none ≡ listing
    walk-listing =
        walk-rest (suc (length listing)) none [] listing refl (where_rows-true listing)
          (omega arith)
