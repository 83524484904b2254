-- ===== src/Pages/Order.antt =====
-- The order of the rows: it is strict, the sort puts the rows in it, and a filter keeps it.
use hypertron_api.Prelude.{
  String, List, [], ◌∷◌, ◌++◌, some, Bool, true, false, not, ◌&&◌, str_eq, eq_iff, all, ◌≡◌, ◌≢◌,
  ◌⊎◌, inl, inr, refl, ◌∙◌, arith, Bool-cases, if◌then◌else◌,
}
use hypertron_api.Pages.{Cursor, precedes, after_cursor, where_rows, insert_row, order_rows}

-- An order of ids that is strict and total.
pub record IsStrict (id_lt : String → String → Bool) : Type 0 where
  pub irreflexive : (a : String) → id_lt a a ≡ false
  pub transitive : (a b c : String) → id_lt a b ≡ true → id_lt b c ≡ true → id_lt a c ≡ true
  pub total : (a b : String) → a ≢ b → (id_lt a b ≡ true) ⊎ (id_lt b a ≡ true)

module _ {ℓ} {A : Type ℓ} (id_lt : String → String → Bool) (key : A → Cursor) where
  abbrev pub comes_before : A → A → Bool
  comes_before x y = precedes id_lt key (key y) (key x)

  -- Every row comes before all that follow it.
  abbrev pub Descending : List A → Type 0
  Descending [] = Unit
  Descending (x ∷ xs) = (all (comes_before x) xs ≡ true) × Descending xs

  abbrev pub other_id : A → A → Bool
  other_id x y = not (str_eq (key x).id (key y).id)

  -- The ids of the rows are different.
  abbrev pub Distinct : List A → Type 0
  Distinct [] = Unit
  Distinct (x ∷ xs) = (all (other_id x) xs ≡ true) × Distinct xs

  pub all-where_rows :
      (p q : A → Bool) (xs : List A) → all p xs ≡ true → all p (where_rows id_lt key q xs) ≡ true
  unfolding where_rows
  all-where_rows p q [] h = refl
  all-where_rows p q (x ∷ xs) h = ground (arith, all-where_rows p q xs)

  pub where_rows-Descending :
      (q : A → Bool) (xs : List A) → Descending xs → Descending (where_rows id_lt key q xs)
  unfolding where_rows
  where_rows-Descending q [] h = h
  where_rows-Descending q (x ∷ xs) (a, d) = elim (Bool-cases (q x)) [
    | inl t ↦ rw t (all-where_rows (comes_before x) q xs a, where_rows-Descending q xs d)
    | inr f ↦ rw f (where_rows-Descending q xs d)
  ]

  pub where_rows-all :
      (q : A → Bool) (xs : List A) → all q xs ≡ true → where_rows id_lt key q xs ≡ xs
  unfolding where_rows
  where_rows-all q [] h = refl
  where_rows-all q (x ∷ xs) h = ground (arith, where_rows-all q xs)

  pub where_rows-and :
      (p q : A → Bool) (xs : List A)
      → where_rows id_lt key (λ a. p a && q a) xs
        ≡ where_rows id_lt key q (where_rows id_lt key p xs)
  unfolding where_rows
  where_rows-and p q [] = refl
  where_rows-and p q (x ∷ xs) = ground (arith, where_rows-and p q xs)

  all-insert_row :
      (p : A → Bool) (x : A) (xs : List A) → all p (insert_row id_lt key x xs) ≡ (p x && all p xs)
  unfolding insert_row
  all-insert_row p x [] = refl
  all-insert_row p x (y ∷ ys) = ground (arith, all-insert_row p x ys)

  pub all-order_rows : (p : A → Bool) (xs : List A) → all p (order_rows id_lt key xs) ≡ all p xs
  unfolding order_rows
  all-order_rows p [] = refl
  all-order_rows p (x ∷ xs) =
      ground (arith, all-insert_row p x (order_rows id_lt key xs), all-order_rows p xs)

  insert_row-first :
      (x : A) (xs : List A) → all (comes_before x) xs ≡ true → insert_row id_lt key x xs ≡ x ∷ xs
  unfolding insert_row
  insert_row-first x [] h = refl
  insert_row-first x (y ∷ ys) h = ground arith

  module _ (laws : IsStrict id_lt) where
    pub comes_before-irreflexive : (x : A) → comes_before x x ≡ false
    comes_before-irreflexive x = ground (arith, laws.irreflexive (key x).id)

    comes_before-transitive :
        (x y z : A) → comes_before x y ≡ true → comes_before y z ≡ true → comes_before x z ≡ true
    comes_before-transitive x y z h k =
        ground (arith, laws.transitive (key z).id (key y).id (key x).id)

    pub comes_before-asymmetric : (x y : A) → comes_before x y ≡ true → comes_before y x ≡ false
    comes_before-asymmetric x y h =
        ground (arith, comes_before-transitive x y x, comes_before-irreflexive x)

    comes_before-total :
        (x y : A) → other_id x y ≡ true → comes_before x y ≡ false → comes_before y x ≡ true
    comes_before-total x y h k =
        let ne : (key x).id ≢ (key y).id = λ e. ground (arith, eq_iff (key x).id (key y).id) in
        ground (arith, laws.total (key x).id (key y).id ne)

    all-comes_before :
        (x y : A) (zs : List A)
        → comes_before x y ≡ true
        → all (comes_before y) zs ≡ true
        → all (comes_before x) zs ≡ true
    all-comes_before x y [] h k = refl
    all-comes_before x y (z ∷ zs) h k =
        ground (arith, comes_before-transitive x y z, all-comes_before x y zs)

    insert_row-Descending :
        (x : A) (xs : List A)
        → all (other_id x) xs ≡ true
        → Descending xs
        → Descending (insert_row id_lt key x xs)
    unfolding insert_row
    insert_row-Descending x [] n d = (refl, tt)
    insert_row-Descending x (y ∷ ys) n (a, d) = elim (Bool-cases (comes_before x y)) [
      | inl t ↦ rw t (ground (arith, t, all-comes_before x y ys t a), (a, d))
      | inr f ↦ rw f (
        ground (arith, all-insert_row (comes_before y) x ys, comes_before-total x y, n, f, a),
        insert_row-Descending x ys (ground (arith, n)) d,
      )
    ]

    pub order_rows-Descending : (xs : List A) → Distinct xs → Descending (order_rows id_lt key xs)
    unfolding order_rows
    order_rows-Descending [] h = tt
    order_rows-Descending (x ∷ xs) (n, h) =
        insert_row-Descending x (order_rows id_lt key xs) (all-order_rows (other_id x) xs ∙ n)
          (order_rows-Descending xs h)

    where_rows-insert_row :
        (q : A → Bool) (x : A) (xs : List A)
        → Descending xs
        → where_rows id_lt key q (insert_row id_lt key x xs) ≡ (
            if q x
            then insert_row id_lt key x (where_rows id_lt key q xs)
            else where_rows id_lt key q xs)
    unfolding where_rows insert_row
    where_rows-insert_row q x [] d = ground arith
    where_rows-insert_row q x (y ∷ ys) (a, d) = elim (Bool-cases (comes_before x y)) [
      | inl t ↦ ground (
        arith,
        t,
        insert_row-first x (where_rows id_lt key q ys),
        all-where_rows (comes_before x) q ys (all-comes_before x y ys t a),
      )
      | inr f ↦ ground (arith, f, where_rows-insert_row q x ys d)
    ]

    pub where_rows-order_rows :
        (q : A → Bool) (xs : List A)
        → Distinct xs
        → order_rows id_lt key (where_rows id_lt key q xs)
          ≡ where_rows id_lt key q (order_rows id_lt key xs)
    unfolding where_rows order_rows
    where_rows-order_rows q [] h = refl
    where_rows-order_rows q (x ∷ xs) (n, h) = ground (
      arith,
      where_rows-insert_row q x (order_rows id_lt key xs) (order_rows-Descending xs h),
      where_rows-order_rows q xs h,
    )

    -- Behind the cursor of a row stand exactly the rows that follow it.
    pub where_rows-after_cursor :
        (before after : List A) (x : A)
        → Descending (before ++ x ∷ after)
        → where_rows id_lt key (after_cursor id_lt key (some (key x))) (before ++ x ∷ after) ≡ after
    unfolding where_rows
    where_rows-after_cursor [] after x (a, d) =
        rw (comes_before-irreflexive x) (where_rows-all (comes_before x) after a)
    where_rows-after_cursor (y ∷ ys) after x (a, d) =
        let first : comes_before y x ≡ true = all-member (comes_before y) ys x after a in
        rw (comes_before-asymmetric y x first) (where_rows-after_cursor ys after x d)
      where
        all-member :
            (p : A → Bool) (ys : List A) (x : A) (zs : List A)
            → all p (ys ++ x ∷ zs) ≡ true
            → p x ≡ true
        all-member p [] x zs h = ground arith
        all-member p (y ∷ ys) x zs h = all-member p ys x zs (ground arith)
