-- ===== src/Tests/Pages.antt =====
-- Examples for the lists by page.
use text.Mathlib.TextEquality.{Char-path}
use Prim.Native.String.{String}
use hypertron_api.Prelude.{
  ℕ, suc, List, [], ◌∷◌, ◌++◌, Option, none, some, Bool, true, false, ◌&&◌, ◌||◌, ◌==◌, ltb, length,
  take, drop, ◌≡◌, ◌⊎◌, inl, inr, refl, ap, arith, str_eq, if◌then◌else◌, inl,
}
use hypertron_api.Prelude.Text.{Text, codes}
use hypertron_api.Store.Tables.{Payment}
use hypertron_api.Pages.{Runtime, payment_key}
use hypertron_api.Pages.Order.{IsStrict}
use hypertron_api.Pages.Walk.{IsFaithful, walk, listing, walk-listing}
use hypertron_api.Tests.Fixtures.{invoice}

-- The order of texts, character by character.
text_lt : Text → Text → Bool
text_lt [] [] = false
text_lt [] (d ∷ t) = true
text_lt (c ∷ s) [] = false
text_lt (c ∷ s) (d ∷ t) = ltb c d || (c == d && text_lt s t)

text_lt-irreflexive : (s : Text) → text_lt s s ≡ false
unfolding text_lt
text_lt-irreflexive [] = refl
text_lt-irreflexive (c ∷ s) = ground (arith, text_lt-irreflexive s)

text_lt-transitive : (s t u : Text) → text_lt s t ≡ true → text_lt t u ≡ true → text_lt s u ≡ true
unfolding text_lt
text_lt-transitive [] [] u h k = ground arith
text_lt-transitive [] (d ∷ t) [] h k = ground arith
text_lt-transitive [] (d ∷ t) (e ∷ u) h k = refl
text_lt-transitive (c ∷ s) [] u h k = ground arith
text_lt-transitive (c ∷ s) (d ∷ t) [] h k = ground arith
text_lt-transitive (c ∷ s) (d ∷ t) (e ∷ u) h k = ground (arith, text_lt-transitive s t u)

text_lt-total : (s t : Text) → (s ≡ t) ⊎ ((text_lt s t ≡ true) ⊎ (text_lt t s ≡ true))
unfolding text_lt
text_lt-total [] [] = inl refl
text_lt-total [] (d ∷ t) = inr (inl refl)
text_lt-total (c ∷ s) [] = inr (inr refl)
text_lt-total (c ∷ s) (d ∷ t) = ground (arith, text_lt-total s t)

codes-injective : (a b : String) → codes a ≡ codes b → a ≡ b
codes-injective String.[] String.[] h = refl
codes-injective String.[] (String.◌∷◌ d b) h = absurd (let e : false ≡ true = cc in cc)
codes-injective (String.◌∷◌ c a) String.[] h = absurd (let e : false ≡ true = cc in cc)
codes-injective (String.◌∷◌ c a) (String.◌∷◌ d b) h =
    let e : c ≡ d = Char-path c d (ground arith) in
    let k : a ≡ b = codes-injective a b (ground arith) in λ i. String.◌∷◌ (e i) (k i)

abbrev id_lt : String → String → Bool
id_lt a b = text_lt (codes a) (codes b)

id_lt-IsStrict : IsStrict id_lt
id_lt-IsStrict = record {
  irreflexive = λ a. text_lt-irreflexive (codes a);
  transitive = λ a b c. text_lt-transitive (codes a) (codes b) (codes c);
  total = λ a b n. elim (text_lt-total (codes a) (codes b)) [
    | inl e ↦ absurd (n (codes-injective a b e))
    | inr h ↦ h
  ];
}

-- Texts of one number, and pairs under the length of their first part. The ids are those below.
abbrev first_code : Text → ℕ
first_code [] = 0
first_code (n ∷ s) = n

abbrev parsed : Text → Option (Text × Text)
parsed [] = none
parsed (n ∷ s) = some (take n s, drop n s)

abbrev runtime : Runtime
runtime = record {
  to_iso_string = λ n. n ∷ [];
  date = first_code;
  stringify = λ p. length p.0 ∷ (p.0 ++ p.1);
  parse = parsed;
  to_base64url = λ s. s;
  from_base64url = λ s. s;
  id_text = codes;
  id_of = λ t.
      if first_code (drop 1 t) == b'1'
      then "p1"
      else if first_code (drop 1 t) == b'2'
      then "p2"
      else "p3";
}

take-length : (s t : Text) → take (length s) (s ++ t) ≡ s
take-length [] t = refl
take-length (c ∷ s) t = ap (λ x. c ∷ x) (take-length s t)

drop-length : (s t : Text) → drop (length s) (s ++ t) ≡ t
drop-length [] t = refl
drop-length (c ∷ s) t = drop-length s t

runtime-IsFaithful : IsFaithful runtime
runtime-IsFaithful = record {
  base64url = λ s. refl;
  json = λ p. rw (take-length p.0 p.1, drop-length p.0 p.1) refl;
  date = λ n. refl;
  iso_text = λ n. refl;
  written = λ p. refl;
}

abbrev rows : List Payment
rows =
    invoice
    ∷ record invoice { id = "p2"; created_at = 300 }
    ∷ record invoice { id = "p3"; created_at = 100 }
    ∷ []

abbrev own : Payment → Bool
own p = str_eq p.business_id "shop"

walk-listing_example :
    walk id_lt payment_key runtime own 2 rows
      (suc (length (listing id_lt payment_key runtime own 2 rows)))
      none
    ≡ listing id_lt payment_key runtime own 2 rows
walk-listing_example =
    walk-listing id_lt payment_key runtime own 2 rows id_lt-IsStrict runtime-IsFaithful
      (refl, (refl, (refl, tt))) refl (omega arith)
