-- ===== src/Prelude/Trim.antt =====
-- A text with no white space is trimmed to itself.
use Prim.Native.Nat.{ℕ}
use mathlib.Core.Path.{◌≡◌, refl}
use mathlib.Core.Bool.{Bool, true, ◌&&◌, not}
use mathlib.Core.List.{List, [], ◌∷◌, ◌++◌, reverse, reverse-cons, reverse-reverse}
use native.Mathlib.Omega.{arith}
use hypertron_api.Prelude.Lists.{all}
use hypertron_api.Prelude.Text.{Text, is_space, trim, trim_start}

abbrev pub is_ink : ℕ → Bool
is_ink c = not (is_space c)

all-snoc :
    {A : Type 0} (p : A → Bool) (xs : List A) (a : A) → all p (xs ++ a ∷ []) ≡ (all p xs && p a)
all-snoc p [] a = ground arith
all-snoc p (x ∷ xs) a = ground (arith, all-snoc p xs a)

all-reverse :
    {A : Type 0} (p : A → Bool) (xs : List A) → all p xs ≡ true → all p (reverse xs) ≡ true
all-reverse p [] h = refl
all-reverse p (x ∷ xs) h =
    rw (reverse-cons x xs, all-snoc p (reverse xs) x) (ground (arith, all-reverse p xs))

trim_start_ink : (s : Text) → all is_ink s ≡ true → trim_start s ≡ s
unfolding trim_start
trim_start_ink [] h = refl
trim_start_ink (c ∷ s) h = ground (arith, trim_start_ink s)

pub trim_ink : (s : Text) → all is_ink s ≡ true → trim s ≡ s
unfolding trim
trim_ink s h =
    rw (trim_start_ink s h, trim_start_ink (reverse s) (all-reverse is_ink s h)) (reverse-reverse s)
