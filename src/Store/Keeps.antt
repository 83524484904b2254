-- ===== src/Store/Keeps.antt =====
-- Effects that leave a part of the state alone, whatever they return or throw.
use hypertron_api.Prelude.{◌≡◌, refl, ◌∙◌}
use hypertron_api.Store.Effects.{World, Result, ok, err, M, ◌>>=◌, ◌>>◌, return, bind_result}

module _ {ℓ κ} {F : Type ℓ} (part : World → F) where
  abbrev pub Keeps : {A : Type κ} → M A → Type ℓ
  Keeps m = (w : World) → part (m w).1 ≡ part w

  pub Keeps-return : {A : Type κ} (a : A) → Keeps (return a)
  Keeps-return a w = refl

module _ {ℓ κ μ} {F : Type ℓ} (part : World → F) where
  pub bind_result-Keeps :
      {A : Type κ} {B : Type μ} (r : Result A × World) (f : A → M B)
      → ((a : A) → Keeps part (f a))
      → part (bind_result r f).1 ≡ part r.1
  bind_result-Keeps (ok a, w) f k = k a w
  bind_result-Keeps (err e, w) f k = refl

  pub Keeps-bind :
      {A : Type κ} {B : Type μ} (m : M A) (f : A → M B)
      → Keeps part m
      → ((a : A) → Keeps part (f a))
      → Keeps part (m >>= f)
  Keeps-bind m f h k w = bind_result-Keeps (m w) f k ∙ h w

  pub Keeps-then :
      {A : Type κ} {B : Type μ} (m : M A) (n : M B)
      → Keeps part m
      → Keeps part n
      → Keeps part (m >> n)
  Keeps-then m n h k w = bind_result-Keeps (m w) (λ _. n) (λ _. k) ∙ h w
