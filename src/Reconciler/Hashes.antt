-- ===== src/Reconciler/Hashes.antt =====
-- `loadForeignHashes` (src/modules/reconciler/reconciler.service.ts) by the rows of the table.
use hypertron_api.Prelude.{
  String, List, [], ◌∷◌, Bool, not, ◌&&◌, str_eq, eq_iff, any, ◌≡◌, refl, inl, inr, arith,
  Option-cases,
}
use hypertron_api.Store.Tables.{Payment}
use hypertron_api.Payments.StateMachine.{has_hash}
use hypertron_api.Stellar.Verifier.{has}
use hypertron_api.Reconciler.{contains, load_foreign_hashes}

-- A payment other than `exclude` that has the hash.
abbrev pub is_foreign : String → String → Payment → Bool
is_foreign exclude h p = not (str_eq p.id exclude) && has_hash h p

contains-any :
    (hashes : List String) (h : String) → contains hashes h ≡ any (λ g. str_eq g h) hashes
contains-any [] h = refl
contains-any (g ∷ gs) h = ground (arith, contains-any gs h)

-- A hash is among the hashes that are loaded exactly if it is not empty, was asked for, and is the
-- hash of a payment other than the one that is excluded.
pub has-load_foreign_hashes :
    (hashes : List String) (exclude : String) (ps : List Payment) (h : String)
    → has (load_foreign_hashes hashes exclude ps) h
      ≡ (not (str_eq h "") && (any (λ g. str_eq g h) hashes && any (is_foreign exclude h) ps))
unfolding load_foreign_hashes
has-load_foreign_hashes hashes exclude [] h = ground arith
has-load_foreign_hashes hashes exclude (p ∷ ps) h = elim (Option-cases p.transaction_hash) [
  | inl n ↦ ground (arith, n, has-load_foreign_hashes hashes exclude ps h)
  | inr (g, e) ↦ ground (
    arith,
    e,
    eq_iff g h,
    eq_iff g "",
    eq_iff h "",
    contains-any hashes h,
    has-load_foreign_hashes hashes exclude ps h,
  )
]
