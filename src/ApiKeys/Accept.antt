-- ===== src/ApiKeys/Accept.antt =====
-- A key that is generated is accepted.
use mathlib.Core.Path.{subst}
use hypertron_api.Prelude.{
  ℕ, String, List, [], ◌∷◌, ◌++◌, some, Bool, true, false, not, ◌&&◌, all, any, ◌≡◌, refl, sym,
  arith, Bool-cases, inl, inr, if◌then◌else◌,
}
use hypertron_api.Prelude.Text.{Text, codes, text_eq_refl}
use hypertron_api.Store.Tables.{Environment, test, live, ApiKey}
use hypertron_api.Store.Effects.{World, unique_violation, Result, ok, err}
use hypertron_api.Amount.{split, push_head}
use hypertron_api.Crypto.Hex.{split-append}
use hypertron_api.ApiKeys.{
  Bcrypt, GenerateKeyResult, KeyInput, generate_api_key, environment_name, prefix_of,
  get_key_prefix, stripped, made_key, same_id, create_key, generate, is_candidate, find_match,
  matching, verified, verify,
}

prefix_of-split :
    (p q t : Text) → prefix_of (p ∷ q ∷ split b'_' t) ≡ some (p ++ b'_' ∷ (q ++ b'_' ∷ []))
unfolding split push_head
prefix_of-split p q [] = refl
prefix_of-split p q (c ∷ t) = elim (split b'_' t) [ [] ↦ ground arith | r ∷ rs ↦ ground arith ]

abbrev key_prefix : Environment → Text
key_prefix e = codes "sk_" ++ (environment_name e ++ b'_' ∷ [])

get_key_prefix-generate_api_key :
    (e : Environment) (token : Text)
    → get_key_prefix (generate_api_key e token) ≡ some (key_prefix e)
unfolding get_key_prefix
get_key_prefix-generate_api_key test token =
    rw
      (
        split-append b'_' (codes "sk") (codes "test" ++ b'_' ∷ token) refl,
        split-append b'_' (codes "test") token refl,
      )
      (prefix_of-split (codes "sk") (codes "test") token)
get_key_prefix-generate_api_key live token =
    rw
      (
        split-append b'_' (codes "sk") (codes "live" ++ b'_' ∷ token) refl,
        split-append b'_' (codes "live") token refl,
      )
      (prefix_of-split (codes "sk") (codes "live") token)

-- No key of the table has the hash of the raw key.
abbrev pub misses : Bcrypt → Text → ApiKey → Bool
misses b raw_key k = not (b.compare raw_key k.secret_hash)

module _ (b : Bcrypt) where
  find_match-last :
      (raw_key p : Text) (ks : List ApiKey) (k : ApiKey)
      → all (misses b raw_key) ks ≡ true
      → (is_candidate p k && b.compare raw_key k.secret_hash) ≡ true
      → find_match b raw_key p (ks ++ k ∷ []) ≡ some k
  unfolding find_match
  find_match-last raw_key p [] k a h = ground arith
  find_match-last raw_key p (j ∷ ks) k a h = ground (arith, find_match-last raw_key p ks k)

  matching-last :
      (raw_key p : Text) (later : ℕ) (w : World) (k : ApiKey)
      → all (misses b raw_key) w.api_keys ≡ true
      → (is_candidate p k && b.compare raw_key k.secret_hash) ≡ true
      → (matching b raw_key later (some p) (record w { api_keys = w.api_keys ++ k ∷ [] })).0
        ≡ ok (some (stripped k))
  unfolding matching verified
  matching-last raw_key p later w k a h = rw (find_match-last raw_key p w.api_keys k a h) refl

module _ (b : Bcrypt) (business_id name : String) (e : Environment) (i : KeyInput) (w : World)
    (hashed : b.compare
        (generate_api_key e i.token)
        (b.hash (generate_api_key e i.token) i.salt_rounds i.salt)
      ≡ true)
    (fresh : all (misses b (generate_api_key e i.token)) w.api_keys ≡ true) where
  abbrev row : ApiKey
  row = made_key b business_id name e i (key_prefix e)

  abbrev made : GenerateKeyResult
  made = record { raw_key = generate_api_key e i.token; key = stripped row }

  abbrev outcome : Bool → Result GenerateKeyResult × World
  outcome taken =
      if taken
      then (err unique_violation, w)
      else (ok made, record w { api_keys = w.api_keys ++ row ∷ [] })

  generate-outcome : generate b business_id name e i w ≡ outcome (any (same_id row) w.api_keys)
  unfolding generate create_key
  generate-outcome =
      rw (get_key_prefix-generate_api_key e i.token)
        (elim (Bool-cases (any (same_id row) w.api_keys)) [ inl t ↦ rw t refl | inr f ↦ rw f refl ])

  verify-made :
      (later : ℕ)
      → (verify b made.raw_key later (record w { api_keys = w.api_keys ++ row ∷ [] })).0
        ≡ ok (some made.key)
  unfolding verify
  verify-made later = rw (get_key_prefix-generate_api_key e i.token) (
      matching-last b made.raw_key (key_prefix e) later w row fresh
        (ground (arith, hashed, text_eq_refl (key_prefix e))))

  outcome-verify :
      (taken : Bool) (later : ℕ) (r : GenerateKeyResult)
      → (outcome taken).0 ≡ ok r
      → (verify b r.raw_key later (outcome taken).1).0 ≡ ok (some r.key)
  outcome-verify true later r h = cc
  outcome-verify false later r h =
      let e : made ≡ r = cc in
      subst
        (λ (x : GenerateKeyResult).
          (verify b x.raw_key later (outcome false).1).0 ≡ ok (some x.key))
        e (verify-made later)

  -- Where bcrypt accepts the hash that it has made and no key of the table has the hash of the new
  -- raw key, a generation that returns makes a raw key that is then verified, as the new record.
  pub verify-generate :
      (later : ℕ) (r : GenerateKeyResult)
      → (generate b business_id name e i w).0 ≡ ok r
      → (verify b r.raw_key later (generate b business_id name e i w).1).0 ≡ ok (some r.key)
  verify-generate later r =
      subst
        (λ (x : Result GenerateKeyResult × World).
          x.0 ≡ ok r → (verify b r.raw_key later x.1).0 ≡ ok (some r.key))
        (sym generate-outcome) (outcome-verify (any (same_id row) w.api_keys) later r)
