-- ===== src/Auth/Keys.antt =====
-- A request that passes the API key guard has presented a key of the table.
use mathlib.Core.Path.{subst}
use mathlib.Core.List.{Mem, mem-cons_self, mem-cons_of_mem}
use hypertron_api.Prelude.{
  ℕ, List, [], ◌∷◌, Option, none, some, Bool, true, false, ◌&&◌, ◌≡◌, refl, arith, Bool-cases, inl,
  inr,
}
use hypertron_api.Prelude.Text.{Text}
use hypertron_api.Store.Tables.{ApiKey}
use hypertron_api.Store.Effects.{World, ok, bind_result}
use hypertron_api.ApiKeys.{
  Bcrypt, is_candidate, get_key_prefix, find_match, matching, verified, verify,
}
use hypertron_api.Auth.Guards.{
  MerchantContext, extract_bearer_token, merchant_of, key_guard, api_key_guard,
}

-- An active key of the table has the hash of the token that was sent, and the context is its own.
pub record IsGranted (b : Bcrypt) (token : Option Text) (keys : List ApiKey) (m : MerchantContext)
    : Type 0 where
  pub raw_key : Text
  pub key : ApiKey
  pub sent : token ≡ some raw_key
  pub in_table : Mem key keys
  pub active : key.active ≡ true
  pub hash : b.compare raw_key key.secret_hash ≡ true
  pub business_id : m.business_id ≡ key.business_id
  pub environment : m.environment ≡ key.environment
  pub api_key_id : m.api_key_id ≡ key.public_id

module _ (b : Bcrypt) (raw_key p : Text) where
  abbrev hit : ApiKey → Bool
  hit k = is_candidate p k && b.compare raw_key k.secret_hash

  find_match-Mem :
      (ks : List ApiKey) {k : ApiKey}
      → find_match b raw_key p ks ≡ some k
      → Mem k ks × (hit k ≡ true)
  unfolding find_match
  find_match-Mem [] h = absurd (let e : false ≡ true = cc in cc)
  find_match-Mem (j ∷ ks) {k} h = elim (Bool-cases (hit j)) [
    | inl t ↦
        let e : j ≡ k = ground (arith, t) in
        subst (λ (x : ApiKey). Mem x (j ∷ ks) × (hit x ≡ true)) e (mem-cons_self, t)
    | inr f ↦ let (m, t) = find_match-Mem ks {k = k} (ground (arith, f)) in (mem-cons_of_mem j m, t)
  ]

module _ (b : Bcrypt) (now : ℕ) (w : World) (m : MerchantContext) where
  granted :
      (raw_key p : Text) (o : Option ApiKey)
      → find_match b raw_key p w.api_keys ≡ o
      → (bind_result (verified now o w) (λ k v. (ok (merchant_of k), v))).0 ≡ ok (inr m)
      → IsGranted b (some raw_key) w.api_keys m
  unfolding verified
  granted raw_key p none f h = absurd (let e : false ≡ true = ground arith in cc)
  granted raw_key p (some k) f h =
      let (member, t) = find_match-Mem b raw_key p w.api_keys f in
      record {
        raw_key = raw_key;
        key = k;
        sent = refl;
        in_table = member;
        active = ground (arith, t);
        hash = ground (arith, t);
        business_id = ground arith;
        environment = ground arith;
        api_key_id = ground arith;
      }

  guarded :
      (token : Option Text)
      → (key_guard b token now w).0 ≡ ok (inr m)
      → IsGranted b token w.api_keys m
  unfolding verify matching
  guarded none h = absurd (let e : false ≡ true = ground arith in cc)
  guarded (some raw_key) h = by_prefix raw_key (get_key_prefix raw_key) h
    where
      by_prefix :
          (raw_key : Text) (o : Option Text)
          → (bind_result (matching b raw_key now o w) (λ k v. (ok (merchant_of k), v))).0
            ≡ ok (inr m)
          → IsGranted b (some raw_key) w.api_keys m
      by_prefix raw_key none h = absurd (let e : false ≡ true = ground arith in cc)
      by_prefix raw_key (some p) h = granted raw_key p (find_match b raw_key p w.api_keys) refl h

  -- A request that the API key guard lets through sent, as a bearer token, a raw key whose hash an
  -- active key of the table has; merchant, environment and key id attached to it are that key's.
  pub api_key_guard-IsGranted :
      (authorization : Option Text)
      → (api_key_guard b authorization now w).0 ≡ ok (inr m)
      → IsGranted b (extract_bearer_token authorization) w.api_keys m
  unfolding api_key_guard
  api_key_guard-IsGranted authorization h = guarded (extract_bearer_token authorization) h
