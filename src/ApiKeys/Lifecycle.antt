-- ===== src/ApiKeys/Lifecycle.antt =====
-- What a key goes through under any sequence of calls: the primary key of the table is unique, a
-- key that is generated is accepted, and one that is revoked is not accepted again.
use hypertron_api.Prelude.{
  ℕ, ◌≤◌, String, List, [], ◌∷◌, ◌++◌, Option, none, some, Bool, true, false, not, ◌&&◌, ◌||◌,
  str_eq, eq_iff, all, any, count, count-append, ◌≡◌, ◌≢◌, refl, ap, ◌∙◌, arith, Bool-cases,
  Option-cases, inl, inr,
}
use hypertron_api.Prelude.Text.{Text}
use hypertron_api.Store.Tables.{ApiKey}
use hypertron_api.Store.Effects.{World, ok, update_by}
use hypertron_api.Store.Rows.{Unique, count-update_by}
use hypertron_api.ApiKeys.{
  Bcrypt, ApiKeyRecord, same_id, find_match, used, matching, verified, verify, revoked, revoke_row,
  revoke, find_first, is_active_key_of,
}
use hypertron_api.ApiKeys.Calls.{
  Op, revokes, run, run_all, Step, touches, revokes_row, adds, Steps, done, then_steps, run-Steps,
}

abbrev pub has_id : String → ApiKey → Bool
has_id id k = str_eq k.id id

abbrev pub key_id : ApiKey → String
key_id k = k.id

abbrev pub is_off : String → ApiKey → Bool
is_off id k = not (has_id id k) || not k.active

-- The row is there, and no row with its id is active.
abbrev pub IsRevoked : String → List ApiKey → Type 0
IsRevoked id ks = (any (has_id id) ks ≡ true) × (all (is_off id) ks ≡ true)

-- A rewrite of one row that keeps its id.
module _ (id : String) (f : ApiKey → ApiKey) (keeps : (k : ApiKey) → (f k).id ≡ k.id) where
  any-update_by :
      (j : String) (ks : List ApiKey)
      → any (has_id j) (update_by (λ k. k.id) id f ks) ≡ any (has_id j) ks
  unfolding update_by
  any-update_by j [] = refl
  any-update_by j (k ∷ ks) = ground (arith, keeps k, any-update_by j ks)

  all-update_by :
      (j : String) (ks : List ApiKey)
      → ((k : ApiKey) → is_off j k ≡ true → is_off j (f k) ≡ true)
      → all (is_off j) ks ≡ true
      → all (is_off j) (update_by (λ k. k.id) id f ks) ≡ true
  unfolding update_by
  all-update_by j [] h a = refl
  all-update_by j (k ∷ ks) h a = ground (arith, h k, all-update_by j ks h)

-- An id that is free for a new row.
free-has_id :
    (k : ApiKey) (ks : List ApiKey) → any (same_id k) ks ≡ false → any (has_id k.id) ks ≡ false
free-has_id k [] h = refl
free-has_id k (j ∷ ks) h = ground (arith, free-has_id k ks)

count-any : (j : String) (ks : List ApiKey) → any (has_id j) ks ≡ false → count (has_id j) ks ≡ 0
count-any j [] h = refl
count-any j (k ∷ ks) h = ground (arith, count-any j ks)

any-append :
    (j : String) (ks : List ApiKey) (k : ApiKey)
    → any (has_id j) (ks ++ k ∷ []) ≡ (any (has_id j) ks || has_id j k)
any-append j [] k = ground arith
any-append j (l ∷ ks) k = ground (arith, any-append j ks k)

all-append :
    (j : String) (ks : List ApiKey) (k : ApiKey)
    → all (is_off j) (ks ++ k ∷ []) ≡ (all (is_off j) ks && is_off j k)
all-append j [] k = ground arith
all-append j (l ∷ ks) k = ground (arith, all-append j ks k)

Step-Unique : {js ks : List ApiKey} → Step js ks → Unique key_id js → Unique key_id ks
Step-Unique (touches id now ks) u j =
    rw (count-update_by key_id id j (used now) ks (λ k. refl)) (u j)
Step-Unique (revokes_row id now ks) u j =
    rw (count-update_by key_id id j (revoked now) ks (λ k. refl)) (u j)
Step-Unique (adds k ks h) u j = ground (
  arith,
  eq_iff k.id j,
  u j,
  count-append (has_id j) ks (k ∷ []),
  count-any j ks,
  free-has_id k ks h,
)

Step-IsRevoked :
    {js ks : List ApiKey} (id : String) → Step js ks → IsRevoked id js → IsRevoked id ks
Step-IsRevoked id (touches j now ks) (a, o) =
    (any-update_by j _ (λ k. refl) id ks ∙ a, all-update_by j _ (λ k. refl) id ks (λ k h. h) o)
Step-IsRevoked id (revokes_row j now ks) (a, o) = (
  any-update_by j _ (λ k. refl) id ks ∙ a,
  all-update_by j _ (λ k. refl) id ks (λ k h. ground arith) o,
)
Step-IsRevoked id (adds k ks h) (a, o) = (
  any-append id ks k ∙ ground (arith, a),
  all-append id ks k ∙ ground (arith, o, a, eq_iff k.id id, free-has_id k ks h),
)

Steps-Unique : {js ks : List ApiKey} → Steps js ks → Unique key_id js → Unique key_id ks
Steps-Unique (done ks) u = u
Steps-Unique (then_steps s ss) u = Steps-Unique ss (Step-Unique s u)

Steps-IsRevoked :
    {js ks : List ApiKey} (id : String) → Steps js ks → IsRevoked id js → IsRevoked id ks
Steps-IsRevoked id (done ks) r = r
Steps-IsRevoked id (then_steps s ss) r = Steps-IsRevoked id ss (Step-IsRevoked id s r)

run_all-Unique :
    (b : Bcrypt) (os : List Op) (w : World)
    → Unique key_id w.api_keys
    → Unique key_id (run_all b os w).api_keys
run_all-Unique b [] w u = u
run_all-Unique b (o ∷ os) w u = run_all-Unique b os (run b o w) (Steps-Unique (run-Steps b o w) u)

run_all-IsRevoked :
    (b : Bcrypt) (id : String) (os : List Op) (w : World)
    → IsRevoked id w.api_keys
    → IsRevoked id (run_all b os w).api_keys
run_all-IsRevoked b id [] w r = r
run_all-IsRevoked b id (o ∷ os) w r =
    run_all-IsRevoked b id os (run b o w) (Steps-IsRevoked id (run-Steps b o w) r)

count-is_off :
    (id : String) (ks : List ApiKey) → count (has_id id) ks ≡ 0 → all (is_off id) ks ≡ true
count-is_off id [] h = refl
count-is_off id (k ∷ ks) h = ground (arith, count-is_off id ks)

revoked-is_off :
    (id : String) (now : ℕ) (ks : List ApiKey)
    → count (has_id id) ks ≤ 1
    → all (is_off id) (update_by (λ k. k.id) id (revoked now) ks) ≡ true
unfolding update_by
revoked-is_off id now [] h = refl
revoked-is_off id now (k ∷ ks) h = ground (arith, revoked-is_off id now ks, count-is_off id ks)

find_first-any :
    (p : ApiKey → Bool) (ks : List ApiKey) {k : ApiKey}
    → find_first p ks ≡ some k
    → any (has_id k.id) ks ≡ true
unfolding find_first
find_first-any p [] h = cc
find_first-any p (j ∷ ks) {k} h = elim (Bool-cases (p j)) [
  | inl t ↦
      let e : j ≡ k = ground (arith, t) in
      ground (arith, eq_iff j.id k.id, ap (λ (x : ApiKey). x.id) e)
  | inr f ↦ ground (arith, f, find_first-any p ks {k = k})
]

module _ (now : ℕ) (r : ApiKeyRecord) where
  revoke_row-IsRevoked :
      (p : ApiKey → Bool) (o : Option ApiKey) (w : World)
      → find_first p w.api_keys ≡ o
      → Unique key_id w.api_keys
      → (revoke_row now o w).0 ≡ ok (some r)
      → IsRevoked r.id (revoke_row now o w).1.api_keys
  revoke_row-IsRevoked p none w h u e = cc
  revoke_row-IsRevoked p (some k) w h u e =
      let i : k.id ≡ r.id = ground arith in
      rw (← i) (
        any-update_by k.id (revoked now) (λ j. refl) k.id w.api_keys
            ∙ find_first-any p w.api_keys h,
        revoked-is_off k.id now w.api_keys (u k.id),
      )

module _ (b : Bcrypt) (id : String) where
  find_match-is_off :
      (raw_key p : Text) (ks : List ApiKey) {k : ApiKey}
      → find_match b raw_key p ks ≡ some k
      → all (is_off id) ks ≡ true
      → k.id ≢ id
  unfolding find_match
  find_match-is_off raw_key p [] h a e = cc
  find_match-is_off raw_key p (j ∷ ks) {k} h a e =
      ground (arith, eq_iff j.id id, find_match-is_off raw_key p ks {k = k}, e)

  matching-is_off :
      (raw_key : Text) (now : ℕ) (o : Option Text) (w : World) (v : ApiKeyRecord)
      → IsRevoked id w.api_keys
      → (matching b raw_key now o w).0 ≡ ok (some v)
      → v.id ≢ id
  unfolding matching verified
  matching-is_off raw_key now none w v r h = ground arith
  matching-is_off raw_key now (some p) w v (a, o) h =
      elim (Option-cases (find_match b raw_key p w.api_keys)) [
        | inl n ↦ ground (arith, n)
        | inr (k, e) ↦ ground (arith, find_match-is_off raw_key p w.api_keys e o)
      ]

module _ (b : Bcrypt) where
  -- Start from a table whose ids are unique and make any calls; let a revocation then return a
  -- record, and make any further calls: no key is then verified as the record that was revoked.
  pub verify-revoke :
      (w : World) (before after : List Op) (public_id business_id : String) (now : ℕ)
      (raw_key : Text) (later : ℕ) (r v : ApiKeyRecord)
      → Unique key_id w.api_keys
      → (revoke public_id business_id now (run_all b before w)).0 ≡ ok (some r)
      → (verify b raw_key later
          (run_all b (revokes public_id business_id now ∷ after) (run_all b before w))).0
        ≡ ok (some v)
      → v.id ≢ r.id
  unfolding revoke verify
  verify-revoke w before after public_id business_id now raw_key later r v u h e =
      let w' : World = run_all b before w in
      let w'' : World = run b (revokes public_id business_id now) w' in
      matching-is_off b r.id raw_key later _ (run_all b after w'') v
        (run_all-IsRevoked b r.id after w'' (
          revoke_row-IsRevoked now r (is_active_key_of public_id business_id) _ w' refl
            (run_all-Unique b before w u) h))
        e
