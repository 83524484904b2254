-- ===== src/ApiKeys/Calls.antt =====
-- Every call on the keys takes the table through a few steps, each of which rewrites or adds one row.
use hypertron_api.Prelude.{
  ℕ, String, List, [], ◌∷◌, ◌++◌, Option, none, some, false, any, ◌≡◌, Bool-cases, inl, inr,
}
use hypertron_api.Prelude.Text.{Text}
use hypertron_api.Store.Tables.{Environment, ApiKey}
use hypertron_api.Store.Effects.{World, Result, ok, err, update_by, ◌>>=◌, return, bind_result}
use hypertron_api.ApiKeys.{
  Bcrypt, GenerateKeyResult, KeyInput, generate_api_key, stripped, new_key, key_or_throw, same_id,
  create_key, generate, find_match, touched, matching, verified, verify, revoked, revoke_row,
  revoke, in_transaction, replace_key, rotate_rows, rotate,
}

pub data Op : Type 0 where
  generates : (business_id name : String) → Environment → KeyInput → Op
  verifies : Text → ℕ → Op
  revokes : (public_id business_id : String) → ℕ → Op
  rotates : (public_id business_id name : String) → KeyInput → Op

module _ (b : Bcrypt) where
  abbrev pub run : Op → World → World
  run (generates business_id name e i) w = (generate b business_id name e i w).1
  run (verifies raw_key now) w = (verify b raw_key now w).1
  run (revokes public_id business_id now) w = (revoke public_id business_id now w).1
  run (rotates public_id business_id name i) w = (rotate b public_id business_id name i w).1

  abbrev pub run_all : List Op → World → World
  run_all [] w = w
  run_all (o ∷ os) w = run_all os (run o w)

-- How a call may change the table: it marks one row as used or as revoked, or it adds a row whose
-- ids are free.
pub data Step : List ApiKey → List ApiKey → Type 0 where
  touches : (id : String) (now : ℕ) (ks : List ApiKey) → Step ks (touched now id ks)
  revokes_row :
      (id : String) (now : ℕ) (ks : List ApiKey)
      → Step ks (update_by (λ k. k.id) id (revoked now) ks)
  adds : (k : ApiKey) (ks : List ApiKey) → any (same_id k) ks ≡ false → Step ks (ks ++ k ∷ [])

pub data Steps : List ApiKey → List ApiKey → Type 0 where
  done : (ks : List ApiKey) → Steps ks ks
  then_steps : {js ks ls : List ApiKey} → Step js ks → Steps ks ls → Steps js ls

one : {js ks : List ApiKey} → Step js ks → Steps js ks
one {js} {ks} s = then_steps s (done ks)

abbrev keys : {A : Type 0} → Result A × World → List ApiKey
keys r = r.1.api_keys

bind_result-Steps :
    {A B : Type 0} (js : List ApiKey) (r : Result A × World) (f : A → B)
    → Steps js (keys r)
    → Steps js (keys (bind_result r (λ a. return (f a))))
bind_result-Steps js (ok a, w) f s = s
bind_result-Steps js (err e, w) f s = s

create_key-Steps : (k : ApiKey) (w : World) → Steps w.api_keys (keys (create_key k w))
unfolding create_key
create_key-Steps k w = elim (Bool-cases (any (same_id k) w.api_keys)) [
  | inl t ↦ rw t (done w.api_keys)
  | inr f ↦ rw f (one (adds k w.api_keys f))
]

key_or_throw-create_key-Steps :
    (o : Option ApiKey) (f : ApiKey → GenerateKeyResult) (w : World)
    → Steps w.api_keys
        (keys ((do k ← key_or_throw o; created ← create_key k; return (f created)) w))
key_or_throw-create_key-Steps none f w = done w.api_keys
key_or_throw-create_key-Steps (some k) f w =
    bind_result-Steps w.api_keys (create_key k w) f (create_key-Steps k w)

generate-Steps :
    (b : Bcrypt) (business_id name : String) (e : Environment) (i : KeyInput) (w : World)
    → Steps w.api_keys (keys (generate b business_id name e i w))
unfolding generate
generate-Steps b business_id name e i w =
    key_or_throw-create_key-Steps (new_key b business_id name e i)
      (λ k. record { raw_key = generate_api_key e i.token; key = stripped k }) w

verified-Steps :
    (now : ℕ) (o : Option ApiKey) (w : World) → Steps w.api_keys (keys (verified now o w))
unfolding verified
verified-Steps now none w = done w.api_keys
verified-Steps now (some k) w = one (touches k.id now w.api_keys)

matching-Steps :
    (b : Bcrypt) (raw_key : Text) (now : ℕ) (o : Option Text) (w : World)
    → Steps w.api_keys (keys (matching b raw_key now o w))
unfolding matching
matching-Steps b raw_key now none w = done w.api_keys
matching-Steps b raw_key now (some p) w = verified-Steps now (find_match b raw_key p w.api_keys) w

revoke_row-Steps :
    (now : ℕ) (o : Option ApiKey) (w : World) → Steps w.api_keys (keys (revoke_row now o w))
revoke_row-Steps now none w = done w.api_keys
revoke_row-Steps now (some k) w = one (revokes_row k.id now w.api_keys)

in_transaction-Steps :
    (js : List ApiKey) (w : World) (r : Result ApiKey × World)
    → Steps js w.api_keys
    → Steps js (keys r)
    → Steps js (keys (in_transaction (λ _. r) w))
in_transaction-Steps js w (ok k, v) h s = s
in_transaction-Steps js w (err e, v) h s = h

replace_key-Steps :
    (now : ℕ) (old k : ApiKey) (w : World) → Steps w.api_keys (keys (replace_key now old k w))
unfolding replace_key
replace_key-Steps now old k w =
    let ks : List ApiKey = update_by (λ j. j.id) old.id (revoked now) w.api_keys in
    in_transaction-Steps w.api_keys w (create_key k (record w { api_keys = ks })) (done w.api_keys)
      (then_steps (revokes_row old.id now w.api_keys)
        (create_key-Steps k (record w { api_keys = ks })))

key_or_throw-replace_key-Steps :
    (now : ℕ) (old : ApiKey) (o : Option ApiKey) (f : ApiKey → Option GenerateKeyResult) (w : World)
    → Steps w.api_keys
        (keys ((do k ← key_or_throw o; created ← replace_key now old k; return (f created)) w))
key_or_throw-replace_key-Steps now old none f w = done w.api_keys
key_or_throw-replace_key-Steps now old (some k) f w =
    bind_result-Steps w.api_keys (replace_key now old k w) f (replace_key-Steps now old k w)

rotate_rows-Steps :
    (b : Bcrypt) (name : String) (i : KeyInput) (old active : Option ApiKey) (w : World)
    → Steps w.api_keys (keys (rotate_rows b name i old active w))
unfolding rotate_rows
rotate_rows-Steps b name i none active w = done w.api_keys
rotate_rows-Steps b name i (some old) none w = done w.api_keys
rotate_rows-Steps b name i (some old) (some active) w = elim (Bool-cases old.active) [
  | inl t ↦ rw t (
      key_or_throw-replace_key-Steps i.now active (new_key b old.business_id name old.environment i)
        (λ k.
          some (record { raw_key = generate_api_key old.environment i.token; key = stripped k }))
        w)
  | inr f ↦ rw f (done w.api_keys)
]

pub run-Steps : (b : Bcrypt) (o : Op) (w : World) → Steps w.api_keys (run b o w).api_keys
unfolding verify revoke rotate
run-Steps b (generates business_id name e i) w = generate-Steps b business_id name e i w
run-Steps b (verifies raw_key now) w = matching-Steps b raw_key now _ w
run-Steps b (revokes public_id business_id now) w = revoke_row-Steps now _ w
run-Steps b (rotates public_id business_id name i) w = rotate_rows-Steps b name i _ _ w
