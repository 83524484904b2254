-- ===== src/Idempotency/Keys.antt =====
-- The life of an idempotency key: new, in flight, complete.
use hypertron_api.Prelude.{
  ℕ, ◌≤◌, String, List, [], ◌∷◌, ◌++◌, Option, none, some, true, false, not, ◌==◌, str_eq, eq_iff,
  any, length, ◌≡◌, ◌↔◌, refl, arith, ap, if◌then◌else◌,
}
use hypertron_api.Prelude.Text.{Text, text_eq_refl}
use hypertron_api.Store.Tables.{IdempotencyRecord, PaymentResponse}
use hypertron_api.Store.Effects.{World, idempotency, ok, err}
use hypertron_api.Idempotency.{
  Scope, in_scope, find_record, found, check, new_record, reserve, update_record, complete,
  validate_key,
}

in_scope-new : (s : Scope) (hash : String) (now : ℕ) → in_scope s (new_record s hash now) ≡ true
in_scope-new s hash now = ground (
  arith,
  eq_iff s.business_id s.business_id,
  eq_iff s.api_key_id s.api_key_id,
  text_eq_refl s.key,
)

find_record-append :
    (s : Scope) (rs : List IdempotencyRecord) (r : IdempotencyRecord)
    → find_record s rs ≡ none
    → in_scope s r ≡ true
    → find_record s (rs ++ r ∷ []) ≡ some r
unfolding find_record
find_record-append s [] r n h = rw (h, find_record)
find_record-append s (q ∷ rs) r n h = ground (arith, find_record-append s rs r)

find_record-any :
    (s : Scope) (rs : List IdempotencyRecord)
    → find_record s rs ≡ none
    → any (in_scope s) rs ≡ false
unfolding find_record
find_record-any s [] n = refl
find_record-any s (q ∷ rs) n = ground (arith, find_record-any s rs)

find_record-update :
    (s : Scope) (status : ℕ) (body : Option PaymentResponse) (rs : List IdempotencyRecord)
    → find_record s (update_record s status body rs) ≡ elim (find_record s rs) [
      | none ↦ none
      | some r ↦ some (record r { response_status = status; response_body = body })
    ]
unfolding find_record update_record
find_record-update s status body [] = refl
find_record-update s status body (q ∷ rs) = ground (arith, find_record-update s status body rs)

-- A key that is not in the table is reserved: the row is in flight, holds the hash of the request
-- and a day as its time to live, and a check that follows is refused, for the same request as in
-- flight and for another as reused.
pub reserve-check :
    (s : Scope) (hash other : String) (now : ℕ) (w : World)
    → find_record s w.idempotency_records ≡ none
    → ((reserve s hash now w).0 ≡ ok tt)
      × (find_record s (reserve s hash now w).1.idempotency_records ≡ some (new_record s hash now))
      × ((check s other (reserve s hash now w).1).0
          ≡ err (
              idempotency (
                if str_eq hash other
                then "idempotency_key_in_flight"
                else "idempotency_key_reused")))
unfolding reserve check
reserve-check s hash other now w n = ground (
  arith,
  find_record-any s w.idempotency_records n,
  in_scope-new s hash now,
  find_record-append s w.idempotency_records (new_record s hash now) n (in_scope-new s hash now),
)

-- A key that is in the table and completed with a status other than 0 answers the stored body to
-- the same request and refuses another one; completed with 0 it is in flight again.
pub complete-check :
    (s : Scope) (hash : String) (status : ℕ) (body : Option PaymentResponse) (w : World)
    (r : IdempotencyRecord)
    → find_record s w.idempotency_records ≡ some r
    → (check s hash (complete s status body w).1).0 ≡ (
        if not (str_eq r.request_hash hash)
        then err (idempotency "idempotency_key_reused")
        else if status == 0
        then err (idempotency "idempotency_key_in_flight")
        else ok (found body))
unfolding complete check
complete-check s hash status body w r h =
    ground (arith, h, find_record-update s status body w.idempotency_records)

length_ap : (s t : Text) → s ≡ t → length s ≡ length t
length_ap s t e = ap length e

-- A header is accepted exactly when it is there and has 1 to 255 characters, and is then returned
-- as it is.
pub validate_key_iff :
    (o : Option Text) (key : Text)
    → (validate_key o ≡ ok key) ↔ ((o ≡ some key) × (1 ≤ length key) × (length key ≤ 255))
unfolding validate_key
validate_key_iff none key = ground arith
validate_key_iff (some k) key = ground (arith, length_ap k key)
