-- ===== src/Webhooks/Attempts/Bounds.antt =====
-- How far the attempt count of a delivery goes.
use hypertron_api.Prelude.{
  ℕ, ◌+◌, String, List, [], ◌∷◌, ◌++◌, Option, none, some, Bool, true, leb, all, ◌≡◌, refl, arith,
  ◌∙◌, Option-cases, Bool-cases, inl, inr, if◌then◌else◌,
}
use hypertron_api.Prelude.Text.{codes}
use hypertron_api.Store.Tables.{PaymentEvent, pending, delivered, WebhookEndpoint, WebhookDelivery}
use hypertron_api.Store.Effects.{World, Result, ok, err, M, find_by, update_by, bind_result, return}
use hypertron_api.Payments.Events.{Queue}
use hypertron_api.Webhooks.Schedule.{retry_delay_ms_iff}
use hypertron_api.Webhooks.Delivery.{
  AttemptResult, DeliveryOutcome, Ids, enqueue_attempt, enqueue_new, new_delivery, create_delivery,
  deliver_each, enqueue_deliveries, fanout_event, subscribed,
}
use hypertron_api.Webhooks.Attempts.{
  delivery_eq, AttemptInput, succeeded, given_up, rescheduled, marked_failed, reset, write_delivery,
  delay_after, after_failure, after_send, attempt_row, to_endpoint, attempt_delivery, retry_row,
  retry_at, retry_delivery, find_endpoint, find_own_delivery, find_delivery,
}

-- The attempt count of a delivery that is pending is six at most, and of any other one seven.
abbrev pub is_valid : WebhookDelivery → Bool
is_valid d = leb d.attempt_count (if delivery_eq d.status pending then 6 else 7)

abbrev pub IsBounded : World → Type 0
IsBounded w = all is_valid w.deliveries ≡ true

all-append :
    (d : WebhookDelivery) (ds : List WebhookDelivery)
    → all is_valid ds ≡ true
    → is_valid d ≡ true
    → all is_valid (ds ++ d ∷ []) ≡ true
all-append d [] h v = ground arith
all-append d (q ∷ qs) h v = ground (arith, all-append d qs)

all-update_by :
    (k : String) (d : WebhookDelivery) (ds : List WebhookDelivery)
    → all is_valid ds ≡ true
    → is_valid d ≡ true
    → all is_valid (update_by (λ q. q.id) k (λ _. d) ds) ≡ true
unfolding update_by
all-update_by k d [] h v = refl
all-update_by k d (q ∷ qs) h v = ground (arith, all-update_by k d qs)

all-find_by :
    (k : String) (d : WebhookDelivery) (ds : List WebhookDelivery)
    → all is_valid ds ≡ true
    → find_by (λ q. q.id) k ds ≡ some d
    → is_valid d ≡ true
unfolding find_by
all-find_by k d [] h e = ground arith
all-find_by k d (q ∷ qs) h e = ground (arith, all-find_by k d qs)

all-find_own :
    (k b e : String) (d : WebhookDelivery) (ds : List WebhookDelivery)
    → all is_valid ds ≡ true
    → find_own_delivery k b e ds ≡ some d
    → is_valid d ≡ true
unfolding find_own_delivery
all-find_own k b e d [] h f = ground arith
all-find_own k b e d (q ∷ qs) h f = ground (arith, all-find_own k b e d qs)

enqueue-deliveries :
    (q : Queue) (d : WebhookDelivery) (delay : ℕ) (s : Option String) (w : World)
    → (enqueue_attempt q d delay s w).1.deliveries ≡ w.deliveries
unfolding enqueue_attempt
enqueue-deliveries Queue.absent d delay s w = refl
enqueue-deliveries Queue.up d delay s w = refl
enqueue-deliveries Queue.down d delay s w = refl

then_return-deliveries :
    {A : Type 0} (a : A) (r : Result (Unit {0}) × World)
    → (bind_result r (λ _ w. (ok a, w))).1.deliveries ≡ r.1.deliveries
then_return-deliveries a (ok x, w) = refl
then_return-deliveries a (err e, w) = refl

write-IsBounded :
    (d : WebhookDelivery) (w : World)
    → is_valid d ≡ true
    → IsBounded w
    → IsBounded (write_delivery d w).1
unfolding write_delivery
write-IsBounded d w v h = all-update_by d.id d w.deliveries h v

-- A row is written, an attempt is enqueued, and a value is returned.
rewritten-IsBounded :
    {A : Type 0} (a : A) (q : Queue) (d : WebhookDelivery) (delay : ℕ) (s : Option String)
    (w : World)
    → is_valid d ≡ true
    → IsBounded w
    → IsBounded
        (bind_result (enqueue_attempt q d delay s (write_delivery d w).1) (λ _ w'. (ok a, w'))).1
rewritten-IsBounded a q d delay s w v h =
    rw
      (then_return-deliveries a (enqueue_attempt q d delay s (write_delivery d w).1)
        ∙ enqueue-deliveries q d delay s (write_delivery d w).1)
      (write-IsBounded d w v h)

after_failure-IsBounded :
    (i : AttemptInput) (d : WebhookDelivery) (r : AttemptResult) (o : Option ℕ) (w : World)
    → leb d.attempt_count 6 ≡ true
    → ((delay : ℕ) → o ≡ some delay → leb d.attempt_count 5 ≡ true)
    → IsBounded w
    → IsBounded (after_failure i d r o w).1
unfolding after_failure write_delivery
after_failure-IsBounded i d r none w v k h = write-IsBounded (given_up i.now r d) w (ground arith) h
after_failure-IsBounded i d r (some delay) w v k h =
    let v' : leb d.attempt_count 5 ≡ true = k delay refl in
    rewritten-IsBounded DeliveryOutcome.retry_scheduled i.queue (rescheduled i.now delay r d) delay
      none w (ground arith) h

after_send-IsBounded :
    (i : AttemptInput) (d : WebhookDelivery) (r : AttemptResult) (w : World)
    → leb d.attempt_count 6 ≡ true
    → IsBounded w
    → IsBounded (after_send i d r w).1
unfolding after_send write_delivery
after_send-IsBounded i d r w v h = elim (Bool-cases r.ok) [
  | inl t ↦ rw t (write-IsBounded (succeeded i.now r d) w (ground arith) h)
  | inr f ↦ rw f (
      after_failure-IsBounded i d r (delay_after d r) w v
        (λ delay e. ground (arith, e, (retry_delay_ms_iff (d.attempt_count + 1)).1)) h)
]

to_endpoint-IsBounded :
    (i : AttemptInput) (d : WebhookDelivery) (e : Option PaymentEvent) (p : Option WebhookEndpoint)
    (w : World)
    → leb d.attempt_count 6 ≡ true
    → IsBounded w
    → IsBounded (to_endpoint i d e p w).1
unfolding to_endpoint write_delivery
to_endpoint-IsBounded i d e none w v h =
    write-IsBounded (marked_failed i.now (codes "Endpoint is inactive or no longer exists") d) w
      (ground arith) h
to_endpoint-IsBounded i d none (some p) w v h =
    write-IsBounded (marked_failed i.now (codes "Source event no longer exists") d) w (ground arith)
      h
to_endpoint-IsBounded i d (some e) (some p) w v h = after_send-IsBounded i d (i.send p e) w v h

attempt_row-IsBounded :
    (i : AttemptInput) (o : Option WebhookDelivery) (w : World)
    → ((d : WebhookDelivery) → o ≡ some d → is_valid d ≡ true)
    → IsBounded w
    → IsBounded (attempt_row i o w).1
unfolding attempt_row
attempt_row-IsBounded i none w v h = h
attempt_row-IsBounded i (some d) w v h = elim (Bool-cases (delivery_eq d.status pending)) [
  | inr f ↦ rw f h
  | inl t ↦ rw t (to_endpoint-IsBounded i d _ _ w (ground (arith, t, v d refl)) h)
]

attempt_delivery-IsBounded :
    (id : String) (i : AttemptInput) (w : World)
    → IsBounded w
    → IsBounded (attempt_delivery id i w).1
unfolding attempt_delivery
attempt_delivery-IsBounded id i w h =
    attempt_row-IsBounded i (find_delivery id w) w (λ d e. all-find_by id d w.deliveries h e) h

retry_row-IsBounded :
    (q : Queue) (now : ℕ) (o : Option WebhookDelivery) (w : World)
    → IsBounded w
    → IsBounded (retry_row q now o w).1
unfolding retry_row write_delivery
retry_row-IsBounded q now none w h = h
retry_row-IsBounded q now (some d) w h = elim (Bool-cases (delivery_eq d.status delivered)) [
  | inl t ↦ rw t h
  | inr f ↦ rw f (rewritten-IsBounded (reset now d) q (reset now d) 0 _ w (ground arith) h)
]

retry_delivery-IsBounded :
    (endpoint_id public_id business_id : String) (now : ℕ) (q : Queue) (w : World)
    → IsBounded w
    → IsBounded (retry_delivery endpoint_id public_id business_id now q w).1
unfolding retry_delivery retry_at
retry_delivery-IsBounded endpoint_id public_id business_id now q w h =
    retry_at-IsBounded (find_endpoint endpoint_id business_id w.endpoints)
  where
    retry_at-IsBounded :
        (o : Option WebhookEndpoint) → IsBounded (retry_at q now public_id business_id o w).1
    retry_at-IsBounded none = h
    retry_at-IsBounded (some p) = retry_row-IsBounded q now _ w h

create-IsBounded :
    (e : PaymentEvent) (p : WebhookEndpoint) (ids : Ids) (now : ℕ) (w : World)
    → IsBounded w
    → IsBounded (create_delivery (new_delivery e p ids now) w).1
unfolding create_delivery
create-IsBounded e p ids now w h =
    ground (arith, all-append (new_delivery e p ids now) w.deliveries h)

enqueue_new-deliveries :
    (q : Queue) (o : Option WebhookDelivery) (w : World)
    → (enqueue_new q o w).1.deliveries ≡ w.deliveries
enqueue_new-deliveries q none w = refl
enqueue_new-deliveries q (some d) w =
    then_return-deliveries 1 (enqueue_attempt q d 0 none w) ∙ enqueue-deliveries q d 0 none w

bind-IsBounded :
    {A B : Type 0} (r : Result A × World) (f : A → M B)
    → IsBounded r.1
    → ((a : A) → IsBounded (f a r.1).1)
    → IsBounded (bind_result r f).1
bind-IsBounded (ok a, w) f h k = k a
bind-IsBounded (err e, w) f h k = h

deliver_each-IsBounded :
    (q : Queue) (e : PaymentEvent) (ids : WebhookEndpoint → Ids) (now : ℕ)
    (ps : List WebhookEndpoint) (w : World)
    → IsBounded w
    → IsBounded (deliver_each q e ids now ps w).1
unfolding deliver_each
deliver_each-IsBounded q e ids now [] w h = h
deliver_each-IsBounded q e ids now (p ∷ ps) w h =
    let made : Result (Option WebhookDelivery) × World =
      create_delivery (new_delivery e p (ids p) now) w in
    let made-IsBounded : IsBounded made.1 = create-IsBounded e p (ids p) now w h in
    bind-IsBounded made _ made-IsBounded (λ d.
      let queued-IsBounded : IsBounded (enqueue_new q d made.1).1 =
        rw (enqueue_new-deliveries q d made.1) made-IsBounded in
      bind-IsBounded (enqueue_new q d made.1) _ queued-IsBounded (λ n.
        bind-IsBounded (deliver_each q e ids now ps (enqueue_new q d made.1).1)
          (λ k. return (n + k)) (deliver_each-IsBounded q e ids now ps _ queued-IsBounded)
          (λ k. deliver_each-IsBounded q e ids now ps _ queued-IsBounded)))

fanout_event-IsBounded :
    (q : Queue) (id : String) (ids : WebhookEndpoint → Ids) (now : ℕ) (w : World)
    → IsBounded w
    → IsBounded (fanout_event q id ids now w).1
unfolding fanout_event enqueue_deliveries
fanout_event-IsBounded q id ids now w h = elim (Option-cases (find_by (λ e. e.id) id w.events)) [
  | inl n ↦ rw (fanout_event, n) h
  | inr (e, f) ↦
      rw (fanout_event, f) (deliver_each-IsBounded q e ids now (subscribed e w.endpoints) w h)
]

-- The operations that write deliveries.
pub data Move : Type 0 where
  fan_out : Queue → (event_id : String) → (WebhookEndpoint → Ids) → (now : ℕ) → Move
  attempt : (delivery_id : String) → AttemptInput → Move
  retry : (endpoint_id delivery_id business_id : String) → (now : ℕ) → Queue → Move

unfoldable pub run : List Move → World → World
run [] w = w
run (fan_out q id ids now ∷ ms) w = run ms (fanout_event q id ids now w).1
run (attempt id i ∷ ms) w = run ms (attempt_delivery id i w).1
run (retry p d b now q ∷ ms) w = run ms (retry_delivery p d b now q w).1

-- Whatever fan-outs, attempts and manual retries run, in any order, and whatever the endpoints and
-- the queue answer: if at the start the attempt count of every pending delivery is six at most, and
-- of any other one seven, that holds afterwards. The count is the field `attempt_count`, which a
-- manual retry sets back to zero: attempts made before such a retry are not in it.
pub run-IsBounded : (ms : List Move) (w : World) → IsBounded w → IsBounded (run ms w)
unfolding run
run-IsBounded [] w h = h
run-IsBounded (fan_out q id ids now ∷ ms) w h =
    run-IsBounded ms _ (fanout_event-IsBounded q id ids now w h)
run-IsBounded (attempt id i ∷ ms) w h = run-IsBounded ms _ (attempt_delivery-IsBounded id i w h)
run-IsBounded (retry p d b now q ∷ ms) w h =
    run-IsBounded ms _ (retry_delivery-IsBounded p d b now q w h)
