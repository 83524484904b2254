-- ===== src/Webhooks/Delivery/Replay.antt =====
-- A fan-out that runs again.
use hypertron_api.Prelude.{ℕ, List, [], ◌∷◌, Bool, true, all, any, ◌≡◌, refl, arith}
use hypertron_api.Store.Tables.{PaymentEvent, WebhookEndpoint}
use hypertron_api.Store.Effects.{World, ok}
use hypertron_api.Payments.Events.{Queue}
use hypertron_api.Webhooks.Delivery.{
  Ids, is_delivery_of, create_delivery, subscribed, deliver_each, enqueue_deliveries,
}

-- The endpoint has a delivery of the event.
abbrev pub has_delivery : PaymentEvent → World → WebhookEndpoint → Bool
has_delivery e w p = any (is_delivery_of p.id e.public_id) w.deliveries

deliver_each_taken :
    (q : Queue) (e : PaymentEvent) (ids : WebhookEndpoint → Ids) (now : ℕ) (w : World)
    (ps : List WebhookEndpoint)
    → all (has_delivery e w) ps ≡ true
    → deliver_each q e ids now ps w ≡ (ok 0, w)
unfolding deliver_each create_delivery
deliver_each_taken q e ids now w [] h = refl
deliver_each_taken q e ids now w (p ∷ ps) h = ground (arith, deliver_each_taken q e ids now w ps)

-- A fan-out of an event for which every subscribed endpoint has a delivery already makes none and
-- changes nothing: it enqueues no attempt, whether or not the run that made a delivery had enqueued
-- one.
pub enqueue_deliveries_taken :
    (q : Queue) (e : PaymentEvent) (ids : WebhookEndpoint → Ids) (now : ℕ) (w : World)
    → all (has_delivery e w) (subscribed e w.endpoints) ≡ true
    → enqueue_deliveries q e ids now w ≡ (ok 0, w)
unfolding enqueue_deliveries
enqueue_deliveries_taken q e ids now w h =
    deliver_each_taken q e ids now w (subscribed e w.endpoints) h
