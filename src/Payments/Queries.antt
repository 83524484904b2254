-- ===== src/Payments/Queries.antt =====
-- Reading the events of a payment: findEvents of src/modules/payments/payments.service.ts and
-- findByPayment of src/modules/events/events.service.ts.
use hypertron_api.Prelude.{
  ◌&&◌, leb, String, List, [], ◌∷◌, Option, none, some, Bool, str_eq, filter, if◌then◌else◌,
}
use hypertron_api.Store.Tables.{Payment, PaymentEvent}
use hypertron_api.Store.Effects.{resource_missing, ok, err, M}
use hypertron_api.Payments.Service.{MerchantContext}
use hypertron_api.Payments.Create.{find_by_public_id}

-- `orderBy: { createdAt: 'asc' }`; events of one date stay in the order of the table.
unfoldable pub insert_event : PaymentEvent → List PaymentEvent → List PaymentEvent
insert_event e [] = e ∷ []
insert_event e (f ∷ fs) =
    let rest = insert_event e fs in if leb e.created_at f.created_at then e ∷ f ∷ fs else f ∷ rest

unfoldable pub order_events : List PaymentEvent → List PaymentEvent
unfolding insert_event
order_events [] = []
order_events (e ∷ es) = insert_event e (order_events es)

-- `findFirst` by public id and merchant, in any environment.
unfoldable pub find_payment_of : String → String → List Payment → Option Payment
find_payment_of public_id business_id [] = none
find_payment_of public_id business_id (p ∷ ps) =
    let rest = find_payment_of public_id business_id ps in
    if str_eq p.public_id public_id && str_eq p.business_id business_id then some p else rest

abbrev is_event_of : String → String → PaymentEvent → Bool
is_event_of payment_id business_id e =
    str_eq e.payment_id payment_id && str_eq e.business_id business_id

abbrev events_of : String → Option Payment → M (List PaymentEvent)
events_of business_id none w = (ok [], w)
events_of business_id (some p) w =
    (ok (order_events (filter (is_event_of p.id business_id) w.events)), w)

unfoldable pub find_by_payment : String → String → M (List PaymentEvent)
unfolding find_payment_of order_events
find_by_payment public_id business_id w =
    events_of business_id (find_payment_of public_id business_id w.payments) w

abbrev found : String → MerchantContext → Option Payment → M (List PaymentEvent)
found id merchant none w = (err (resource_missing "payment"), w)
found id merchant (some p) w = find_by_payment id merchant.business_id w

unfoldable pub find_events : String → MerchantContext → M (List PaymentEvent)
unfolding find_by_payment find_by_public_id
find_events id merchant w = found id merchant (find_by_public_id id merchant w.payments) w
