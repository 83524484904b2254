-- ===== src/Pages.antt =====
-- Lists by page: `findAll` and the cursor's codec of src/modules/payments/payments.repository.ts,
-- and `listDeliveries` of
-- src/modules/webhooks/webhook-delivery.service.ts.
pub mod Order
pub mod Walk
use hypertron_api.Prelude.{
  ℕ, ◌+◌, String, List, [], ◌∷◌, Option, none, some, Bool, true, false, ◌&&◌, ◌||◌, ◌==◌, ltb,
  str_eq, length, take, if◌then◌else◌,
}
use hypertron_api.Prelude.Text.{Text}
use hypertron_api.Store.Tables.{
  Environment, DeliveryStatus, Payment, WebhookEndpoint, WebhookDelivery,
}
use hypertron_api.Store.Effects.{World, resource_missing, ok, err, M}
use hypertron_api.Payments.Create.{env_eq}
use hypertron_api.Webhooks.Attempts.{delivery_eq, find_endpoint}

pub record Cursor : Type 0 where
  pub created_at : ℕ
  pub id : String

-- A page, with the cursor after it, `none` where `hasMore` is false.
pub record CursorPage {ℓ} (A : Type ℓ) : Type ℓ where
  pub data_rows : List A
  pub has_more : Bool
  pub next_cursor : Option Text

-- The runtime's part of the codec: the text of a date and the reading of one, JSON of an object
-- with the texts `t` and `id` (a property that is missing is the empty text, and `none` is a throw),
-- and base64url. A cursor's id is a text in JSON and a string in the table.
pub record Runtime : Type 0 where
  pub to_iso_string : ℕ → Text
  pub date : Text → ℕ
  pub stringify : Text × Text → Text
  pub parse : Text → Option (Text × Text)
  pub to_base64url : Text → Text
  pub from_base64url : Text → Text
  pub id_text : String → Text
  pub id_of : Text → String

module _ (r : Runtime) where
  unfoldable pub encode_cursor : ℕ → String → Text
  encode_cursor created_at id =
      r.to_base64url (r.stringify (r.to_iso_string created_at, r.id_text id))

  abbrev cursor_of : Option (Text × Text) → Option Cursor
  cursor_of none = none
  cursor_of (some ([], id)) = none
  cursor_of (some (t ∷ ts, [])) = none
  cursor_of (some (t ∷ ts, c ∷ cs)) =
      some (record { created_at = r.date (t ∷ ts); id = r.id_of (c ∷ cs) })

  unfoldable pub decode_cursor : Text → Option Cursor
  decode_cursor cursor = cursor_of (r.parse (r.from_base64url cursor))

-- `id_lt` is the order that the database has on ids.
module _ {ℓ} {A : Type ℓ} (id_lt : String → String → Bool) (key : A → Cursor) where
  -- `createdAt < c.createdAt or createdAt = c.createdAt and id < c.id`.
  abbrev pub precedes : Cursor → Cursor → Bool
  precedes a c = ltb a.created_at c.created_at || (a.created_at == c.created_at && id_lt a.id c.id)

  abbrev pub after_cursor : Option Cursor → A → Bool
  after_cursor none a = true
  after_cursor (some c) a = precedes (key a) c

  unfoldable pub where_rows : (A → Bool) → List A → List A
  where_rows p [] = []
  where_rows p (x ∷ xs) = let rest = where_rows p xs in if p x then x ∷ rest else rest

  -- `orderBy: [{ createdAt: 'desc' }, { id: 'desc' }]`.
  unfoldable pub insert_row : A → List A → List A
  insert_row x [] = x ∷ []
  insert_row x (y ∷ ys) =
      let rest = insert_row x ys in if precedes (key y) (key x) then x ∷ y ∷ ys else y ∷ rest

  unfoldable pub order_rows : List A → List A
  unfolding insert_row
  order_rows [] = []
  order_rows (x ∷ xs) = insert_row x (order_rows xs)

  -- `findMany` with a filter, a cursor, the order and `take`.
  unfoldable pub find_many : (A → Bool) → Option Cursor → ℕ → List A → List A
  unfolding where_rows order_rows
  find_many p c n xs = take n (order_rows (where_rows (λ a. p a && after_cursor c a) xs))

  unfoldable pub last_row : List A → Option A
  last_row [] = none
  last_row (x ∷ []) = some x
  last_row (x ∷ y ∷ ys) = last_row (y ∷ ys)

  module _ (r : Runtime) where
    abbrev encoded : Option A → Option Text
    encoded none = none
    encoded (some a) = some (encode_cursor r (key a).created_at (key a).id)

    -- The rows that were read, one more than the limit if there are so many.
    unfoldable pub page_of : ℕ → List A → CursorPage A
    unfolding last_row
    page_of limit rows =
        let has_more = ltb limit (length rows) in
        let page = if has_more then take limit rows else rows in
        record {
          data_rows = page;
          has_more = has_more;
          next_cursor = if has_more then encoded (last_row page) else none;
        }

    unfoldable pub find_all : (A → Bool) → ℕ → Option Cursor → List A → CursorPage A
    unfolding find_many page_of
    find_all p limit c xs = page_of limit (find_many p c (limit + 1) xs)

abbrev pub payment_key : Payment → Cursor
payment_key p = record { created_at = p.created_at; id = p.id }

abbrev pub delivery_key : WebhookDelivery → Cursor
delivery_key d = record { created_at = d.created_at; id = d.id }

abbrev pub is_of : String → Environment → Payment → Bool
is_of business_id e p = str_eq p.business_id business_id && env_eq p.environment e

-- A cursor that does not decode is no cursor, as is a missing or empty one.
abbrev pub cursor_param : Runtime → Option Text → Option Cursor
cursor_param r none = none
cursor_param r (some []) = none
cursor_param r (some (c ∷ cs)) = decode_cursor r (c ∷ cs)

module _ (id_lt : String → String → Bool) (r : Runtime) where
  -- `PaymentsService.findAll`, where a missing limit is 25.
  unfoldable pub list_payments :
      String → Environment → Option ℕ → Option Text → List Payment → CursorPage Payment
  unfolding find_all
  list_payments business_id e limit cursor ps =
      find_all id_lt payment_key r (is_of business_id e) (elim limit [ none ↦ 25 | some n ↦ n ])
        (cursor_param r cursor) ps

  abbrev has_status : Option DeliveryStatus → DeliveryStatus → Bool
  has_status none s = true
  has_status (some t) s = delivery_eq s t

  abbrev is_delivery_to : WebhookEndpoint → String → Option DeliveryStatus → WebhookDelivery → Bool
  is_delivery_to p business_id status d =
      str_eq d.endpoint_id p.id && str_eq d.business_id business_id && has_status status d.status

  unfoldable pub list_deliveries :
      String
      → String
      → ℕ
      → Option Text
      → Option DeliveryStatus
      → M (WebhookEndpoint × CursorPage WebhookDelivery)
  unfolding find_all
  list_deliveries endpoint_id business_id limit cursor status w =
      elim (find_endpoint endpoint_id business_id w.endpoints) [
        | none ↦ (err (resource_missing "webhook_endpoint"), w)
        | some p ↦ (
          ok (
            p,
            find_all id_lt delivery_key r (is_delivery_to p business_id status) limit
                (cursor_param r cursor) w.deliveries,
          ),
          w,
        )
      ]
