-- ===== src/Webhooks/Endpoints/Calls.antt =====
-- Every call of a merchant adds, rewrites or deletes one endpoint at most, and that is the merchant's.
use mathlib.Core.Path.{subst}
use hypertron_api.Prelude.{
  count, eq_iff, ◌&&◌, ◌≤◌, ℕ, String, List, [], ◌∷◌, ◌++◌, Option, none, some, true, false, ◌≡◌,
  ◌≢◌, inl, inr, refl, ap, arith, any, str_eq, Bool-cases,
}
use hypertron_api.Prelude.Text.{Text}
use hypertron_api.Store.Tables.{Environment, PaymentStatus, WebhookEndpoint}
use hypertron_api.Store.Effects.{ok}
use hypertron_api.Store.Rows.{has_key, IsAt, IsAt-cons, count-IsAt}
use hypertron_api.Webhooks.Attempts.{find_endpoint}
use hypertron_api.Webhooks.Endpoints.{
  Url, CreateEndpointInput, UpdateEndpointInput, EndpointDraw, allowed_url, validate_url,
  validate_events, same_ids, checked_url, some_events, known_events, unique_from,
}

pub data Op : Type 0 where
  creates : CreateEndpointInput → EndpointDraw → Op
  updates : (public_id : String) → UpdateEndpointInput → ℕ → Op
  rotates : (public_id : String) → EndpointDraw → Op
  removes : (public_id : String) → Op

module _ (parse_url : Text → Option Url) where
  -- The URL is one that the runtime has parsed and the environment allows.
  abbrev pub IsAllowed : Environment → Text → Type 0
  IsAllowed e url =
      (raw_url : Text) × (u : Url) × (parse_url raw_url ≡ some u)
      × (allowed_url e u ≡ true)
      × (url ≡ u.text)

  pub record IsValid (p : WebhookEndpoint) : Type 0 where
    pub url : IsAllowed p.environment p.url
    pub events : p.events ≢ []

  module _ (b : String) where
    pub data Step : List WebhookEndpoint → List WebhookEndpoint → Type 0 where
      adds :
          (p : WebhookEndpoint) (ps : List WebhookEndpoint)
          → any (same_ids p) ps ≡ false
          → p.business_id ≡ b
          → IsValid p
          → Step ps (ps ++ p ∷ [])
      rewrites :
          (pre post : List WebhookEndpoint) (p q : WebhookEndpoint)
          → p.business_id ≡ b
          → q.business_id ≡ b
          → q.id ≡ p.id
          → (IsValid p → IsValid q)
          → Step (pre ++ p ∷ post) (pre ++ q ∷ post)
      deletes :
          (pre post : List WebhookEndpoint) (p : WebhookEndpoint)
          → p.business_id ≡ b
          → Step (pre ++ p ∷ post) (pre ++ post)
      stays : (ps : List WebhookEndpoint) → Step ps ps

  pub validate_url-IsAllowed :
      (raw_url : Text) (e : Environment) {url : Text}
      → validate_url parse_url raw_url e ≡ ok url
      → IsAllowed e url
  unfolding validate_url
  validate_url-IsAllowed raw_url e {url} h = parsed (parse_url raw_url) refl h
    where
      parsed : (o : Option Url) → parse_url raw_url ≡ o → checked_url e o ≡ ok url → IsAllowed e url
      parsed none k h = absurd (let e : false ≡ true = ground arith in cc)
      parsed (some u) k h = elim (Bool-cases (allowed_url e u)) [
        | inl t ↦ (raw_url, u, k, t, ground (arith, t))
        | inr f ↦ absurd (let e : false ≡ true = ground (arith, f) in cc)
      ]

pub validate_events-not_nil :
    (events : List Text) {es : List PaymentStatus} → validate_events events ≡ ok es → es ≢ []
unfolding validate_events
validate_events-not_nil events {es} h = given (known_events (unique_from [] events)) h
  where
    given : (o : Option (List PaymentStatus)) → some_events o ≡ ok es → es ≢ []
    given none h e = absurd (let e : false ≡ true = ground arith in cc)
    given (some []) h e = absurd (let e : false ≡ true = ground arith in cc)
    given (some (s ∷ ss)) h e = absurd (let e : false ≡ true = ground arith in cc)

abbrev pub row_id : WebhookEndpoint → String
row_id p = p.id

pub find_endpoint-IsAt :
    (public_id b : String) (ps : List WebhookEndpoint) {p : WebhookEndpoint}
    → find_endpoint public_id b ps ≡ some p
    → count (has_key row_id p.id) ps ≤ 1
    → (p.business_id ≡ b) × IsAt row_id p ps
unfolding find_endpoint
find_endpoint-IsAt public_id b [] h u = absurd (let e : false ≡ true = ground arith in cc)
find_endpoint-IsAt public_id b (q ∷ ps) {p} h u =
    elim (Bool-cases (str_eq q.public_id public_id && str_eq q.business_id b)) [
      | inl t ↦
          let e : q ≡ p = ground (arith, t) in
          subst (λ (x : WebhookEndpoint). (x.business_id ≡ b) × IsAt row_id x (q ∷ ps)) e
            (
              ground (arith, t, eq_iff q.business_id b),
              record {
                pre = [];
                post = ps;
                split = refl;
                before = refl;
                after = rw e (ground (arith, u, e, eq_iff q.id p.id, ap row_id e));
              },
            )
      | inr f ↦
          let (m, s) =
            find_endpoint-IsAt public_id b ps {p = p} (ground (arith, f)) (ground (arith, u)) in
          (m, IsAt-cons row_id p q ps (ground (arith, u, count-IsAt row_id p ps s)) s)
    ]
