-- ===== src/Webhooks/Endpoints/Runs.antt =====
-- The calls as steps.
use mathlib.Core.Path.{subst}
use hypertron_api.Prelude.{
  ℕ, String, List, [], ◌∷◌, ◌++◌, Option, none, some, Bool, true, false, ◌≡◌, ◌≢◌, inl, inr, refl,
  sym, ◌∙◌, arith, any, Bool-cases,
}
use hypertron_api.Prelude.Text.{Text}
use hypertron_api.Store.Tables.{Environment, PaymentStatus, WebhookEndpoint}
use hypertron_api.Store.Effects.{World, Result, ok, err, M, ◌>>=◌, return, bind_result}
use hypertron_api.Store.Rows.{Unique, IsAt, update_by-IsAt, filter-IsAt}
use hypertron_api.Crypto.{Primitives}
use hypertron_api.Errors.{or_else}
use hypertron_api.Webhooks.Signer.{encrypt}
use hypertron_api.Webhooks.Attempts.{find_endpoint}
use hypertron_api.Webhooks.Endpoints.{
  Url, CreateEndpointInput, UpdateEndpointInput, EndpointWithSecret, EndpointDraw, validate_url,
  validate_events, same_ids, create_endpoint, found_or_throw, find_one_or_throw, saved, updated_url,
  updated_events, changed, create, update, with_secret, rotate_secret, remove, is_empty_update,
  lift, set_active,
}
use hypertron_api.Webhooks.Endpoints.Calls.{
  Op, creates, updates, rotates, removes, IsAllowed, IsValid, Step, adds, rewrites, deletes, stays,
  validate_url-IsAllowed, validate_events-not_nil, row_id, find_endpoint-IsAt,
}

module _ (parse_url : Text → Option Url) (b : String) where
  abbrev Change : {A : Type 0} → World → Result A × World → Type 0
  Change w r = Step parse_url b w.endpoints r.1.endpoints

  lift-Step :
      {A B : Type 0} (r : Result A) (k : A → M B) (w : World)
      → ((a : A) → r ≡ ok a → Change w (k a w))
      → Change w ((lift r >>= k) w)
  lift-Step (ok a) k w h = h a refl
  lift-Step (err e) k w h = stays w.endpoints

  find_one_or_throw-Step :
      {B : Type 0} (public_id : String) (k : WebhookEndpoint → M B) (w : World)
      → Unique row_id w.endpoints
      → ((p : WebhookEndpoint) → p.business_id ≡ b → IsAt row_id p w.endpoints → Change w (k p w))
      → Change w ((find_one_or_throw public_id b >>= k) w)
  unfolding find_one_or_throw
  find_one_or_throw-Step {B} public_id k w u h = found (find_endpoint public_id b w.endpoints) refl
    where
      found :
          (o : Option WebhookEndpoint)
          → find_endpoint public_id b w.endpoints ≡ o
          → Change w ((found_or_throw o >>= k) w)
      found none e = stays w.endpoints
      found (some p) e =
          let (m, s) = find_endpoint-IsAt public_id b w.endpoints {p = p} e (u p.id) in h p m s

  saved-Step :
      (p : WebhookEndpoint) (f : WebhookEndpoint → WebhookEndpoint) (same : Bool) (w : World)
      → p.business_id ≡ b
      → (f p).business_id ≡ p.business_id
      → (f p).id ≡ p.id
      → (IsValid parse_url p → IsValid parse_url (f p))
      → IsAt row_id p w.endpoints
      → Change w (saved p f same w)
  saved-Step p f true w m e i v s = stays w.endpoints
  saved-Step p f false w m e i v s =
      subst (λ (ps : List WebhookEndpoint). Step parse_url b w.endpoints ps)
        (sym (update_by-IsAt row_id f p w.endpoints s))
        (subst (λ (ps : List WebhookEndpoint). Step parse_url b ps (s.pre ++ f p ∷ s.post))
          (sym s.split) (rewrites s.pre s.post p (f p) m (e ∙ m) i v))

  create_endpoint-Step :
      (p : WebhookEndpoint) (w : World)
      → p.business_id ≡ b
      → IsValid parse_url p
      → Change w (create_endpoint p w)
  unfolding create_endpoint
  create_endpoint-Step p w m v = elim (Bool-cases (any (same_ids p) w.endpoints)) [
    | inl t ↦ rw t (stays w.endpoints)
    | inr f ↦ rw f (adds p w.endpoints f m v)
  ]

  returned-Step :
      {A B : Type 0} (w : World) (r : Result A × World) (f : A → B)
      → Change w r
      → Change w (bind_result r (λ a. return (f a)))
  returned-Step w (ok a, v) f h = h
  returned-Step w (err e, v) f h = h

  set_active-fields :
      (o : Option Bool) (now : ℕ) (p : WebhookEndpoint)
      → ((set_active o now p).id ≡ p.id)
        × ((set_active o now p).business_id ≡ p.business_id)
        × (IsValid parse_url p → IsValid parse_url (set_active o now p))
  set_active-fields none now p = (refl, refl, λ v. v)
  set_active-fields (some true) now p = (refl, refl, λ v. record { url = v.url; events = v.events })
  set_active-fields (some false) now p =
      (refl, refl, λ v. record { url = v.url; events = v.events })

  updated_url-IsAllowed :
      (e : Environment) (o : Option Text) {url : Option Text} (old : Text)
      → updated_url parse_url e o ≡ ok url
      → IsAllowed parse_url e old
      → IsAllowed parse_url e (or_else url old)
  updated_url-IsAllowed e none {url} old h a = let k : none ≡ url = ground arith in rw (← k) a
  updated_url-IsAllowed e (some raw_url) {url} old h a =
      checked (validate_url parse_url raw_url e) refl h
    where
      checked :
          (r : Result Text)
          → validate_url parse_url raw_url e ≡ r
          → (elim r [ ok u ↦ ok (some u) | err x ↦ err x ]) ≡ ok url
          → IsAllowed parse_url e (or_else url old)
      checked (ok u) k h =
          let l : some u ≡ url = ground arith in
          rw (← l) (validate_url-IsAllowed parse_url raw_url e k)
      checked (err x) k h = absurd (let e : false ≡ true = ground arith in cc)

  updated_events-not_nil :
      (o : Option (List Text)) {es : Option (List PaymentStatus)} (old : List PaymentStatus)
      → updated_events o ≡ ok es
      → old ≢ []
      → or_else es old ≢ []
  updated_events-not_nil none {es} old h a = let k : none ≡ es = ground arith in rw (← k) a
  updated_events-not_nil (some events) {es} old h a = checked (validate_events events) refl h
    where
      checked :
          (r : Result (List PaymentStatus))
          → validate_events events ≡ r
          → (elim r [ ok u ↦ ok (some u) | err x ↦ err x ]) ≡ ok es
          → or_else es old ≢ []
      checked (ok u) k h =
          let l : some u ≡ es = ground arith in rw (← l) (validate_events-not_nil events k)
      checked (err x) k h = absurd (let e : false ≡ true = ground arith in cc)

  module _ (p : Primitives) (configured : Option Text) where
    -- A call of the merchant.
    abbrev pub run : Op → World → World
    run (creates input i) w =
        (create parse_url p configured (record input { business_id = b }) i w).1
    run (updates public_id input now) w = (update parse_url public_id b input now w).1
    run (rotates public_id i) w = (rotate_secret p configured public_id b i w).1
    run (removes public_id) w = (remove public_id b w).1

    abbrev pub run_all : List Op → World → World
    run_all [] w = w
    run_all (o ∷ os) w = run_all os (run o w)

    create-Step :
        (input : CreateEndpointInput) (i : EndpointDraw) (w : World)
        → Change w (create parse_url p configured (record input { business_id = b }) i w)
    unfolding create
    create-Step input i w =
        lift-Step (validate_url parse_url input.url input.environment) _ w (λ url eu.
          lift-Step (validate_events input.events) _ w (λ events ee.
            lift-Step (encrypt p configured i.iv i.signing_secret) _ w (λ envelope ec.
              returned-Step w _ _ (
                create_endpoint-Step _ w refl (record {
                  url = validate_url-IsAllowed parse_url input.url input.environment eu;
                  events = validate_events-not_nil input.events ee;
                })))))

    update-Step :
        (public_id : String) (input : UpdateEndpointInput) (now : ℕ) (w : World)
        → Unique row_id w.endpoints
        → Change w (update parse_url public_id b input now w)
    unfolding update
    update-Step public_id input now w u = find_one_or_throw-Step public_id _ w u (λ q m s.
        lift-Step (updated_url parse_url q.environment input.url) _ w (λ url eu.
          lift-Step (updated_events input.events) _ w (λ events ee.
            let base : WebhookEndpoint = record q {
              url = or_else url q.url;
              events = or_else events q.events;
              description = or_else input.description q.description;
            } in
            let (i, e, v) = set_active-fields input.active now base in
            saved-Step q (changed url events input now) (is_empty_update input) w m e i
              (λ valid. v (record {
                url = updated_url-IsAllowed q.environment input.url q.url eu valid.url;
                events = updated_events-not_nil input.events q.events ee valid.events;
              }))
              s)))

    rotate_secret-Step :
        (public_id : String) (i : EndpointDraw) (w : World)
        → Unique row_id w.endpoints
        → Change w (rotate_secret p configured public_id b i w)
    unfolding rotate_secret
    rotate_secret-Step public_id i w u = find_one_or_throw-Step public_id _ w u (λ q m s.
        lift-Step (encrypt p configured i.iv i.signing_secret) _ w (λ envelope ec.
          returned-Step {A = WebhookEndpoint} {B = EndpointWithSecret} w
            (saved q (with_secret envelope i.signing_secret) false w)
            (λ endpoint. record { endpoint = endpoint; signing_secret = i.signing_secret })
            (saved-Step q (with_secret envelope i.signing_secret) false w m refl refl
              (λ v. record { url = v.url; events = v.events }) s)))

    remove-Step :
        (public_id : String) (w : World)
        → Unique row_id w.endpoints
        → Change w (remove public_id b w)
    unfolding remove
    remove-Step public_id w u = find_one_or_throw-Step public_id _ w u (λ q m s.
        subst (λ (ps : List WebhookEndpoint). Step parse_url b w.endpoints ps)
          (sym (filter-IsAt row_id q w.endpoints s))
          (subst (λ (ps : List WebhookEndpoint). Step parse_url b ps (s.pre ++ s.post))
            (sym s.split) (deletes s.pre s.post q m)))

    pub run-Step :
        (o : Op) (w : World)
        → Unique row_id w.endpoints
        → Step parse_url b w.endpoints (run o w).endpoints
    run-Step (creates input i) w u = create-Step input i w
    run-Step (updates public_id input now) w u = update-Step public_id input now w u
    run-Step (rotates public_id i) w u = rotate_secret-Step public_id i w u
    run-Step (removes public_id) w u = remove-Step public_id w u
