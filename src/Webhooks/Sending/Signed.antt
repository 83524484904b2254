-- ===== src/Webhooks/Sending/Signed.antt =====
-- A delivery is signed under the secret that the merchant was given.
use hypertron_api.Prelude.{
  any, str_eq, ℕ, ◌*◌, ◌<◌, String, List, [], ◌∷◌, Option, none, some, true, false, all, leb,
  length, ◌==◌, ◌≡◌, refl, sym, ap, ◌∙◌, arith, Bool-cases, Option-cases, inl, inr, if◌then◌else◌,
}
use mathlib.Core.Path.{subst}
use hypertron_api.Prelude.Text.{Text}
use hypertron_api.Store.Tables.{WebhookEndpoint}
use hypertron_api.Store.Effects.{World, Result, ok, err, M, ◌>>=◌, bind_result}
use hypertron_api.Crypto.{
  Primitives, pos, distance, encrypt_secret, decrypt_secret, verify_webhook_signature,
}
use hypertron_api.Crypto.Hex.{is_byte}
use hypertron_api.Crypto.Envelope.{IsSound, is_ascii, envelope, decrypt_secret-encrypt_secret}
use hypertron_api.Crypto.Signature.{IsMac, verify_webhook_signature-sign_webhook_payload}
use hypertron_api.Webhooks.Signer.{
  encryption_key, encrypt, encrypt_under, decrypt, decrypt_under, build_headers, sign,
}
use hypertron_api.Webhooks.Endpoints.{
  Url, CreateEndpointInput, EndpointDraw, EndpointWithSecret, lift, create, create_endpoint,
  same_ids, validate_url, validate_events,
}
use hypertron_api.Webhooks.Sending.{WebhookEventPayload, WebhookRequest, signed_request}

lift-ok :
    {A B : Type 0} (r : Result A) (k : A → M B) (w : World) {b : B}
    → ((lift r >>= k) w).0 ≡ ok b
    → (a : A) × (r ≡ ok a) × ((k a w).0 ≡ ok b)
lift-ok (ok a) k w h = (a, refl, h)
lift-ok (err e) k w h = absurd (let e : false ≡ true = ground arith in cc)

module _ (p : Primitives) (sound : IsSound p) (secret : Text) (iv : List ℕ)
    (ascii : all is_ascii secret ≡ true) (iv_length : length iv ≡ 12)
    (iv_bytes : all is_byte iv ≡ true) where
  encrypt_secret-short :
      (key : List ℕ) {text : Text}
      → (length key == 32) ≡ false
      → encrypt_secret p secret key iv ≡ some text
      → false ≡ true
  unfolding encrypt_secret
  encrypt_secret-short key {text} f h = ground (arith, f)

  same_text :
      (key : List ℕ) {text x : Text}
      → encrypt_secret p secret key iv ≡ some text
      → encrypt_secret p secret key iv ≡ some x
      → decrypt_secret p x key ≡ some secret
      → decrypt_secret p text key ≡ some secret
  same_text key {text} {x} h e d =
      let i : x ≡ text = cc in subst (λ (t : Text). decrypt_secret p t key ≡ some secret) i d

  encrypt_secret-decrypt_secret :
      (key : List ℕ) {text : Text}
      → encrypt_secret p secret key iv ≡ some text
      → decrypt_secret p text key ≡ some secret
  encrypt_secret-decrypt_secret key {text} h = elim (Bool-cases (length key == 32)) [
    | inl t ↦
        let (e, d) =
          decrypt_secret-encrypt_secret p sound secret key iv ascii (ground (arith, t)) iv_length
            iv_bytes in
        same_text key {text = text} h e d
    | inr f ↦ absurd (let e : false ≡ true = encrypt_secret-short key {text = text} f h in cc)
  ]

  decrypt-encrypt :
      (configured : Option Text) {text : Text}
      → encrypt p configured iv secret ≡ ok text
      → decrypt p configured text ≡ ok secret
  unfolding encrypt decrypt encrypt_under decrypt_under
  decrypt-encrypt configured {text} h = under (encryption_key configured) h
    where
      under :
          (r : Result (List ℕ))
          → encrypt_under p secret iv r ≡ ok text
          → decrypt_under p text r ≡ ok secret
      under (err e) h = absurd (let e : false ≡ true = ground arith in cc)
      under (ok key) h = elim (Option-cases (encrypt_secret p secret key iv)) [
        | inl n ↦ absurd (let e : false ≡ true = ground (arith, n) in cc)
        | inr (t, e) ↦
            let d : decrypt_secret p text key ≡ some secret =
              encrypt_secret-decrypt_secret key (e ∙ ground (arith, e)) in
            rw d refl
      ]

created-secret :
    (q : WebhookEndpoint) (secret : Text) (w : World) {r : EndpointWithSecret}
    → (bind_result
        (create_endpoint q w)
        (λ e v. (ok (record { endpoint = e; signing_secret = secret }), v))).0
      ≡ ok r
    → (q.signing_secret_encrypted ≡ r.endpoint.signing_secret_encrypted)
      × (r.signing_secret ≡ secret)
unfolding create_endpoint
created-secret q secret w {r} h = elim (Bool-cases (any (same_ids q) w.endpoints)) [
  | inl t ↦ absurd (let e : false ≡ true = ground (arith, t) in cc)
  | inr f ↦ (ground (arith, f), ground (arith, f))
]

create-encrypted :
    (p : Primitives) (parse_url : Text → Option Url) (configured : Option Text)
    (input : CreateEndpointInput) (i : EndpointDraw) (w : World) {r : EndpointWithSecret}
    → (create parse_url p configured input i w).0 ≡ ok r
    → (encrypt p configured i.iv i.signing_secret ≡ ok r.endpoint.signing_secret_encrypted)
      × (r.signing_secret ≡ i.signing_secret)
unfolding create
create-encrypted p parse_url configured input i w {r} h =
    let (url, eu, h1) = lift-ok (validate_url parse_url input.url input.environment) _ w h in
    let (events, ee, h2) = lift-ok (validate_events input.events) _ w h1 in
    let (envelope, ec, h3) = lift-ok (encrypt p configured i.iv i.signing_secret) _ w h2 in
    let (e, s) = created-secret _ i.signing_secret w h3 in (ec ∙ ap ok e, s)

-- The value of a header.
abbrev pub header_value : String → List (String × Text) → Option Text
header_value name [] = none
header_value name ((n, v) ∷ hs) = if str_eq n name then some v else header_value name hs

module _ (p : Primitives) (sound : IsSound p) (is_mac : IsMac p) (parse_url : Text → Option Url)
    (configured : Option Text) (input : CreateEndpointInput) (i : EndpointDraw) (w : World)
    (r : EndpointWithSecret) (ascii : all is_ascii i.signing_secret ≡ true)
    (iv_length : length i.iv ≡ 12) (iv_bytes : all is_byte i.iv ≡ true) where
  created-decrypt :
      (create parse_url p configured input i w).0 ≡ ok r
      → decrypt p configured r.endpoint.signing_secret_encrypted ≡ ok r.signing_secret
  created-decrypt h =
      let (e, s) = create-encrypted p parse_url configured input i w {r = r} h in
      decrypt-encrypt p sound i.signing_secret i.iv ascii iv_length iv_bytes configured e
      ∙ ap ok (sym s)

  -- Where the creation of an endpoint has returned a secret: a request that is built from a row `e`
  -- which still has the encrypted secret that was stored then goes to the URL of that row, and its
  -- header Hypertron-Signature is accepted with its body under the secret that was returned, exactly
  -- while the clock is within the tolerance of the time of sending. The URL, the events and all else
  -- of the row may have changed; its secret may not have been rotated.
  pub signed_request-create :
      (e : WebhookEndpoint) (stringify : WebhookEventPayload → Text) (payload : WebhookEventPayload)
      (delivery_id : Text) (timestamp now tolerance_ms : ℕ)
      → 0 < timestamp
      → (create parse_url p configured input i w).0 ≡ ok r
      → e.signing_secret_encrypted ≡ r.endpoint.signing_secret_encrypted
      → (q : WebhookRequest) × (signature : Text) × (signed_request p stringify configured e payload
            delivery_id timestamp
          ≡ ok q)
        × (q.url ≡ e.url)
        × (header_value "Hypertron-Signature" q.headers ≡ some signature)
        × (verify_webhook_signature p signature r.signing_secret q.body now tolerance_ms
            ≡ leb (distance now (pos timestamp) * 1000) tolerance_ms)
  unfolding signed_request build_headers sign
  signed_request-create e stringify payload delivery_id timestamp now tolerance_ms h c same = (
    record {
      url = e.url;
      headers =
          build_headers p r.signing_secret (stringify payload) payload.id delivery_id timestamp;
      body = stringify payload;
    },
    sign p r.signing_secret (stringify payload) timestamp,
    rw (same, created-decrypt c) refl,
    refl,
    refl,
    verify_webhook_signature-sign_webhook_payload p is_mac r.signing_secret (stringify payload)
        timestamp now tolerance_ms h,
  )
