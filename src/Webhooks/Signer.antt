-- ===== src/Webhooks/Signer.antt =====
-- src/modules/webhooks/webhook-signer.ts: signing secrets, from the configured key to the headers of a
-- delivery. A secret and an IV that are drawn are arguments.
use hypertron_api.Prelude.{
  ℕ, ◌-◌, String, List, [], ◌∷◌, Option, none, some, Bool, ◌&&◌, ◌||◌, leb, ◌==◌, all, length, drop,
  if◌then◌else◌,
}
use hypertron_api.Prelude.Text.{Text, codes}
use hypertron_api.Store.Effects.{other_error, Result, ok, err}
use hypertron_api.Amount.{is_digit}
use hypertron_api.Errors.{or_else}
use hypertron_api.Crypto.{
  Primitives, pos, from_hex, encrypt_secret, decrypt_secret, sign_webhook_payload,
}

abbrev pub last_four : Text → Text
last_four secret = drop (length secret - 4) secret

-- `/^[0-9a-f]{64}$/i`.
abbrev is_hex_digit : ℕ → Bool
is_hex_digit c = is_digit c || (leb b'a' c && leb c b'f') || (leb b'A' c && leb c b'F')

abbrev is_hex_key : Text → Bool
is_hex_key hex = length hex == 64 && all is_hex_digit hex

-- The bytes of the configured key.
unfoldable pub encryption_key : Option Text → Result (List ℕ)
encryption_key configured =
    let hex = or_else configured [] in
    if is_hex_key hex then ok (from_hex hex) else err (other_error "webhook_encryption_key_invalid")

module _ (p : Primitives) where
  abbrev pub encrypted : Option Text → Result Text
  encrypted none = err (other_error "encryption key must be 32 bytes")
  encrypted (some envelope) = ok envelope

  unfoldable pub encrypt_under : Text → List ℕ → Result (List ℕ) → Result Text
  unfolding encrypt_secret
  encrypt_under secret iv (err e) = err e
  encrypt_under secret iv (ok key) = encrypted (encrypt_secret p secret key iv)

  unfoldable pub encrypt : Option Text → List ℕ → Text → Result Text
  unfolding encrypt_under encryption_key
  encrypt configured iv secret = encrypt_under secret iv (encryption_key configured)

  abbrev pub decrypted : Option Text → Result Text
  decrypted none = err (other_error "webhook_secret_undecryptable")
  decrypted (some secret) = ok secret

  unfoldable pub decrypt_under : Text → Result (List ℕ) → Result Text
  unfolding decrypt_secret
  decrypt_under envelope (err e) = err (other_error "webhook_secret_undecryptable")
  decrypt_under envelope (ok key) = decrypted (decrypt_secret p envelope key)

  -- Any error is replaced.
  unfoldable pub decrypt : Option Text → Text → Result Text
  unfolding decrypt_under encryption_key
  decrypt configured envelope = decrypt_under envelope (encryption_key configured)

  unfoldable pub sign : Text → Text → ℕ → Text
  unfolding sign_webhook_payload
  sign secret body timestamp = sign_webhook_payload p secret (pos timestamp) body

  -- The names of the headers and their values.
  unfoldable pub build_headers : Text → Text → Text → Text → ℕ → List (String × Text)
  unfolding sign
  build_headers secret body event_id delivery_id timestamp =
      ("Content-Type", codes "application/json")
      ∷ ("User-Agent", codes "Hypertron-Webhooks/1.0")
      ∷ ("Hypertron-Signature", sign secret body timestamp)
      ∷ ("Hypertron-Event-Id", event_id)
      ∷ ("Hypertron-Delivery-Id", delivery_id)
      ∷ []
