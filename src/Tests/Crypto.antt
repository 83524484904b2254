-- ===== src/Tests/Crypto.antt =====
-- Examples for the secrets and the signatures.
use hypertron_api.Prelude.{◌*◌, true, leb, ◌≡◌, refl, arith}
use hypertron_api.Prelude.Text.{Text, codes}
use hypertron_api.Amount.{split, or_empty}
use hypertron_api.Crypto.{
  pos, distance, encrypt_secret, decrypt_secret, sign_webhook_payload, parse_int, entry,
  verify_webhook_signature,
}
use hypertron_api.Crypto.Signature.{
  IsSigned, name_t, name_v1, verify_webhook_signature-sign_webhook_payload,
  verify_webhook_signature-IsSigned,
}
use hypertron_api.Tests.Runtimes.{primitives, primitives-IsMac}

abbrev secret : Text
secret = codes "00ff"

abbrev body : Text
body = codes "hi"

verify_webhook_signature-sign_webhook_payload_example :
    verify_webhook_signature primitives
      (sign_webhook_payload primitives secret (pos 1000) body)
      secret
      body
      1200
      300000
    ≡ leb (distance 1200 (pos 1000) * 1000) 300000
verify_webhook_signature-sign_webhook_payload_example =
    verify_webhook_signature-sign_webhook_payload primitives primitives-IsMac secret body 1000 1200
      300000 (omega arith)

abbrev header : Text
header = codes "t=10,v1=0000000000000000000000000000000000000000000000000000000000000000"

accepted : verify_webhook_signature primitives header secret body 11 5000 ≡ true
unfolding verify_webhook_signature split hypertron_api.Amount.value_from
    hypertron_api.Crypto.from_hex hypertron_api.Crypto.after_mark sign_webhook_payload
    hypertron_api.Amount.to_string hypertron_api.Crypto.to_hex
accepted = refl

verify_webhook_signature-IsSigned_example :
    IsSigned primitives
      (parse_int (or_empty (entry name_t (split b',' header))))
      (entry name_v1 (split b',' header))
      secret
      body
      11
      5000
verify_webhook_signature-IsSigned_example =
    verify_webhook_signature-IsSigned primitives primitives-IsMac secret body 11 5000 header
      accepted
