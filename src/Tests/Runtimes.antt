-- ===== src/Tests/Runtimes.antt =====
-- Concrete runtimes that keep the promises: a cipher that leaves bytes as they are, and a MAC of
-- zeros.
use hypertron_api.Prelude.{ℕ, ◌%◌, List, [], ◌∷◌, some, true, all, replicate, ◌≡◌, refl, ap, arith}
use hypertron_api.Prelude.Text.{Text}
use hypertron_api.Crypto.{Primitives}
use hypertron_api.Crypto.Hex.{is_byte}
use hypertron_api.Crypto.Envelope.{is_ascii, IsSound}
use hypertron_api.Crypto.Signature.{IsMac}

abbrev pub zeros : ℕ → List ℕ
zeros n = replicate n 0

abbrev pub as_bytes : Text → List ℕ
as_bytes [] = []
as_bytes (c ∷ t) = (c % 256) ∷ as_bytes t

abbrev pub primitives : Primitives
primitives = record {
  utf8 = as_bytes;
  from_utf8 = λ b. b;
  encrypt = λ key iv plain. (as_bytes plain, zeros 16);
  decrypt = λ key iv tag c. some c;
  hmac_sha256 = λ key message. zeros 32;
}

as_bytes_bytes : (t : Text) → all is_byte (as_bytes t) ≡ true
as_bytes_bytes [] = refl
as_bytes_bytes (c ∷ t) = ground (arith, as_bytes_bytes t)

as_bytes-bytes : (t : Text) → all is_byte t ≡ true → as_bytes t ≡ t
as_bytes-bytes [] h = refl
as_bytes-bytes (c ∷ t) h = ground (arith, as_bytes-bytes t)

as_bytes-ascii : (t : Text) → all is_ascii t ≡ true → as_bytes t ≡ t
as_bytes-ascii [] h = refl
as_bytes-ascii (c ∷ t) h = ground (arith, as_bytes-ascii t)

pub primitives-IsSound : IsSound primitives
primitives-IsSound = record {
  utf8 = λ t h. as_bytes-ascii t h;
  utf8_bytes = as_bytes_bytes;
  gcm = λ key iv plain h. ap (λ c. some c) (as_bytes-bytes plain h);
  tag = λ key iv plain. refl;
  tag_bytes = λ key iv plain. refl;
  cipher_bytes = λ key iv plain. as_bytes_bytes plain;
}

pub primitives-IsMac : IsMac primitives
primitives-IsMac = record { bytes = λ key message. refl; size = λ key message. refl }
