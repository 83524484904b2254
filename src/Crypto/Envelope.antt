-- ===== src/Crypto/Envelope.antt =====
-- A signing secret that is encrypted and read back.
use hypertron_api.Prelude.{
  ltb, ℕ, List, [], ◌∷◌, ◌++◌, some, Bool, true, length, all, ◌≡◌, refl, ap, ◌∙◌,
}
use hypertron_api.Prelude.Text.{Text}
use hypertron_api.Amount.{split}
use hypertron_api.Crypto.{
  Primitives, to_hex, envelope_sep, encrypt_secret, decrypt_secret, decrypt_parts,
}
use hypertron_api.Crypto.Hex.{is_byte, from_hex-to_hex, to_hex-lacks, split-lacks, split-append}

abbrev pub is_ascii : ℕ → Bool
is_ascii c = ltb c 128

-- What the runtime promises of AES-256-GCM and UTF-8: it reads back what it has written, under the
-- same key and IV; a tag has 16 bytes, and a buffer holds bytes. UTF-8 is asked for ASCII texts, as
-- signing secrets are hex.
pub record IsSound (p : Primitives) : Type 0 where
  pub utf8 : (t : Text) → all is_ascii t ≡ true → p.from_utf8 (p.utf8 t) ≡ t
  pub utf8_bytes : (t : Text) → all is_byte (p.utf8 t) ≡ true
  pub gcm :
      (key iv plain : List ℕ)
      → all is_byte plain ≡ true
      → p.decrypt key iv (p.encrypt key iv plain).1 (p.encrypt key iv plain).0 ≡ some plain
  pub tag : (key iv plain : List ℕ) → length (p.encrypt key iv plain).1 ≡ 16
  pub tag_bytes : (key iv plain : List ℕ) → all is_byte (p.encrypt key iv plain).1 ≡ true
  pub cipher_bytes : (key iv plain : List ℕ) → all is_byte (p.encrypt key iv plain).0 ≡ true

module _ (p : Primitives) (sound : IsSound p) (plaintext : Text) (key iv : List ℕ)
    (ascii : all is_ascii plaintext ≡ true) (key_length : length key ≡ 32)
    (iv_length : length iv ≡ 12) (iv_bytes : all is_byte iv ≡ true) where
  abbrev ciphertext : List ℕ
  ciphertext = (p.encrypt key iv (p.utf8 plaintext)).0

  abbrev tag : List ℕ
  tag = (p.encrypt key iv (p.utf8 plaintext)).1

  abbrev pub envelope : Text
  envelope = to_hex iv ++ envelope_sep ∷ (to_hex tag ++ envelope_sep ∷ to_hex ciphertext)

  split-envelope : split envelope_sep envelope ≡ to_hex iv ∷ to_hex tag ∷ to_hex ciphertext ∷ []
  split-envelope =
      split-append envelope_sep (to_hex iv) (to_hex tag ++ envelope_sep ∷ to_hex ciphertext)
        (to_hex-lacks envelope_sep iv refl iv_bytes)
      ∙ ap (λ l. to_hex iv ∷ l)
          (split-append envelope_sep (to_hex tag) (to_hex ciphertext)
              (to_hex-lacks envelope_sep tag refl (sound.tag_bytes key iv (p.utf8 plaintext)))
            ∙ ap (λ l. to_hex tag ∷ l)
                (split-lacks envelope_sep (to_hex ciphertext) (
                  to_hex-lacks envelope_sep ciphertext refl
                    (sound.cipher_bytes key iv (p.utf8 plaintext)))))

  decrypt_parts-envelope :
      decrypt_parts p key (to_hex iv ∷ to_hex tag ∷ to_hex ciphertext ∷ []) ≡ some plaintext
  unfolding decrypt_parts
  decrypt_parts-envelope =
      rw
        (
          from_hex-to_hex iv iv_bytes,
          from_hex-to_hex tag (sound.tag_bytes key iv (p.utf8 plaintext)),
          from_hex-to_hex ciphertext (sound.cipher_bytes key iv (p.utf8 plaintext)),
          iv_length,
          sound.tag key iv (p.utf8 plaintext),
          sound.gcm key iv (p.utf8 plaintext) (sound.utf8_bytes plaintext),
          sound.utf8 plaintext ascii,
        )
        refl

  -- An ASCII secret that is encrypted under a key of 32 bytes and an IV of 12 gives an envelope, and under
  -- the same key the envelope is decrypted to the secret.
  pub decrypt_secret-encrypt_secret :
      (encrypt_secret p plaintext key iv ≡ some envelope)
      × (decrypt_secret p envelope key ≡ some plaintext)
  unfolding encrypt_secret decrypt_secret
  decrypt_secret-encrypt_secret =
      (rw key_length refl, rw (key_length, split-envelope) decrypt_parts-envelope)
