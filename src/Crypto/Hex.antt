-- ===== src/Crypto/Hex.antt =====
-- Hexadecimal texts, and texts that are split at a separator which they lack.
use hypertron_api.Prelude.{
  ℕ, ◌+◌, ◌*◌, ◌/◌, ◌%◌, ◌<◌, List, [], ◌∷◌, ◌++◌, some, Bool, true, not, ◌==◌, ◌&&◌, ◌||◌, ltb,
  all, ◌≡◌, refl, arith,
}
use hypertron_api.Prelude.Text.{Text}
use hypertron_api.Amount.{is_digit, split}
use hypertron_api.Crypto.{hex_digit, hex_value, to_hex, from_hex}

abbrev pub is_byte : ℕ → Bool
is_byte b = ltb b 256

hex_value-hex_digit : (n : ℕ) → n < 16 → hex_value (hex_digit n) ≡ some n
hex_value-hex_digit n h = ground arith

byte_parts : (b : ℕ) → b / 16 * 16 + b % 16 ≡ b
byte_parts b = omega arith

-- Bytes are read back from their hexadecimal text.
pub from_hex-to_hex : (bs : List ℕ) → all is_byte bs ≡ true → from_hex (to_hex bs) ≡ bs
unfolding from_hex to_hex
from_hex-to_hex [] h = refl
from_hex-to_hex (b ∷ bs) h =
    let hi : b / 16 < 16 = ground arith in
    rw (hex_value-hex_digit (b / 16) hi, hex_value-hex_digit (b % 16) (omega arith))
      (ground (arith, byte_parts b, from_hex-to_hex bs))

abbrev pub lacks : ℕ → Text → Bool
lacks sep t = all (λ c. not (c == sep)) t

pub split-lacks : (sep : ℕ) (t : Text) → lacks sep t ≡ true → split sep t ≡ t ∷ []
unfolding split
split-lacks sep [] h = refl
split-lacks sep (c ∷ t) h = ground (arith, split-lacks sep t)

pub split-append :
    (sep : ℕ) (s t : Text) → lacks sep s ≡ true → split sep (s ++ sep ∷ t) ≡ s ∷ split sep t
unfolding split
split-append sep [] t h = ground arith
split-append sep (c ∷ s) t h = ground (arith, split-append sep s t)

-- A character that no hexadecimal or decimal text has.
abbrev pub is_separator : ℕ → Bool
is_separator sep = ltb sep b'0' || (ltb b'9' sep && ltb sep b'a')

hex_digit-lacks : (sep n : ℕ) → is_separator sep ≡ true → n < 16 → not (hex_digit n == sep) ≡ true
hex_digit-lacks sep n h k = ground arith

pub to_hex-lacks :
    (sep : ℕ) (bs : List ℕ)
    → is_separator sep ≡ true
    → all is_byte bs ≡ true
    → lacks sep (to_hex bs) ≡ true
unfolding to_hex
to_hex-lacks sep [] h k = refl
to_hex-lacks sep (b ∷ bs) h k =
    let hi : b / 16 < 16 = ground arith in
    rw (hex_digit-lacks sep (b / 16) h hi, hex_digit-lacks sep (b % 16) h (omega arith))
      (to_hex-lacks sep bs h (ground arith))

pub digits-lacks :
    (sep : ℕ) (t : Text) → is_separator sep ≡ true → all is_digit t ≡ true → lacks sep t ≡ true
digits-lacks sep [] h k = refl
digits-lacks sep (c ∷ t) h k = ground (arith, digits-lacks sep t)

pub lacks-append :
    (sep : ℕ) (s t : Text) → lacks sep s ≡ true → lacks sep t ≡ true → lacks sep (s ++ t) ≡ true
lacks-append sep [] t h k = k
lacks-append sep (c ∷ s) t h k = ground (arith, lacks-append sep s t)
