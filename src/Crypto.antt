-- ===== src/Crypto.antt =====
-- src/common/utils/crypto.util.ts: signing secrets at rest, the signature of a webhook, and the
-- format of an API key. Bytes are numbers below 256. The primitives (AES-256-GCM, HMAC-SHA256,
-- UTF-8) belong to the runtime and are arguments; a throw is `none`.
pub mod Hex
pub mod Envelope
pub mod Signature
use hypertron_api.Prelude.{
  ℕ, zero, suc, ◌+◌, ◌-◌, ◌*◌, ◌/◌, ◌%◌, List, [], ◌∷◌, ◌++◌, Option, none, some, Bool, true, false,
  not, ◌&&◌, ◌||◌, ltb, leb, ◌==◌, length, if◌then◌else◌, drop,
}
use hypertron_api.Prelude.Text.{Text, codes, text_eq, is_space}
use hypertron_api.Amount.{is_digit, split, first_part, second_part, or_empty, value_from, to_string}

-- `Buffer.toString('hex')`.
abbrev pub hex_digit : ℕ → ℕ
hex_digit n = if ltb n 10 then b'0' + n else b'a' + (n - 10)

unfoldable pub to_hex : List ℕ → Text
to_hex [] = []
to_hex (b ∷ bs) = hex_digit (b / 16) ∷ hex_digit (b % 16) ∷ to_hex bs

abbrev pub hex_value : ℕ → Option ℕ
hex_value c =
    if is_digit c
    then some (c - b'0')
    else if leb b'a' c && leb c b'f'
    then some (c - b'a' + 10)
    else if leb b'A' c && leb c b'F'
    then some (c - b'A' + 10)
    else none

abbrev pair_bytes : Option ℕ → Option ℕ → List ℕ → List ℕ
pair_bytes none l rest = []
pair_bytes (some h) none rest = []
pair_bytes (some h) (some l) rest = (h * 16 + l) ∷ rest

-- `Buffer.from(text, 'hex')`, which stops at the first pair that is no byte.
unfoldable pub from_hex : Text → List ℕ
from_hex [] = []
from_hex (c ∷ []) = []
from_hex (c ∷ d ∷ cs) = let rest = from_hex cs in pair_bytes (hex_value c) (hex_value d) rest

pub record Primitives : Type 0 where
  pub utf8 : Text → List ℕ
  pub from_utf8 : List ℕ → Text
  -- The key, the IV and the plaintext, to the ciphertext and the tag.
  pub encrypt : List ℕ → List ℕ → List ℕ → List ℕ × List ℕ
  -- The key, the IV, the tag and the ciphertext; none where the tag fails.
  pub decrypt : List ℕ → List ℕ → List ℕ → List ℕ → Option (List ℕ)
  pub hmac_sha256 : List ℕ → List ℕ → List ℕ

abbrev pub aes_iv_bytes : ℕ
aes_iv_bytes = 12

abbrev pub aes_tag_bytes : ℕ
aes_tag_bytes = 16

abbrev pub envelope_sep : ℕ
envelope_sep = b':'

module _ (p : Primitives) where
  -- `iv` is what `randomBytes` draws.
  unfoldable pub encrypt_secret : Text → List ℕ → List ℕ → Option Text
  encrypt_secret plaintext key iv =
      let (ciphertext, tag) = p.encrypt key iv (p.utf8 plaintext) in
      if length key == 32
      then some (to_hex iv ++ envelope_sep ∷ (to_hex tag ++ envelope_sep ∷ to_hex ciphertext))
      else none

  abbrev decoded : Option (List ℕ) → Option Text
  decoded none = none
  decoded (some bytes) = some (p.from_utf8 bytes)

  decrypt_parts : List ℕ → List Text → Option Text
  decrypt_parts key (iv_hex ∷ tag_hex ∷ ciphertext_hex ∷ []) =
      let iv = from_hex iv_hex in
      let tag = from_hex tag_hex in
      if not (length iv == aes_iv_bytes)
      then none
      else if not (length tag == aes_tag_bytes)
      then none
      else decoded (p.decrypt key iv tag (from_hex ciphertext_hex))
  decrypt_parts key _ = none

  unfoldable pub decrypt_secret : Text → List ℕ → Option Text
  unfolding decrypt_parts
  decrypt_secret envelope key =
      if length key == 32 then decrypt_parts key (split envelope_sep envelope) else none

-- A timestamp is an integer: `negsuc n` is -(n + 1).
pub data ℤ : Type 0 where
  pos negsuc : ℕ → ℤ

unfoldable pub print_timestamp : ℤ → Text
print_timestamp (pos n) = to_string n
print_timestamp (negsuc n) = b'-' ∷ to_string (suc n)

-- `parseInt(text, 10)`, none for NaN: white space, a sign, and the digits that follow.
unfoldable pub digits_prefix : Text → Text
digits_prefix [] = []
digits_prefix (c ∷ cs) = let rest = digits_prefix cs in if is_digit c then c ∷ rest else []

abbrev pub integer : Bool → Text → Option ℤ
integer negative [] = none
integer false (c ∷ cs) = some (pos (value_from 0 (c ∷ cs)))
integer true (c ∷ cs) = elim (value_from 0 (c ∷ cs)) [
  | zero ↦ some (pos zero)
  | suc n ↦ some (negsuc n)
]

abbrev signed_integer : Text → Option ℤ
signed_integer [] = none
signed_integer (c ∷ cs) =
    if c == b'-'
    then integer true (digits_prefix cs)
    else if c == b'+'
    then integer false (digits_prefix cs)
    else integer false (digits_prefix (c ∷ cs))

unfoldable pub parse_int : Text → Option ℤ
unfolding digits_prefix
parse_int [] = none
parse_int (c ∷ cs) = let rest = parse_int cs in if is_space c then rest else signed_integer (c ∷ cs)

-- `Math.abs(now - timestamp)`.
abbrev pub distance : ℕ → ℤ → ℕ
distance now (pos t) = (now - t) + (t - now)
distance now (negsuc t) = now + suc t

-- `text.split(mark)[1]`: what stands between the first mark and the next one.
unfoldable pub strip_prefix : Text → Text → Option Text
strip_prefix [] s = some s
strip_prefix (m ∷ ms) [] = none
strip_prefix (m ∷ ms) (c ∷ cs) = let rest = strip_prefix ms cs in if m == c then rest else none

unfoldable pub after_mark : Text → Text → Option Text
unfolding strip_prefix
after_mark m [] = none
after_mark m (c ∷ cs) =
    let rest = after_mark m cs in elim (strip_prefix m (c ∷ cs)) [ none ↦ rest | some r ↦ some r ]

unfoldable pub before_mark : Text → Text → Text
unfolding strip_prefix
before_mark m [] = []
before_mark m (c ∷ cs) =
    let rest = before_mark m cs in elim (strip_prefix m (c ∷ cs)) [ none ↦ c ∷ rest | some r ↦ [] ]

abbrev second_between : Text → Option Text → Text
second_between m none = []
second_between m (some r) = before_mark m r

abbrev pub has_entry : Text → List Text → Bool
has_entry name [] = false
has_entry name (e ∷ es) = text_eq (first_part (split b'=' e)) name || has_entry name es

-- The value of the last entry `name=value` with this name; none where it is missing or has no `=`.
unfoldable pub entry : Text → List Text → Option Text
entry name [] = none
entry name (e ∷ es) =
    let rest = entry name es in
    if has_entry name es
    then rest
    else if text_eq (first_part (split b'=' e)) name
    then second_part (split b'=' e)
    else none

abbrev pub mark : Text
mark = codes ",v1="

-- `!timestamp`.
abbrev is_missing : Option ℤ → Bool
is_missing none = true
is_missing (some (pos n)) = n == 0
is_missing (some (negsuc n)) = false

module _ (p : Primitives) where
  abbrev pub signed_input : ℤ → Text → Text
  signed_input timestamp body = print_timestamp timestamp ++ b'.' ∷ body

  abbrev pub mac : Text → ℤ → Text → List ℕ
  mac signing_secret timestamp body =
      p.hmac_sha256 (from_hex signing_secret) (p.utf8 (signed_input timestamp body))

  unfoldable pub sign_webhook_payload : Text → ℤ → Text → Text
  unfolding print_timestamp
  sign_webhook_payload signing_secret timestamp body =
      b't'
      ∷ b'='
      ∷ (print_timestamp timestamp ++ (mark ++ to_hex (mac signing_secret timestamp body)))

  -- `timingSafeEqual` throws where the lengths differ, and a throw is `false`.
  compare_signature : Text → Text → Text → ℕ → ℕ → ℤ → Bool
  unfolding before_mark
  compare_signature signature signing_secret body now tolerance_ms timestamp =
      if ltb tolerance_ms (distance now timestamp * 1000)
      then false
      else text_eq (from_hex signature) (
          from_hex (
            second_between mark
              (after_mark mark (sign_webhook_payload signing_secret timestamp body))))

  check_entries : Option ℤ → Option Text → Text → Text → ℕ → ℕ → Bool
  unfolding compare_signature
  check_entries none signature signing_secret body now tolerance_ms = false
  check_entries (some t) none signing_secret body now tolerance_ms = false
  check_entries (some t) (some []) signing_secret body now tolerance_ms = false
  check_entries (some t) (some (c ∷ cs)) signing_secret body now tolerance_ms =
      if is_missing (some t)
      then false
      else compare_signature (c ∷ cs) signing_secret body now tolerance_ms t

  -- `now` is the clock in seconds.
  unfoldable pub verify_webhook_signature : Text → Text → Text → ℕ → ℕ → Bool
  unfolding check_entries entry parse_int
  verify_webhook_signature header signing_secret body now tolerance_ms =
      let parts = split b',' header in
      check_entries (parse_int (or_empty (entry (codes "t") parts))) (entry (codes "v1") parts)
        signing_secret body now tolerance_ms
