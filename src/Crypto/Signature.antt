-- ===== src/Crypto/Signature.antt =====
-- The signature of a webhook and its verification.
use hypertron_api.Prelude.{
  ℕ, suc, ◌*◌, ◌<◌, ◌≤◌, List, [], ◌∷◌, ◌++◌, Option, some, none, true, not, leb, ltb, length, all,
  ◌≡◌, refl, ap, ◌∙◌, arith, Bool-cases, inl, inr,
}
use hypertron_api.Prelude.Text.{Text, codes, text_eq_refl, text_eq_sound}
use hypertron_api.Amount.{is_digit, split, or_empty, value_from, to_string}
use hypertron_api.Amount.Digits.{first_nonzero, to_string-Prints}
use hypertron_api.Crypto.{
  ℤ, pos, negsuc, Primitives, to_hex, from_hex, print_timestamp, digits_prefix, parse_int, distance,
  strip_prefix, after_mark, before_mark, second_between, entry, mark, mac, sign_webhook_payload,
  compare_signature, check_entries, verify_webhook_signature,
}
use hypertron_api.Crypto.Hex.{
  is_byte, is_separator, lacks, from_hex-to_hex, to_hex-lacks, digits-lacks, split-lacks,
  split-append,
}

strip_prefix-append : (m t : Text) → strip_prefix m (m ++ t) ≡ some t
unfolding strip_prefix
strip_prefix-append [] t = refl
strip_prefix-append (c ∷ m) t = ground (arith, strip_prefix-append m t)

-- A mark that starts with a comma is found behind a text without one.
after_mark-append :
    (m s t : Text) → lacks b',' s ≡ true → after_mark (b',' ∷ m) (s ++ (b',' ∷ m ++ t)) ≡ some t
unfolding after_mark
after_mark-append m [] t h = rw (strip_prefix-append m t) refl
after_mark-append m (c ∷ s) t h = ground (arith, after_mark-append m s t)

before_mark-lacks : (m s : Text) → lacks b',' s ≡ true → before_mark (b',' ∷ m) s ≡ s
unfolding before_mark
before_mark-lacks m [] h = refl
before_mark-lacks m (c ∷ s) h = ground (arith, before_mark-lacks m s)

digits_prefix-all : (t : Text) → all is_digit t ≡ true → digits_prefix t ≡ t
unfolding digits_prefix
digits_prefix-all [] h = refl
digits_prefix-all (c ∷ t) h = ground (arith, digits_prefix-all t)

parse_int-digits :
    (t : Text) → all is_digit t ≡ true → 0 < length t → parse_int t ≡ some (pos (value_from 0 t))
unfolding parse_int
parse_int-digits [] h l = absurd (omega arith)
parse_int-digits (c ∷ t) h l = ground (arith, digits_prefix-all (c ∷ t) h)

first_nonzero-length : (s : Text) → first_nonzero s ≡ true → 0 < length s
first_nonzero-length [] h = cc
first_nonzero-length (c ∷ s) h = omega arith

length-to_hex : (bs : List ℕ) → 0 < length bs → 0 < length (to_hex bs)
unfolding to_hex
length-to_hex [] h = absurd (omega arith)
length-to_hex (b ∷ bs) h = omega arith

-- What the runtime promises of HMAC-SHA256: 32 bytes.
pub record IsMac (p : Primitives) : Type 0 where
  pub bytes : (key message : List ℕ) → all is_byte (p.hmac_sha256 key message) ≡ true
  pub size : (key message : List ℕ) → length (p.hmac_sha256 key message) ≡ 32

abbrev pub name_t : Text
name_t = codes "t"

abbrev pub name_v1 : Text
name_v1 = codes "v1"

module _ (p : Primitives) (is_mac : IsMac p) (signing_secret body : Text) (t : ℕ) where
  abbrev bytes : List ℕ
  bytes = mac p signing_secret (pos t) body

  abbrev hex : Text
  hex = to_hex bytes

  abbrev digits : Text
  digits = to_string t

  abbrev parts : List Text
  parts = (b't' ∷ b'=' ∷ digits) ∷ (b'v' ∷ b'1' ∷ b'=' ∷ hex) ∷ []

  hex-lacks : (sep : ℕ) → is_separator sep ≡ true → lacks sep hex ≡ true
  hex-lacks sep h = to_hex-lacks sep bytes h (is_mac.bytes _ _)

  to_string-lacks : (sep : ℕ) → is_separator sep ≡ true → lacks sep digits ≡ true
  to_string-lacks sep h = digits-lacks sep digits h (to_string-Prints t).digits

  split-header : split b',' (sign_webhook_payload p signing_secret (pos t) body) ≡ parts
  unfolding sign_webhook_payload
  split-header =
      split-append b',' (b't' ∷ b'=' ∷ digits) (b'v' ∷ b'1' ∷ b'=' ∷ hex)
        (to_string-lacks b',' refl)
      ∙ ap (λ l. (b't' ∷ b'=' ∷ digits) ∷ l)
          (split-lacks b',' (b'v' ∷ b'1' ∷ b'=' ∷ hex) (hex-lacks b',' refl))

  split-first : split b'=' (b't' ∷ b'=' ∷ digits) ≡ name_t ∷ digits ∷ []
  split-first =
      split-append b'=' name_t digits refl
      ∙ ap (λ l. name_t ∷ l) (split-lacks b'=' digits (to_string-lacks b'=' refl))

  split-second : split b'=' (b'v' ∷ b'1' ∷ b'=' ∷ hex) ≡ name_v1 ∷ hex ∷ []
  split-second =
      split-append b'=' name_v1 hex refl
      ∙ ap (λ l. name_v1 ∷ l) (split-lacks b'=' hex (hex-lacks b'=' refl))

  entry-t : entry name_t parts ≡ some digits
  unfolding entry
  entry-t = rw (split-first, split-second) refl

  entry-v1 : entry name_v1 parts ≡ some hex
  unfolding entry
  entry-v1 = rw (split-first, split-second) refl

  signature-between :
      after_mark mark (sign_webhook_payload p signing_secret (pos t) body) ≡ some hex
  unfolding sign_webhook_payload
  signature-between =
      after_mark-append (codes "v1=") (b't' ∷ b'=' ∷ digits) hex (to_string-lacks b',' refl)

  compare_signature_own :
      (now tolerance_ms : ℕ)
      → compare_signature p hex signing_secret body now tolerance_ms (pos t)
        ≡ not (ltb tolerance_ms (distance now (pos t) * 1000))
  unfolding compare_signature
  compare_signature_own now tolerance_ms =
      rw (signature-between, before_mark-lacks (codes "v1=") hex (hex-lacks b',' refl))
        (ground (arith, text_eq_refl (from_hex hex)))

  check_entries-text :
      (s : Text) (now tolerance_ms : ℕ)
      → 0 < t
      → 0 < length s
      → check_entries p (some (pos t)) (some s) signing_secret body now tolerance_ms
        ≡ compare_signature p s signing_secret body now tolerance_ms (pos t)
  unfolding check_entries
  check_entries-text [] now tolerance_ms h l = absurd (omega arith)
  check_entries-text (c ∷ s) now tolerance_ms h l = ground arith

  parsed : 0 < t → parse_int digits ≡ some (pos t)
  parsed h =
      parse_int-digits digits (to_string-Prints t).digits
        (first_nonzero-length digits ((to_string-Prints t).leading h))
      ∙ ap (λ n. some (pos n)) (to_string-Prints t).value

  -- A signature that the API makes is accepted under the same secret and body exactly while the
  -- clock is within the tolerance of its timestamp, which is positive.
  pub verify_webhook_signature-sign_webhook_payload :
      (now tolerance_ms : ℕ)
      → 0 < t
      → verify_webhook_signature p
          (sign_webhook_payload p signing_secret (pos t) body)
          signing_secret
          body
          now
          tolerance_ms
        ≡ leb (distance now (pos t) * 1000) tolerance_ms
  unfolding verify_webhook_signature
  verify_webhook_signature-sign_webhook_payload now tolerance_ms h =
      rw (split-header, entry-t, entry-v1, parsed h)
        (check_entries-text hex now tolerance_ms h
            (length-to_hex bytes (rw (is_mac.size _ _) (omega arith)))
          ∙ compare_signature_own now tolerance_ms
          ∙ ground arith)

print_timestamp-lacks : (t : ℤ) → lacks b',' (print_timestamp t) ≡ true
unfolding print_timestamp
print_timestamp-lacks (pos n) = digits-lacks b',' (to_string n) refl (to_string-Prints n).digits
print_timestamp-lacks (negsuc n) =
    digits-lacks b',' (to_string (suc n)) refl (to_string-Prints (suc n)).digits

mac-between :
    (p : Primitives) (is_mac : IsMac p) (signing_secret body : Text) (t : ℤ)
    → from_hex
        (second_between mark (after_mark mark (sign_webhook_payload p signing_secret t body)))
      ≡ mac p signing_secret t body
unfolding sign_webhook_payload
mac-between p is_mac signing_secret body t =
    let bytes : List ℕ = mac p signing_secret t body in
    rw
      (
        after_mark-append (codes "v1=") (b't' ∷ b'=' ∷ print_timestamp t) (to_hex bytes)
            (print_timestamp-lacks t),
        before_mark-lacks (codes "v1=") (to_hex bytes)
            (to_hex-lacks b',' bytes refl (is_mac.bytes _ _)),
      )
      (from_hex-to_hex bytes (is_mac.bytes _ _))

-- What a signature that is accepted carries.
pub record IsSigned (p : Primitives) (timestamp : Option ℤ) (signature : Option Text)
    (signing_secret body : Text) (now tolerance_ms : ℕ) : Type 0 where
  pub t : ℤ
  pub text : Text
  pub has_timestamp : timestamp ≡ some t
  pub has_signature : signature ≡ some text
  pub near : distance now t * 1000 ≤ tolerance_ms
  pub authentic : from_hex text ≡ mac p signing_secret t body

module _ (p : Primitives) (is_mac : IsMac p) (signing_secret body : Text)
    (now tolerance_ms : ℕ) where
  compare_signature-IsSigned :
      (t : ℤ) (sig : Text)
      → compare_signature p sig signing_secret body now tolerance_ms t ≡ true
      → IsSigned p (some t) (some sig) signing_secret body now tolerance_ms
  unfolding compare_signature
  compare_signature-IsSigned t sig h =
      elim (Bool-cases (ltb tolerance_ms (distance now t * 1000))) [
        | inl late ↦ ground (arith, late)
        | inr near ↦ record {
          t = t;
          text = sig;
          has_timestamp = refl;
          has_signature = refl;
          near = ground (arith, near);
          authentic =
              text_eq_sound (from_hex sig) (mac p signing_secret t body)
                (rw (← mac-between p is_mac signing_secret body t) (ground (arith, near, h)));
        }
      ]

  check_entries-IsSigned :
      (o : Option ℤ) (s : Option Text)
      → check_entries p o s signing_secret body now tolerance_ms ≡ true
      → IsSigned p o s signing_secret body now tolerance_ms
  unfolding check_entries
  check_entries-IsSigned none s h = cc
  check_entries-IsSigned (some t) none h = cc
  check_entries-IsSigned (some t) (some []) h = cc
  check_entries-IsSigned (some t) (some (c ∷ cs)) h =
      compare_signature-IsSigned t (c ∷ cs) (ground arith)

  -- A header is accepted only if its entry `t` is a timestamp within the tolerance of the clock, and
  -- its entry `v1` has the bytes of the MAC over that timestamp and the body.
  pub verify_webhook_signature-IsSigned :
      (header : Text)
      → verify_webhook_signature p header signing_secret body now tolerance_ms ≡ true
      → IsSigned p
          (parse_int (or_empty (entry name_t (split b',' header))))
          (entry name_v1 (split b',' header))
          signing_secret
          body
          now
          tolerance_ms
  unfolding verify_webhook_signature
  verify_webhook_signature-IsSigned header h = check_entries-IsSigned _ _ h
