-- ===== src/Auth/Cookie.antt =====
-- A session token that is made and read back from a cookie.
use hypertron_api.Prelude.{
  ℕ, ◌+◌, [], ◌∷◌, ◌++◌, none, some, Bool, true, false, not, ◌||◌, all, leb, ◌==◌, ◌≡◌, ◌≢◌, refl,
  ap, ◌∙◌, arith, if◌then◌else◌,
}
use hypertron_api.Prelude.Text.{Text, text_eq_refl, trim}
use hypertron_api.Prelude.Trim.{is_ink, trim_ink}
use hypertron_api.Amount.{split}
use hypertron_api.Crypto.{pos}
use hypertron_api.Crypto.Hex.{lacks, split-lacks, split-append}
use hypertron_api.Errors.Filter.{is_word}
use hypertron_api.Auth.Tokens.{
  SessionRuntime, dashboard_session_cookie, is_valid_stellar_address,
  create_dashboard_session_token, parse_parts, parse_signed_payload, read_entries, read_cookie,
  parse_wallet, token_wallet, parse_dashboard_wallet_from_cookie_header,
}

-- The alphabet of base64url, and that of a token.
abbrev pub is_base64url : ℕ → Bool
is_base64url c = is_word c || c == b'-'

abbrev pub is_token_char : ℕ → Bool
is_token_char c = is_base64url c || c == b'.'

-- What the runtime promises: base64url texts are of its alphabet, a payload is read back, no payload
-- and no MAC is empty, and a token has nothing to decode as a URI component.
pub record IsFaithful (r : SessionRuntime) : Type 0 where
  pub decode :
      (w : Text) (e : ℕ)
      → r.decode_payload (r.encode_payload w e) ≡ some (record { w = some w; exp = some (pos e) })
  pub payload_chars : (w : Text) (e : ℕ) → all is_base64url (r.encode_payload w e) ≡ true
  pub payload_length : (w : Text) (e : ℕ) → r.encode_payload w e ≢ []
  pub mac_chars : (p s : Text) → all is_base64url (r.sign p s) ≡ true
  pub mac_length : (p s : Text) → r.sign p s ≢ []
  pub component : (t : Text) → all is_token_char t ≡ true → r.decode_uri_component t ≡ some t

all-weaken :
    (p q : ℕ → Bool) (t : Text)
    → ((c : ℕ) → p c ≡ true → q c ≡ true)
    → all p t ≡ true
    → all q t ≡ true
all-weaken p q [] h a = refl
all-weaken p q (c ∷ t) h a = ground (arith, h c, all-weaken p q t h)

all-append : (p : ℕ → Bool) (s t : Text) → all p s ≡ true → all p t ≡ true → all p (s ++ t) ≡ true
all-append p [] t a b = b
all-append p (c ∷ s) t a b = ground (arith, all-append p s t)

module _ (r : SessionRuntime) (faithful : IsFaithful r) (wallet secret : Text)
    (max_age made : ℕ) where
  abbrev encoded : Text
  encoded = r.encode_payload wallet (made + max_age)

  abbrev signature : Text
  signature = r.sign encoded secret

  abbrev token : Text
  token = create_dashboard_session_token r wallet secret max_age made

  abbrev pub header : Text
  header = dashboard_session_cookie ++ b'=' ∷ token

  token-chars : all is_token_char token ≡ true
  unfolding create_dashboard_session_token
  token-chars =
      all-append is_token_char encoded (b'.' ∷ signature)
        (all-weaken is_base64url is_token_char encoded (λ c h. ground arith)
          (faithful.payload_chars _ _))
        (all-weaken is_base64url is_token_char signature (λ c h. ground arith)
          (faithful.mac_chars _ _))

  token-lacks : (sep : ℕ) → is_token_char sep ≡ false → lacks sep token ≡ true
  token-lacks sep h =
      all-weaken is_token_char (λ c. not (c == sep)) token (λ c k. ground arith) token-chars

  header-lacks : lacks b';' header ≡ true
  header-lacks =
      all-append (λ c. not (c == b';')) dashboard_session_cookie (b'=' ∷ token) refl
        (token-lacks b';' refl)

  trim-header : trim header ≡ header
  trim-header = trim_ink header (
      all-append is_ink dashboard_session_cookie (b'=' ∷ token) refl
        (all-weaken is_token_char is_ink token (λ c k. ground arith) token-chars))

  read_cookie-header : read_cookie r (some header) dashboard_session_cookie ≡ some token
  unfolding read_entries
  read_cookie-header =
      rw
        (
          split-lacks b';' header header-lacks,
          trim-header,
          split-append b'=' dashboard_session_cookie token refl,
          split-lacks b'=' token (token-lacks b'=' refl),
        )
        (faithful.component token token-chars)

  split-token : split b'.' token ≡ encoded ∷ signature ∷ []
  unfolding create_dashboard_session_token
  split-token =
      split-append b'.' encoded signature (
        all-weaken is_base64url (λ c. not (c == b'.')) encoded (λ c k. ground arith)
          (faithful.payload_chars _ _))
      ∙ ap (λ l. encoded ∷ l)
          (split-lacks b'.' signature (
            all-weaken is_base64url (λ c. not (c == b'.')) signature (λ c k. ground arith)
              (faithful.mac_chars _ _)))

  parse_parts-signed :
      (p s : Text)
      → p ≢ []
      → s ≢ []
      → s ≡ r.sign p secret
      → parse_parts r (p ∷ s ∷ []) secret ≡ r.decode_payload p
  unfolding parse_parts
  parse_parts-signed [] s h k e = absurd (h refl)
  parse_parts-signed (c ∷ p) [] h k e = absurd (k refl)
  parse_parts-signed (c ∷ p) (d ∷ s) h k e = rw (← e, text_eq_refl (d ∷ s)) refl

  parse_signed_payload-token :
      parse_signed_payload r token secret
      ≡ some (record { w = some wallet; exp = some (pos (made + max_age)) })
  unfolding parse_signed_payload
  parse_signed_payload-token = rw split-token (
      parse_parts-signed encoded signature (faithful.payload_length _ _) (faithful.mac_length _ _)
        refl
      ∙ faithful.decode wallet (made + max_age))

  token_wallet-cons :
      (t s : Text) (now : ℕ)
      → t ≢ []
      → s ≢ []
      → token_wallet r (some t) s now ≡ parse_wallet (parse_signed_payload r t s) now
  unfolding token_wallet
  token_wallet-cons [] s now h k = absurd (h refl)
  token_wallet-cons (c ∷ t) [] now h k = absurd (k refl)
  token_wallet-cons (c ∷ t) (d ∷ s) now h k = refl

  append_not_nil : (s t : Text) (c : ℕ) → s ++ c ∷ t ≢ []
  append_not_nil [] t c h = absurd (let e : false ≡ true = cc in cc)
  append_not_nil (d ∷ s) t c h = absurd (let e : false ≡ true = cc in cc)

  token_not_nil : token ≢ []
  unfolding create_dashboard_session_token
  token_not_nil = append_not_nil encoded signature b'.'

  -- A token that is made for a Stellar address under a secret that is not empty, sent as the dashboard
  -- cookie, is read back as that address under the same secret, exactly until a minute after its
  -- maximal age has passed.
  pub parse_dashboard_wallet-create_dashboard_session_token :
      (now : ℕ)
      → secret ≢ []
      → is_valid_stellar_address wallet ≡ true
      → parse_dashboard_wallet_from_cookie_header r (some header) secret now
        ≡ (if leb now (made + max_age + 60) then some wallet else none)
  unfolding parse_dashboard_wallet_from_cookie_header parse_wallet
  parse_dashboard_wallet-create_dashboard_session_token now h v =
      rw
        (
          read_cookie-header,
          token_wallet-cons token secret now token_not_nil h,
          parse_signed_payload-token,
          v,
        )
        refl
