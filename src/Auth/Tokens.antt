-- ===== src/Auth/Tokens.antt =====
-- The session cookie of the dashboard: src/common/auth/dashboard-session.ts. Base64url, JSON,
-- HMAC-SHA256 and `decodeURIComponent` belong to the runtime and are arguments.
use hypertron_api.Prelude.{
  ℕ, suc, ◌+◌, ◌*◌, List, [], ◌∷◌, ◌++◌, Option, none, some, Bool, false, ◌&&◌, leb, ◌==◌, length,
  if◌then◌else◌,
}
use hypertron_api.Prelude.Text.{starts_with, Text, codes, text_eq, trim}
use hypertron_api.Amount.{split}
use hypertron_api.Crypto.{ℤ, pos, negsuc}

-- A JSON object that is signed, by its fields `w`, where it is a text, and `exp`, where it is a
-- number (rounded down).
pub record SessionPayload : Type 0 where
  pub w : Option Text
  pub exp : Option ℤ

pub record SessionRuntime : Type 0 where
  -- The JSON of `{ w, exp }` in base64url.
  pub encode_payload : Text → ℕ → Text
  -- The object of a base64url text of JSON; none where it is no JSON or no object.
  pub decode_payload : Text → Option SessionPayload
  -- The payload and the secret, to the base64url text of the MAC.
  pub sign : Text → Text → Text
  pub decode_uri_component : Text → Option Text

abbrev pub dashboard_session_cookie : Text
dashboard_session_cookie = codes "ht_dashboard"

abbrev pub session_max_age_seconds : ℕ
session_max_age_seconds = 60 * 60 * 24 * 7

unfoldable pub is_valid_stellar_address : Text → Bool
is_valid_stellar_address value = length value == 56 && starts_with (codes "G") value

-- `join('=')`.
abbrev pub join : ℕ → List Text → Text
join sep [] = []
join sep (t ∷ []) = t
join sep (t ∷ u ∷ ts) = t ++ sep ∷ join sep (u ∷ ts)

-- `value >= now - 60`.
abbrev pub has_valid_expiration : ℕ → Option ℤ → Bool
has_valid_expiration now none = false
has_valid_expiration now (some (pos e)) = leb now (e + 60)
has_valid_expiration now (some (negsuc e)) = leb (now + suc e) 60

abbrev pub checked_wallet : ℕ → Option Text → Option ℤ → Option Text
checked_wallet now none exp = none
checked_wallet now (some w) exp =
    if is_valid_stellar_address w && has_valid_expiration now exp then some w else none

unfoldable pub parse_wallet : Option SessionPayload → ℕ → Option Text
unfolding is_valid_stellar_address
parse_wallet none now = none
parse_wallet (some payload) now = checked_wallet now payload.w payload.exp

module _ (r : SessionRuntime) where
  -- `now` is the clock in seconds.
  unfoldable pub create_dashboard_session_token : Text → Text → ℕ → ℕ → Text
  create_dashboard_session_token wallet_address secret max_age_seconds now =
      let encoded = r.encode_payload wallet_address (now + max_age_seconds) in
      encoded ++ b'.' ∷ r.sign encoded secret

  -- The parts of a token; an empty part or another number of them is none.
  unfoldable pub parse_parts : List Text → Text → Option SessionPayload
  parse_parts ((p ∷ ps) ∷ (s ∷ ss) ∷ []) secret =
      if text_eq (s ∷ ss) (r.sign (p ∷ ps) secret) then r.decode_payload (p ∷ ps) else none
  parse_parts _ secret = none

  unfoldable pub parse_signed_payload : Text → Text → Option SessionPayload
  unfolding parse_parts
  parse_signed_payload token secret = parse_parts (split b'.' token) secret

  abbrev pub cookie_value : List Text → Text → Option Text → Option Text
  cookie_value [] name rest = rest
  cookie_value (raw_name ∷ raw_value) name rest =
      if text_eq raw_name name then r.decode_uri_component (join b'=' raw_value) else rest

  unfoldable pub read_entries : List Text → Text → Option Text
  read_entries [] name = none
  read_entries (e ∷ es) name =
      let rest = read_entries es name in cookie_value (split b'=' (trim e)) name rest

  abbrev pub read_cookie : Option Text → Text → Option Text
  read_cookie none name = none
  read_cookie (some []) name = none
  read_cookie (some (c ∷ cs)) name = read_entries (split b';' (c ∷ cs)) name

  unfoldable pub token_wallet : Option Text → Text → ℕ → Option Text
  unfolding parse_wallet parse_signed_payload
  token_wallet none secret now = none
  token_wallet (some []) secret now = none
  token_wallet (some (t ∷ ts)) [] now = none
  token_wallet (some (t ∷ ts)) (s ∷ ss) now =
      parse_wallet (parse_signed_payload (t ∷ ts) (s ∷ ss)) now

  unfoldable pub parse_dashboard_wallet_from_cookie_header : Option Text → Text → ℕ → Option Text
  unfolding token_wallet read_entries
  parse_dashboard_wallet_from_cookie_header cookie_header secret now =
      token_wallet (read_cookie cookie_header dashboard_session_cookie) secret now
