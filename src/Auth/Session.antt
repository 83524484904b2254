-- ===== src/Auth/Session.antt =====
-- A request that passes the session guard carries a token that was signed under the secret.
use mathlib.Core.Path.{subst}
use hypertron_api.Prelude.{
  ℕ, List, [], ◌∷◌, Option, none, some, Bool, true, false, ◌&&◌, ◌≡◌, ◌≢◌, refl, sym, ap, arith,
  Bool-cases, inl, inr,
}
use hypertron_api.Prelude.Text.{Text, text_eq, text_eq_sound, trim}
use hypertron_api.Amount.{split}
use hypertron_api.Crypto.{ℤ}
use hypertron_api.Errors.{or_else}
use hypertron_api.Store.Tables.{MerchantSettings}
use hypertron_api.Auth.Tokens.{
  SessionRuntime, SessionPayload, dashboard_session_cookie, is_valid_stellar_address,
  has_valid_expiration, parse_parts, parse_signed_payload, read_cookie, checked_wallet,
  parse_wallet, token_wallet, parse_dashboard_wallet_from_cookie_header,
}
use hypertron_api.Auth.Guards.{
  SessionUser, find_settings, session_user, wallet_session, has_dashboard_cookie, session_with,
  session_guard,
}

-- A token of a wallet: it is two parts, the second is the MAC of the first under the secret, and the
-- first names the wallet and a time that is no more than a minute before the clock.
pub record IsToken (r : SessionRuntime) (secret : Text) (now : ℕ) (token : Option Text)
    (wallet : Text) : Type 0 where
  pub text : Text
  pub encoded : Text
  pub payload : SessionPayload
  pub sent : token ≡ some text
  pub parts : split b'.' text ≡ encoded ∷ r.sign encoded secret ∷ []
  pub decoded : r.decode_payload encoded ≡ some payload
  pub names : payload.w ≡ some wallet
  pub address : is_valid_stellar_address wallet ≡ true
  pub in_time : has_valid_expiration now payload.exp ≡ true

module _ (r : SessionRuntime) (secret : Text) (now : ℕ) where
  -- What two parts of a token come to.
  record IsSigned (parts : List Text) (payload : SessionPayload) : Type 0 where
    encoded : Text
    parts_are : parts ≡ encoded ∷ r.sign encoded secret ∷ []
    decoded : r.decode_payload encoded ≡ some payload

  parse_parts-IsSigned :
      (parts : List Text) (payload : SessionPayload)
      → parse_parts r parts secret ≡ some payload
      → IsSigned parts payload
  unfolding parse_parts
  parse_parts-IsSigned [] payload h = absurd (let e : false ≡ true = ground arith in cc)
  parse_parts-IsSigned ([] ∷ ps) payload h = absurd (let e : false ≡ true = ground arith in cc)
  parse_parts-IsSigned ((p ∷ ps) ∷ []) payload h =
      absurd (let e : false ≡ true = ground arith in cc)
  parse_parts-IsSigned ((p ∷ ps) ∷ [] ∷ qs) payload h =
      absurd (let e : false ≡ true = ground arith in cc)
  parse_parts-IsSigned ((p ∷ ps) ∷ (s ∷ ss) ∷ q ∷ qs) payload h =
      absurd (let e : false ≡ true = ground arith in cc)
  parse_parts-IsSigned ((p ∷ ps) ∷ (s ∷ ss) ∷ []) payload h =
      elim (Bool-cases (text_eq (s ∷ ss) (r.sign (p ∷ ps) secret))) [
        | inl t ↦ record {
          encoded = p ∷ ps;
          parts_are =
              ap (λ x. (p ∷ ps) ∷ x ∷ []) (text_eq_sound (s ∷ ss) (r.sign (p ∷ ps) secret) t);
          decoded = ground (arith, t);
        }
        | inr f ↦ absurd (let e : false ≡ true = ground (arith, f) in cc)
      ]

  payload-IsToken :
      (text wallet : Text) (o : Option SessionPayload)
      → parse_signed_payload r text secret ≡ o
      → parse_wallet o now ≡ some wallet
      → IsToken r secret now (some text) wallet
  unfolding parse_wallet parse_signed_payload
  payload-IsToken text wallet none e h = absurd (let e : false ≡ true = ground arith in cc)
  payload-IsToken text wallet (some payload) e h =
      let s : IsSigned (split b'.' text) payload =
        parse_parts-IsSigned (split b'.' text) payload e in
      let (n, a, t) = checked payload.w payload.exp h in
      record {
        text = text;
        encoded = s.encoded;
        payload = payload;
        sent = refl;
        parts = s.parts_are;
        decoded = s.decoded;
        names = n;
        address = a;
        in_time = t;
      }
    where
      checked :
          (o : Option Text) (exp : Option ℤ)
          → checked_wallet now o exp ≡ some wallet
          → (o ≡ some wallet)
            × (is_valid_stellar_address wallet ≡ true)
            × (has_valid_expiration now exp ≡ true)
      checked none exp h = absurd (let e : false ≡ true = ground arith in cc)
      checked (some w) exp h =
          elim (Bool-cases (is_valid_stellar_address w && has_valid_expiration now exp)) [
            | inl t ↦ (ground (arith, t), ground (arith, t), ground (arith, t))
            | inr f ↦ absurd (let e : false ≡ true = ground (arith, f) in cc)
          ]

  token_wallet-IsToken :
      (token : Option Text) (wallet : Text)
      → token_wallet r token secret now ≡ some wallet
      → IsToken r secret now token wallet
  unfolding token_wallet
  token_wallet-IsToken none wallet h = absurd (let e : false ≡ true = ground arith in cc)
  token_wallet-IsToken (some []) wallet h = absurd (let e : false ≡ true = ground arith in cc)
  token_wallet-IsToken (some (t ∷ ts)) wallet h =
      payload-IsToken (t ∷ ts) wallet (parse_signed_payload r (t ∷ ts) secret) refl (given secret h)
    where
      given :
          (secret : Text)
          → token_wallet r (some (t ∷ ts)) secret now ≡ some wallet
          → parse_wallet (parse_signed_payload r (t ∷ ts) secret) now ≡ some wallet
      given [] h = absurd (let e : false ≡ true = ground arith in cc)
      given (c ∷ cs) h = h

-- The user of a session: the wallet of a token in the cookie, and the merchant of its settings.
pub record IsAuthentic (r : SessionRuntime) (secret : Text) (cookie_header : Option Text) (now : ℕ)
    (settings : List MerchantSettings) (user : SessionUser) : Type 0 where
  pub row : MerchantSettings
  pub token :
      IsToken r secret now
        (read_cookie r cookie_header dashboard_session_cookie)
        user.wallet_address
  pub workspace : find_settings user.wallet_address settings ≡ some row
  pub business_id : user.business_id ≡ row.business_id

module _ (r : SessionRuntime) (cookie_header : Option Text) (now : ℕ)
    (settings : List MerchantSettings) (user : SessionUser) where
  session_user_of :
      (wallet : Text) (o : Option MerchantSettings)
      → session_user wallet o ≡ inr user
      → (row : MerchantSettings) × (o ≡ some row)
        × (user.wallet_address ≡ wallet)
        × (user.business_id ≡ row.business_id)
  session_user_of wallet none h = absurd (let e : false ≡ true = ground arith in cc)
  session_user_of wallet (some row) h = (row, refl, ground arith, ground arith)

  wallet_session-IsAuthentic :
      (secret : Text) (cookie : Bool) (o : Option Text)
      → parse_dashboard_wallet_from_cookie_header r cookie_header secret now ≡ o
      → wallet_session cookie o settings ≡ inr user
      → IsAuthentic r secret cookie_header now settings user
  unfolding parse_dashboard_wallet_from_cookie_header
  wallet_session-IsAuthentic secret cookie none e h =
      absurd (let e : false ≡ true = ground arith in cc)
  wallet_session-IsAuthentic secret cookie (some []) e h =
      absurd (let e : false ≡ true = ground arith in cc)
  wallet_session-IsAuthentic secret cookie (some (c ∷ cs)) e h =
      let (row, found, w, b) = session_user_of (c ∷ cs) (find_settings (c ∷ cs) settings) h in
      record {
        row = row;
        token =
            subst
              (λ (x : Text).
                IsToken r secret now (read_cookie r cookie_header dashboard_session_cookie) x)
              (sym w) (token_wallet-IsToken r secret now _ (c ∷ cs) e);
        workspace = rw w found;
        business_id = b;
      }

  session_with-IsAuthentic :
      (secret : Text)
      → session_with r secret cookie_header now settings ≡ inr user
      → (secret ≢ []) × IsAuthentic r secret cookie_header now settings user
  unfolding session_with
  session_with-IsAuthentic [] h = absurd (let e : false ≡ true = ground arith in cc)
  session_with-IsAuthentic (s ∷ ss) h = (
    λ e. absurd (let f : false ≡ true = ground arith in cc),
    wallet_session-IsAuthentic (s ∷ ss) (has_dashboard_cookie cookie_header)
        (parse_dashboard_wallet_from_cookie_header r cookie_header (s ∷ ss) now) refl h,
  )

  -- A request that the session guard lets through carries a cookie with a token that the configured
  -- secret, which is not empty, has signed, that names a Stellar address and has not expired for more
  -- than a minute; the user has that address and the merchant of the address's settings.
  pub session_guard-IsAuthentic :
      (auth_secret : Option Text)
      → session_guard r auth_secret cookie_header now settings ≡ inr user
      → (trim (or_else auth_secret []) ≢ [])
        × IsAuthentic r (trim (or_else auth_secret [])) cookie_header now settings user
  unfolding session_guard
  session_guard-IsAuthentic auth_secret h =
      session_with-IsAuthentic (trim (or_else auth_secret [])) h
