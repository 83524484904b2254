-- ===== src/Tests/Auth.antt =====
-- Examples for the guards.
use hypertron_api.Prelude.{
  ℕ, zero, suc, ◌∙◌, ◌+◌, [], ◌∷◌, Option, none, some, true, false, ◌≡◌, ◌≢◌, refl, inr, ap, arith,
  if◌then◌else◌, ◌==◌, all,
}
use hypertron_api.Prelude.Text.{Text, codes, trim}
use hypertron_api.Store.Tables.{test, MerchantSettings}
use hypertron_api.Store.Effects.{ok}
use hypertron_api.Crypto.{pos}
use hypertron_api.Errors.{or_else}
use hypertron_api.Auth.Tokens.{
  SessionPayload, SessionRuntime, is_valid_stellar_address,
  parse_dashboard_wallet_from_cookie_header,
}
use hypertron_api.Auth.Guards.{
  SessionUser, UserRole, MerchantContext, session_guard, api_key_guard, extract_bearer_token,
}
use hypertron_api.Auth.Cookie.{
  IsFaithful, is_base64url, header, parse_dashboard_wallet-create_dashboard_session_token,
}
use hypertron_api.Auth.Session.{IsAuthentic, session_guard-IsAuthentic}
use hypertron_api.Auth.Keys.{IsGranted, api_key_guard-IsGranted}
use hypertron_api.Tests.Keys.{bcrypt, two_keys}

-- A runtime whose payload is a line of `A` for each unit: each number stands as that many letters, and a
-- `B` after it. The MAC is one letter.
abbrev letters : ℕ → Text → Text
letters zero t = b'B' ∷ t
letters (suc n) t = b'A' ∷ letters n t

abbrev encode_text : Text → Text
encode_text [] = b'-' ∷ []
encode_text (c ∷ t) = letters c (encode_text t)

abbrev encode_payload : Text → ℕ → Text
encode_payload w e = letters e (encode_text w)

-- The count so far, to the numbers read.
abbrev decode_text : ℕ → Text → Text
decode_text n [] = []
decode_text n (c ∷ t) =
    let more = decode_text (suc n) t in
    let next = decode_text 0 t in if c == b'A' then more else if c == b'B' then n ∷ next else []

abbrev payload_of : Text → Option SessionPayload
payload_of [] = none
payload_of (e ∷ w) = some (record { w = some w; exp = some (pos e) })

abbrev runtime : SessionRuntime
runtime = record {
  encode_payload = encode_payload;
  decode_payload = λ t. payload_of (decode_text 0 t);
  sign = λ p s. codes "m";
  decode_uri_component = λ t. some t;
}

decode_text-letters : (k n : ℕ) (t : Text) → decode_text k (letters n t) ≡ (k + n) ∷ decode_text 0 t
decode_text-letters k zero t =
    let e : k ≡ k + 0 = omega arith in ap (λ (x : ℕ). x ∷ decode_text 0 t) e
decode_text-letters k (suc n) t =
    let e : suc k + n ≡ k + suc n = omega arith in
    decode_text-letters (suc k) n t ∙ ap (λ (x : ℕ). x ∷ decode_text 0 t) e

decode_text-encode_text : (w : Text) → decode_text 0 (encode_text w) ≡ w
decode_text-encode_text [] = refl
decode_text-encode_text (c ∷ w) =
    let e : 0 + c ≡ c = omega arith in
    decode_text-letters 0 c (encode_text w)
    ∙ ap (λ (x : ℕ). x ∷ decode_text 0 (encode_text w)) e
    ∙ ap (λ t. c ∷ t) (decode_text-encode_text w)

letters-chars :
    (n : ℕ) (t : Text) → all is_base64url t ≡ true → all is_base64url (letters n t) ≡ true
letters-chars zero t h = h
letters-chars (suc n) t h = letters-chars n t h

encode_text-chars : (w : Text) → all is_base64url (encode_text w) ≡ true
encode_text-chars [] = refl
encode_text-chars (c ∷ w) = letters-chars c (encode_text w) (encode_text-chars w)

letters_not_nil : (n : ℕ) (t : Text) → letters n t ≢ []
letters_not_nil zero t h = absurd (let e : false ≡ true = cc in cc)
letters_not_nil (suc n) t h = absurd (let e : false ≡ true = cc in cc)

runtime-IsFaithful : IsFaithful runtime
runtime-IsFaithful = record {
  decode = λ w e. ap payload_of (decode_text-letters 0 e (encode_text w) ∙ decoded e w);
  payload_chars = λ w e. letters-chars e (encode_text w) (encode_text-chars w);
  payload_length = λ w e. letters_not_nil e (encode_text w);
  mac_chars = λ p s. refl;
  mac_length = λ p s h. absurd (let e : false ≡ true = cc in cc);
  component = λ t h. refl;
}
  where
    decoded : (e : ℕ) (w : Text) → (0 + e) ∷ decode_text 0 (encode_text w) ≡ e ∷ w
    decoded e w =
        let k : 0 + e ≡ e = omega arith in
        ap (λ (x : ℕ). x ∷ decode_text 0 (encode_text w)) k
        ∙ ap (λ t. e ∷ t) (decode_text-encode_text w)

abbrev wallet : Text
wallet = codes "GAAAAAAAAAAAAAAAAAAAAAAAAAAAAAAAAAAAAAAAAAAAAAAAAAAAAWHF"

abbrev cookie : Text
cookie = header runtime runtime-IsFaithful wallet (codes "key") 50 100

secret_not_nil : codes "key" ≢ []
secret_not_nil h = absurd (let e : false ≡ true = cc in cc)

is_address : is_valid_stellar_address wallet ≡ true
unfolding is_valid_stellar_address
is_address = refl

parse_dashboard_wallet-create_dashboard_session_token_example :
    parse_dashboard_wallet_from_cookie_header runtime (some cookie) (codes "key") 180 ≡ some wallet
parse_dashboard_wallet-create_dashboard_session_token_example =
    parse_dashboard_wallet-create_dashboard_session_token runtime runtime-IsFaithful wallet
      (codes "key") 50 100 180 secret_not_nil is_address

abbrev settings : MerchantSettings
settings = record {
  business_id = "shop";
  wallet_address = "GAAAAAAAAAAAAAAAAAAAAAAAAAAAAAAAAAAAAAAAAAAAAAAAAAAAAWHF";
  receive_address = none;
}

abbrev user : SessionUser
user = record { wallet_address = wallet; business_id = "shop"; role = UserRole.owner }

abbrev short_runtime : SessionRuntime
short_runtime = record runtime {
  decode_payload = λ t. some (record { w = some wallet; exp = some (pos 150) });
}

lets_in :
    session_guard short_runtime
      (some (codes "key"))
      (some (codes "a=1; ht_dashboard=p.m"))
      180
      (settings ∷ [])
    ≡ inr user
unfolding session_guard hypertron_api.Amount.split
lets_in = refl

session_guard-IsAuthentic_example :
    (trim (or_else (some (codes "key")) []) ≢ [])
    × IsAuthentic short_runtime
        (trim (or_else (some (codes "key")) []))
        (some (codes "a=1; ht_dashboard=p.m"))
        180
        (settings ∷ [])
        user
session_guard-IsAuthentic_example =
    session_guard-IsAuthentic short_runtime (some (codes "a=1; ht_dashboard=p.m")) 180
      (settings ∷ []) user (some (codes "key")) lets_in

abbrev context : MerchantContext
context = record { business_id = "shop"; environment = test; api_key_id = "key_2" }

abbrev authorization : Option Text
authorization = some (codes "Bearer sk_test_wxyz")

lets_key_in : (api_key_guard bcrypt authorization 5 two_keys).0 ≡ ok (inr context)
unfolding api_key_guard hypertron_api.Amount.split hypertron_api.ApiKeys.verify
    hypertron_api.ApiKeys.find_match
lets_key_in = refl

api_key_guard-IsGranted_example :
    IsGranted bcrypt (extract_bearer_token authorization) two_keys.api_keys context
api_key_guard-IsGranted_example =
    api_key_guard-IsGranted bcrypt 5 two_keys context authorization lets_key_in
