-- ===== src/Auth/Guards.antt =====
-- The guards of src/common/guards. A guard returns what it attaches to the request, or throws.
use hypertron_api.Prelude.{
  ℕ, ◌+◌, ◌*◌, ◌/◌, max, String, List, [], ◌∷◌, ◌++◌, Option, none, some, Bool, true, false, any,
  if◌then◌else◌, ◌⊎◌, inl, inr,
}
use hypertron_api.Prelude.Text.{Text, starts_with, codes, text_eq, trim, to_lower_case}
use hypertron_api.Amount.{split}
use hypertron_api.Store.Tables.{Environment, MerchantSettings}
use hypertron_api.Store.Effects.{ok, M, ◌>>=◌}
use hypertron_api.Errors.{
  HypertronException, authentication_exception, permission_exception, truthy, or_else,
  RateLimitMeta,
}
use hypertron_api.ApiKeys.{Bcrypt, ApiKeyRecord, verify}
use hypertron_api.Auth.Tokens.{
  SessionRuntime, dashboard_session_cookie, parse_dashboard_wallet_from_cookie_header,
}

pub data UserRole : Type 0 where
  owner admin viewer : UserRole

pub record SessionUser : Type 0 where
  pub wallet_address : Text
  pub business_id : String
  pub role : UserRole

abbrev pub Guarded : Type 0 → Type 0
Guarded A = HypertronException ⊎ A

abbrev pub has_dashboard_cookie : Option Text → Bool
has_dashboard_cookie none = false
has_dashboard_cookie (some header) =
    any (λ e. starts_with (dashboard_session_cookie ++ b'=' ∷ []) (trim e)) (split b';' header)

abbrev pub no_session : Bool → HypertronException
no_session true =
    authentication_exception (codes "invalid_session_token")
      (codes "The Freighter session cookie is invalid or has expired.")
no_session false =
    authentication_exception (codes "missing_session_token")
      (codes "No Freighter session cookie. Sign in with Freighter on the dashboard first.")

unfoldable pub find_settings : Text → List MerchantSettings → Option MerchantSettings
find_settings wallet [] = none
find_settings wallet (s ∷ ss) =
    let rest = find_settings wallet ss in
    if text_eq (codes s.wallet_address) wallet then some s else rest

abbrev pub session_user : Text → Option MerchantSettings → Guarded SessionUser
session_user wallet none = inl (
    authentication_exception (codes "invalid_session_token") (
      codes
        "No merchant workspace for this wallet. Complete Freighter sign-in on the core app first."))
session_user wallet (some s) =
    inr (record { wallet_address = wallet; business_id = s.business_id; role = owner })

abbrev pub wallet_session : Bool → Option Text → List MerchantSettings → Guarded SessionUser
wallet_session cookie none settings = inl (no_session cookie)
wallet_session cookie (some []) settings = inl (no_session cookie)
wallet_session cookie (some (c ∷ cs)) settings =
    session_user (c ∷ cs) (find_settings (c ∷ cs) settings)

module _ (r : SessionRuntime) where
  unfoldable pub session_with : Text → Option Text → ℕ → List MerchantSettings → Guarded SessionUser
  unfolding parse_dashboard_wallet_from_cookie_header find_settings
  session_with [] cookie_header now settings = inl (
      authentication_exception (codes "server_misconfigured")
        (codes "AUTH_SECRET is not configured."))
  session_with (s ∷ ss) cookie_header now settings =
      wallet_session (has_dashboard_cookie cookie_header)
        (parse_dashboard_wallet_from_cookie_header r cookie_header (s ∷ ss) now) settings

  -- SessionGuard.canActivate; `auth_secret` is the configured one.
  unfoldable pub session_guard :
      Option Text → Option Text → ℕ → List MerchantSettings → Guarded SessionUser
  unfolding session_with trim
  session_guard auth_secret cookie_header now settings =
      session_with (trim (or_else auth_secret [])) cookie_header now settings

abbrev pub same_role : UserRole → UserRole → Bool
same_role owner owner = true
same_role admin admin = true
same_role viewer viewer = true
same_role _ _ = false

abbrev pub role_name : UserRole → Text
role_name owner = codes "owner"
role_name admin = codes "admin"
role_name viewer = codes "viewer"

abbrev pub role_names : List UserRole → Text
role_names [] = []
role_names (a ∷ []) = role_name a
role_names (a ∷ b ∷ rs) = role_name a ++ (codes ", " ++ role_names (b ∷ rs))

-- RolesGuard.canActivate, with the roles of the handler's or its class's `@Roles`.
unfoldable pub roles_guard : Option (List UserRole) → Option SessionUser → Guarded Bool
roles_guard none user = inr true
roles_guard (some []) user = inr true
roles_guard (some (r ∷ rs)) none = inl (
    permission_exception (codes "permission_denied")
      (codes "You do not have permission to perform this action."))
roles_guard (some (r ∷ rs)) (some user) =
    if any (same_role user.role) (r ∷ rs)
    then inr true
    else inl (
        permission_exception (codes "insufficient_role") (
          codes "This action requires one of the following roles: "
          ++ (role_names (r ∷ rs) ++ codes ".")))

unfoldable pub internal_token : Text → Text → Guarded Bool
internal_token [] provided = inl (
    authentication_exception (codes "server_misconfigured")
      (codes "INTERNAL_SERVICE_TOKEN is not configured."))
internal_token (c ∷ cs) provided =
    if text_eq provided (c ∷ cs)
    then inr true
    else inl (
        authentication_exception (codes "invalid_internal_token")
          (codes "Invalid internal service token."))

-- InternalServiceGuard.canActivate, with the configured token and the header `x-internal-token`.
unfoldable pub internal_service_guard : Option Text → Option Text → Guarded Bool
unfolding internal_token trim
internal_service_guard configured header =
    internal_token (trim (or_else configured [])) (trim (or_else header []))

pub record MerchantContext : Type 0 where
  pub business_id : String
  pub environment : Environment
  pub api_key_id : String

abbrev pub bearer : List Text → Option Text
bearer (scheme ∷ token ∷ _) =
    if text_eq (to_lower_case scheme) (codes "bearer") then truthy (some (trim token)) else none
bearer _ = none

-- The token of `Authorization: Bearer <token>`.
unfoldable pub extract_bearer_token : Option Text → Option Text
unfolding trim to_lower_case
extract_bearer_token none = none
extract_bearer_token (some []) = none
extract_bearer_token (some (c ∷ cs)) = bearer (split b' ' (c ∷ cs))

abbrev pub merchant_of : Option ApiKeyRecord → Guarded MerchantContext
merchant_of none = inl (
    authentication_exception (codes "invalid_api_key")
      (codes "The API key provided is invalid or has been revoked."))
merchant_of (some k) =
    inr (record {
      business_id = k.business_id;
      environment = k.environment;
      api_key_id = k.public_id;
    })

abbrev pub key_guard : Bcrypt → Option Text → ℕ → M (Guarded MerchantContext)
key_guard b none now w = (
  ok (
      inl (
        authentication_exception (codes "missing_api_key") (
          codes
            "No API key provided. Include your key in the Authorization header as: Bearer sk_<env>_<token>"))),
  w,
)
key_guard b (some raw_key) now w = (verify b raw_key now >>= (λ k v. (ok (merchant_of k), v))) w

-- ApiKeyGuard.canActivate.
unfoldable pub api_key_guard : Bcrypt → Option Text → ℕ → M (Guarded MerchantContext)
unfolding extract_bearer_token
api_key_guard b authorization now = key_guard b (extract_bearer_token authorization) now

abbrev pub tracker_address : Option Text → Option Text → Text
tracker_address ip remote = or_else (truthy ip) (or_else (truthy remote) (codes "unknown"))

abbrev pub tracker_user : Option Text → Option Text → Option Text → Text
tracker_user (some (c ∷ cs)) ip remote = codes "dashboard:" ++ (c ∷ cs)
tracker_user _ ip remote = codes "ip:" ++ tracker_address ip remote

-- HypertronThrottlerGuard.getTracker: the API key's id, the user's business id, the address.
unfoldable pub get_tracker : Option Text → Option Text → Option Text → Option Text → Text
get_tracker (some (c ∷ cs)) business_id ip remote = codes "apikey:" ++ (c ∷ cs)
get_tracker _ business_id ip remote = tracker_user business_id ip remote

-- HypertronThrottlerGuard.throwThrottlingException: what it attaches. The clock is in milliseconds,
-- `time_to_expire` in seconds.
unfoldable pub throttling_meta : ℕ → ℕ → Option Text → ℕ → RateLimitMeta
throttling_meta limit time_to_expire key now_ms = record {
  limit = limit;
  remaining = 0;
  reset_unix = (now_ms + time_to_expire * 1000) / 1000;
  retry_after_seconds = max 1 time_to_expire;
  group = or_else (truthy key) (codes "default");
}
