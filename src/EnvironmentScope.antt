-- ===== src/EnvironmentScope.antt =====
-- src/infrastructure/prisma/environment-scope.extension.ts: the check that a query of one merchant
-- names its environment. The arguments of a query are JSON values; none is `undefined`.
use hypertron_api.Prelude.{
  Bool, true, false, not, ◌&&◌, ◌||◌, Option, some, String, str_eq, if◌then◌else◌,
}
use hypertron_api.Prelude.Text.{codes, text_eq}
use hypertron_api.Errors.{Json, text, array, object, Items, nil, item, get, is_some}

-- ENV_SCOPED_MODELS.
abbrev pub env_scoped_models : String → Bool
env_scoped_models model =
    str_eq model "Payment"
    || str_eq model "ApiKey"
    || str_eq model "CheckoutLink"
    || str_eq model "WebhookEndpoint"

abbrev is_environment : Json → Bool
is_environment (text t) = text_eq t (codes "test") || text_eq t (codes "live")
is_environment _ = false

abbrev all_environments : Items → Bool
all_environments nil = true
all_environments (item j js) = is_environment j && all_environments js

-- `{ in: [...] }`, a list that is not empty.
abbrev lists_environments : Option Json → Bool
lists_environments (some (array (item j js))) = all_environments (item j js)
lists_environments _ = false

environment_given : Option Json → Bool
unfolding get
environment_given (some (text t)) = is_environment (text t)
environment_given (some (object fs)) = lists_environments (get (codes "in") fs)
environment_given _ = false

unfoldable pub has_environment : Option Json → Bool
unfolding environment_given get
has_environment (some (object fs)) = environment_given (get (codes "environment") fs)
has_environment _ = false

unfoldable pub has_business_id : Option Json → Bool
unfolding get
has_business_id (some (object fs)) = is_some (get (codes "businessId") fs)
has_business_id _ = false

abbrev is_text_value : Option Json → Bool
is_text_value (some (text t)) = true
is_text_value _ = false

unfoldable pub has_unique_public_id : Option Json → Bool
unfolding get
has_unique_public_id (some (object fs)) = is_text_value (get (codes "publicId") fs)
has_unique_public_id _ = false

-- Whether the query goes on; otherwise a MissingEnvironmentError is thrown. The operation, the
-- argument `where` and the argument `data`.
unfoldable pub assert_environment_scope : String → String → Option Json → Option Json → Bool
unfolding has_environment has_business_id has_unique_public_id
assert_environment_scope model operation filter values =
    if not (env_scoped_models model)
    then true
    else if str_eq operation "create"
    then has_environment values
    else not (
        has_business_id filter && not (has_environment filter) && not (has_unique_public_id filter))
