-- ===== src/ApiKeys.antt =====
-- The life of an API key: src/modules/auth/api-key.service.ts over
-- src/modules/auth/api-key.repository.ts, with the format of a key from
-- src/common/utils/crypto.util.ts. bcrypt is an argument, as are the token and the ids that are drawn.
pub mod Calls
pub mod Lifecycle
pub mod Accept
use hypertron_api.Prelude.{
  ℕ, ◌+◌, ◌-◌, String, List, [], ◌∷◌, ◌++◌, Option, none, some, Bool, true, false, not, ◌&&◌, ◌||◌,
  ltb, str_eq, any, map, filter, length, drop, if◌then◌else◌,
}
use mathlib.Core.Option
use hypertron_api.Prelude.Text.{Text, codes, text_eq}
use hypertron_api.Store.Tables.{Environment, test, live, ApiKey}
use hypertron_api.Store.Effects.{
  World, unique_violation, other_error, Result, ok, err, M, ◌>>=◌, ◌>>◌, return, throw, find_by,
  update_by,
}
use hypertron_api.Amount.{split}
use hypertron_api.Payments.Create.{env_eq}

pub record Bcrypt : Type 0 where
  -- The text, the rounds and the salt that is drawn.
  pub hash : Text → ℕ → Text → Text
  pub compare : Text → Text → Bool

abbrev pub environment_name : Environment → Text
environment_name test = codes "test"
environment_name live = codes "live"

-- `token` is the base64url text of 32 random bytes.
abbrev pub generate_api_key : Environment → Text → Text
generate_api_key e token = codes "sk_" ++ (environment_name e ++ b'_' ∷ token)

-- `slice(-4)`.
abbrev pub get_key_last_four : Text → Text
get_key_last_four raw_key = drop (length raw_key - 4) raw_key

abbrev prefix_of : List Text → Option Text
prefix_of (a ∷ b ∷ c ∷ rest) = some (a ++ b'_' ∷ (b ++ b'_' ∷ []))
prefix_of _ = none

-- A throw is `none`.
unfoldable pub get_key_prefix : Text → Option Text
get_key_prefix raw_key = prefix_of (split b'_' raw_key)

-- A row without its hash.
pub record ApiKeyRecord : Type 0 where
  pub id : String
  pub public_id : String
  pub business_id : String
  pub name : String
  pub environment : Environment
  pub key_prefix : Text
  pub last_four : Text
  pub active : Bool
  pub last_used_at : Option ℕ
  pub revoked_at : Option ℕ
  pub created_at : ℕ

abbrev pub stripped : ApiKey → ApiKeyRecord
stripped k = record {
  id = k.id;
  public_id = k.public_id;
  business_id = k.business_id;
  name = k.name;
  environment = k.environment;
  key_prefix = k.key_prefix;
  last_four = k.last_four;
  active = k.active;
  last_used_at = k.last_used_at;
  revoked_at = k.revoked_at;
  created_at = k.created_at;
}

pub record GenerateKeyResult : Type 0 where
  pub raw_key : Text
  pub key : ApiKeyRecord

-- What the outside draws for a new key, and the clock.
pub record KeyInput : Type 0 where
  pub token : Text
  pub salt : Text
  pub salt_rounds : ℕ
  pub row_id : String
  pub ulid : String
  pub now : ℕ

-- The primary key of the table, and its unique public id.
abbrev pub same_id : ApiKey → ApiKey → Bool
same_id k j = str_eq j.id k.id || str_eq j.public_id k.public_id

unfoldable pub create_key : ApiKey → M ApiKey
create_key k w =
    if any (same_id k) w.api_keys
    then (err unique_violation, w)
    else (ok k, record w { api_keys = w.api_keys ++ k ∷ [] })

abbrev pub key_or_throw : Option ApiKey → M ApiKey
key_or_throw none = throw (other_error "Invalid API key format")
key_or_throw (some k) = return k

-- `findActiveByPrefix`.
abbrev pub is_candidate : Text → ApiKey → Bool
is_candidate p k = text_eq k.key_prefix p && k.active

abbrev pub used : ℕ → ApiKey → ApiKey
used now k = record k { last_used_at = some now }

-- `touchLastUsed`; an error of it is swallowed.
abbrev pub touched : ℕ → String → List ApiKey → List ApiKey
touched now id = update_by (λ k. k.id) id (used now)

unfoldable pub verified : ℕ → Option ApiKey → M (Option ApiKeyRecord)
verified now none w = (ok none, w)
verified now (some k) w =
    (ok (some (stripped k)), record w { api_keys = touched now k.id w.api_keys })

module _ (b : Bcrypt) where
  abbrev pub made_key : String → String → Environment → KeyInput → Text → ApiKey
  made_key business_id name e i p = record {
    id = i.row_id;
    public_id = i.ulid;
    business_id = business_id;
    name = name;
    environment = e;
    key_prefix = p;
    secret_hash = b.hash (generate_api_key e i.token) i.salt_rounds i.salt;
    last_four = get_key_last_four (generate_api_key e i.token);
    active = true;
    last_used_at = none;
    revoked_at = none;
    created_at = i.now;
  }

  -- The row of a new key; none where its prefix cannot be read off it.
  abbrev pub new_key : String → String → Environment → KeyInput → Option ApiKey
  new_key business_id name e i =
      Option.map (made_key business_id name e i) (get_key_prefix (generate_api_key e i.token))

  unfoldable pub generate : String → String → Environment → KeyInput → M GenerateKeyResult
  unfolding create_key
  generate business_id name e i = do
    k ← key_or_throw (new_key business_id name e i)
    created ← create_key k
    return (record { raw_key = generate_api_key e i.token; key = stripped created })

  -- The first candidate whose hash the raw key has.
  unfoldable pub find_match : Text → Text → List ApiKey → Option ApiKey
  find_match raw_key p [] = none
  find_match raw_key p (k ∷ ks) =
      let rest = find_match raw_key p ks in
      if is_candidate p k && b.compare raw_key k.secret_hash then some k else rest

  unfoldable pub matching : Text → ℕ → Option Text → M (Option ApiKeyRecord)
  unfolding verified
  matching raw_key now none w = (ok none, w)
  matching raw_key now (some p) w = verified now (find_match raw_key p w.api_keys) w

  unfoldable pub verify : Text → ℕ → M (Option ApiKeyRecord)
  unfolding matching get_key_prefix
  verify raw_key now = matching raw_key now (get_key_prefix raw_key)

-- `findFirst` by public id and merchant, and the same among the active keys.
abbrev pub is_key_of : String → String → ApiKey → Bool
is_key_of public_id business_id k = str_eq k.public_id public_id && str_eq k.business_id business_id

unfoldable pub find_first : (ApiKey → Bool) → List ApiKey → Option ApiKey
find_first p [] = none
find_first p (k ∷ ks) = let rest = find_first p ks in if p k then some k else rest

abbrev pub revoked : ℕ → ApiKey → ApiKey
revoked now k = record k { active = false; revoked_at = some now }

abbrev pub is_active_key_of : String → String → ApiKey → Bool
is_active_key_of public_id business_id k = is_key_of public_id business_id k && k.active

abbrev revoke_row : ℕ → Option ApiKey → M (Option ApiKeyRecord)
revoke_row now none w = (ok none, w)
revoke_row now (some k) w = (
  ok (some (stripped (revoked now k))),
  record w { api_keys = update_by (λ j. j.id) k.id (revoked now) w.api_keys },
)

unfoldable pub revoke : String → String → ℕ → M (Option ApiKeyRecord)
unfolding find_first
revoke public_id business_id now w =
    revoke_row now (find_first (is_active_key_of public_id business_id) w.api_keys) w

abbrev pub rolled_back : World → Result ApiKey × World → Result ApiKey × World
rolled_back w (ok k, w') = (ok k, w')
rolled_back w (err e, w') = (err e, w)

-- A transaction: an error leaves the rows that it started from.
abbrev pub in_transaction : M ApiKey → M ApiKey
in_transaction m w = rolled_back w (m w)

-- The old key is revoked and the new one is created, or neither is.
unfoldable pub replace_key : ℕ → ApiKey → ApiKey → M ApiKey
unfolding create_key
replace_key now old k = in_transaction (λ w.
    create_key k (record w { api_keys = update_by (λ j. j.id) old.id (revoked now) w.api_keys }))

module _ (b : Bcrypt) where
  -- `old` is read twice: by the service, and by the repository among the active keys.
  rotate_rows : String → KeyInput → Option ApiKey → Option ApiKey → M (Option GenerateKeyResult)
  rotate_rows name i none active w = (ok none, w)
  rotate_rows name i (some old) none w = (ok none, w)
  rotate_rows name i (some old) (some active) w =
      (if old.active
          then (do
            k ← key_or_throw (new_key b old.business_id name old.environment i)
            created ← replace_key i.now active k
            return (
                some (record {
                  raw_key = generate_api_key old.environment i.token;
                  key = stripped created;
                })))
          else return none)
        w

  unfoldable pub rotate : String → String → String → KeyInput → M (Option GenerateKeyResult)
  unfolding rotate_rows find_first
  rotate public_id business_id name i w =
      rotate_rows name i (find_first (is_key_of public_id business_id) w.api_keys)
        (find_first (is_active_key_of public_id business_id) w.api_keys) w

-- `orderBy: { createdAt: 'desc' }`; keys of one date stay in the order of the table.
unfoldable pub insert_key : ApiKey → List ApiKey → List ApiKey
insert_key k [] = k ∷ []
insert_key k (j ∷ js) =
    let rest = insert_key k js in if ltb k.created_at j.created_at then j ∷ rest else k ∷ j ∷ js

unfoldable pub order_keys : List ApiKey → List ApiKey
unfolding insert_key
order_keys [] = []
order_keys (k ∷ ks) = insert_key k (order_keys ks)

abbrev in_scope : Option Environment → ApiKey → Bool
in_scope none k = true
in_scope (some e) k = env_eq k.environment e

abbrev is_listed : List String → Option Environment → ApiKey → Bool
is_listed business_ids environment k =
    any (λ id. str_eq k.business_id id) business_ids && k.active && in_scope environment k

-- The active keys of some merchants, without their hashes; no environment is both.
unfoldable pub find_all_for_business_ids : List String → Option Environment → M (List ApiKeyRecord)
unfolding order_keys
find_all_for_business_ids business_ids environment w =
    (ok (map stripped (order_keys (filter (is_listed business_ids environment) w.api_keys))), w)

abbrev pub list_for_business : String → Option Environment → M (List ApiKeyRecord)
list_for_business business_id environment = find_all_for_business_ids (business_id ∷ []) environment
