-- ===== src/Tests/Keys.antt =====
-- Examples for the API keys.
use hypertron_api.Prelude.{eq_iff, List, [], ◌∷◌, none, some, true, ◌≡◌, ◌≢◌, refl, arith}
use hypertron_api.Prelude.Text.{Text, codes, text_eq}
use hypertron_api.Store.Tables.{test, ApiKey}
use hypertron_api.Store.Effects.{World, ok}
use hypertron_api.Store.Rows.{Unique}
use hypertron_api.ApiKeys.{
  Bcrypt, ApiKeyRecord, GenerateKeyResult, KeyInput, generate_api_key, stripped, revoked, generate,
  verify, revoke,
}
use hypertron_api.ApiKeys.Calls.{Op, verifies, revokes, run_all}
use hypertron_api.ApiKeys.Lifecycle.{key_id, verify-revoke}
use hypertron_api.ApiKeys.Accept.{verify-generate}
use hypertron_api.Tests.Fixtures.{empty_world}

-- A hash that is the key itself.
abbrev pub bcrypt : Bcrypt
bcrypt = record { hash = λ raw rounds salt. raw; compare = text_eq }

abbrev raw : Text
raw = codes "sk_test_abcd"

abbrev pub other_raw : Text
other_raw = codes "sk_test_wxyz"

abbrev key : ApiKey
key = record {
  id = "k1";
  public_id = "key_1";
  business_id = "shop";
  name = "first";
  environment = test;
  key_prefix = codes "sk_test_";
  secret_hash = raw;
  last_four = codes "abcd";
  active = true;
  last_used_at = none;
  revoked_at = none;
  created_at = 1;
}

abbrev other_key : ApiKey
other_key = record key {
  id = "k2";
  public_id = "key_2";
  secret_hash = other_raw;
  last_four = codes "wxyz";
}

abbrev pub two_keys : World
two_keys = record empty_world { api_keys = key ∷ other_key ∷ [] }

two_keys-Unique : Unique key_id two_keys.api_keys
two_keys-Unique id = ground (arith, eq_iff "k1" id, eq_iff "k2" id, eq_iff "k1" "k2")

abbrev revoked_record : ApiKeyRecord
revoked_record = stripped (revoked 5 (record key { last_used_at = some 3 }))

abbrev other_record : ApiKeyRecord
other_record = stripped (record other_key { last_used_at = some 4 })

abbrev before : List Op
before = verifies raw 3 ∷ verifies other_raw 4 ∷ []

abbrev after : List Op
after = verifies raw 8 ∷ []

is_revoked : (revoke "key_1" "shop" 5 (run_all bcrypt before two_keys)).0 ≡ ok (some revoked_record)
unfolding revoke verify hypertron_api.Amount.split hypertron_api.ApiKeys.find_match
    hypertron_api.Store.Effects.update_by
is_revoked = refl

is_verified :
    (verify bcrypt other_raw 9
      (run_all bcrypt (revokes "key_1" "shop" 5 ∷ after) (run_all bcrypt before two_keys))).0
    ≡ ok (some other_record)
unfolding verify hypertron_api.Amount.split hypertron_api.ApiKeys.find_match revoke
    hypertron_api.Store.Effects.update_by
is_verified = refl

verify-revoke_example : other_record.id ≢ revoked_record.id
verify-revoke_example =
    verify-revoke bcrypt two_keys before after "key_1" "shop" 5 other_raw 9 revoked_record
      other_record two_keys-Unique is_revoked is_verified

abbrev input : KeyInput
input = record {
  token = codes "q_r";
  salt = [];
  salt_rounds = 12;
  row_id = "k3";
  ulid = "key_3";
  now = 7;
}

abbrev new_row : ApiKey
new_row = record key {
  id = "k3";
  public_id = "key_3";
  name = "third";
  key_prefix = codes "sk_test_";
  secret_hash = codes "sk_test_q_r";
  last_four = codes "_q_r";
  created_at = 7;
}

abbrev made : GenerateKeyResult
made = record { raw_key = codes "sk_test_q_r"; key = stripped new_row }

is_generated : (generate bcrypt "shop" "third" test input two_keys).0 ≡ ok made
unfolding generate hypertron_api.ApiKeys.get_key_prefix hypertron_api.Amount.split
is_generated = refl

verify-generate_example :
    (verify bcrypt (codes "sk_test_q_r") 9 (generate bcrypt "shop" "third" test input two_keys).1).0
    ≡ ok (some made.key)
verify-generate_example =
    verify-generate bcrypt "shop" "third" test input two_keys refl refl 9 made is_generated
