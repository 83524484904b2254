-- ===== src/Customers.antt =====
-- src/modules/customers/customers.repository.ts: the customer of a payment.
pub mod Upsert
use hypertron_api.Prelude.{
  ℕ, String, List, [], ◌∷◌, ◌++◌, Option, none, some, Bool, true, false, ◌&&◌, str_eq, str_append,
  if◌then◌else◌,
}
use hypertron_api.Prelude.Text.{Text, codes, text_eq, to_lower_case, trim}
use hypertron_api.Store.Tables.{Customer}
use hypertron_api.Store.Effects.{World, Result, ok, M}

pub record UpsertParams : Type 0 where
  pub business_id : String
  pub email : Option Text
  pub name : Option String

-- The id of a new row and the ULID of its public id.
pub record NewId : Type 0 where
  pub row_id : String
  pub ulid : String

-- `email?.toLowerCase().trim() ?? null`.
abbrev pub normalised : Option Text → Option Text
normalised none = none
normalised (some e) = some (trim (to_lower_case e))

abbrev pub has_email : String → Text → Customer → Bool
has_email b e c = str_eq c.business_id b && elim c.email [ none ↦ false | some f ↦ text_eq f e ]

unfoldable pub find_customer : String → Text → List Customer → Option Customer
find_customer b e [] = none
find_customer b e (c ∷ cs) = if has_email b e c then some c else find_customer b e cs

-- An empty email is falsy, so it is not looked up.
existing : String → Option Text → List Customer → Option Customer
existing b none cs = none
existing b (some []) cs = none
existing b (some (c ∷ e)) cs = find_customer b (c ∷ e) cs

-- The defaults are those of the schema.
abbrev pub new_customer : UpsertParams → NewId → Customer
new_customer p i = record {
  id = i.row_id;
  public_id = str_append "cus_" i.ulid;
  business_id = p.business_id;
  email = normalised p.email;
  name = p.name;
  payment_count = 0;
  lifetime_value = codes "0.00";
  last_payment_at = none;
}

unfoldable pub upsert_by_email : UpsertParams → NewId → M Customer
unfolding existing
upsert_by_email p i w = elim (existing p.business_id (normalised p.email) w.customers) [
  | some c ↦ (ok c, w)
  | none ↦ (ok (new_customer p i), record w { customers = w.customers ++ new_customer p i ∷ [] })
]
