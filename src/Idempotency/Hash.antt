-- ===== src/Idempotency/Hash.antt =====
-- `hashBody`: JSON.stringify with the sorted keys of the body as its list of properties, then
-- SHA-256. The list holds for the objects inside the body too.
use hypertron_api.Prelude.Text.{Text}
use hypertron_api.Prelude.{
  ℕ, String, List, [], ◌∷◌, Option, none, some, Bool, true, false, str_eq, if◌then◌else◌, all,
}

mutual
  pub data Json : Type 0 where
    null : Json
    bool : Bool → Json
    num : ℕ → Json
    str : Text → Json
    arr : Items → Json
    obj : Fields → Json

  pub data Items : Type 0 where
    nil : Items
    cons : Json → Items → Items

  pub data Fields : Type 0 where
    end : Fields
    field : String → Json → Fields → Fields

unfoldable pub lookup : String → Fields → Option Json
lookup k end = none
lookup k (field j v fs) = if str_eq j k then some v else lookup k fs

-- `Object.keys`.
unfoldable pub keys : Fields → List String
keys end = []
keys (field k v fs) = k ∷ keys fs

-- The properties that are listed, in the order of the list.
unfoldable pub select : List String → Fields → Fields
unfolding lookup
select [] fs = end
select (k ∷ ks) fs =
    let rest = select ks fs in elim (lookup k fs) [ none ↦ rest | some v ↦ field k v rest ]

-- What of a value is written, under a list of properties.
unfoldable mutual
  unfolding select

  pub prune : List String → Json → Json
  prune ks null = null
  prune ks (bool b) = bool b
  prune ks (num n) = num n
  prune ks (str s) = str s
  prune ks (arr xs) = arr (prune_items ks xs)
  prune ks (obj fs) = obj (select ks (prune_fields ks fs))

  pub prune_items : List String → Items → Items
  prune_items ks nil = nil
  prune_items ks (cons x xs) = cons (prune ks x) (prune_items ks xs)

  pub prune_fields : List String → Fields → Fields
  prune_fields ks end = end
  prune_fields ks (field k v fs) = field k (prune ks v) (prune_fields ks fs)

-- `sort` orders texts by `leb`; `digest` is the SHA-256 digest, in hex, of the text of a value.
module _ (leb : String → String → Bool) (digest : Json → String) where
  unfoldable pub insert : String → List String → List String
  insert k [] = k ∷ []
  insert k (j ∷ js) = if leb k j then k ∷ j ∷ js else j ∷ insert k js

  unfoldable pub sort : List String → List String
  unfolding insert
  sort [] = []
  sort (k ∷ ks) = insert k (sort ks)

  unfoldable pub hash_body : Fields → String
  unfolding sort prune
  hash_body body = digest (prune (sort (keys body)) (obj body))

abbrev pub is_none {ℓ} : {A : Type ℓ} → Option A → Bool
is_none none = true
is_none (some _) = false

-- The properties of two objects, one after the other.
abbrev pub join : Fields → Fields → Fields
join end gs = gs
join (field k v fs) gs = field k v (join fs gs)

-- No property of the object is among these keys.
abbrev pub hidden : List String → Fields → Bool
hidden ks m = all (λ k. is_none (lookup k m)) ks
