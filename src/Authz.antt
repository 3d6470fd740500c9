-- ===== src/Authz.antt =====
-- nexusrag/services/authz: the condition language of the access policies (evaluator.py), the
-- policies and the document permissions (abac.py). This file holds the values of conditions and
-- contexts.
pub mod Compare
pub mod Operators
pub mod Evaluate
pub mod Validate
pub mod Laws
pub mod Duality
pub mod Policies
pub mod Acl
mod Examples
use nexus_rag.Prelude.{ℕ, String, str_eq, Bool, true, false, Option, none, some, if◌then◌else◌}
use nexus_rag.Prelude.Int.{ℤ}

-- A JSON value, or a tuple, which a context can hold. Numbers are integers. The keys of an object
-- are distinct; of two equal ones the first would count.
mutual
  pub data Value : Type 0 where
    null : Value
    bool : Bool → Value
    num : ℤ → Value
    str : String → Value
    arr : Items → Value
    tuple : Items → Value
    obj : Fields → Value

  pub data Items : Type 0 where
    nil : Items
    cons : Value → Items → Items

  pub data Fields : Type 0 where
    end : Fields
    field : String → Value → Fields → Fields

-- `d[key]`, where the key is there.
unfoldable pub get : String → Fields → Option Value
get k end = none
get k (field j v fs) = if str_eq j k then some v else get k fs

-- `d.get(key)`
unfoldable pub get_or_null : String → Fields → Value
unfolding get
get_or_null k fs = elim (get k fs) [ none ↦ null | some v ↦ v ]

abbrev pub is_some {ℓ} : {A : Type ℓ} → Option A → Bool
is_some none = false
is_some (some a) = true
