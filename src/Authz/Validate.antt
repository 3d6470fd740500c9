-- ===== src/Authz/Validate.antt =====
-- `validate_condition`, `_condition_depth` and `_validate_structure` of
-- nexusrag/services/authz/evaluator.py.
use nexus_rag.Prelude.{ℕ, ◌+◌, max, Option, none, some, ltb, if◌then◌else◌}
use nexus_rag.Authz.{Value, Items, null, bool, num, str, arr, tuple, obj, nil, cons, end, field}
use nexus_rag.Authz.Operators.{
  Operator, operator_of, all_of, any_of, not_, Reason, must_be_object, single_operator,
  unsupported_operator, expects_list,
}

-- What `validate_condition` raises.
pub data Complaint : Type 0 where
  too_complex : Complaint
  bad : Reason → Complaint

-- The branches on the operator, with what the payload gives as a list and as one condition.
unfoldable pub structure_of : Option Operator → Option Reason → Option Reason → Option Reason
structure_of none many one = some unsupported_operator
structure_of (some all_of) many one = many
structure_of (some any_of) many one = many
structure_of (some not_) many one = one
structure_of (some op) many one = none

abbrev pub first_reason : Option Reason → Option Reason → Option Reason
first_reason (some r) o = some r
first_reason none o = o

-- `_validate_structure`; `none` where it raises nothing.
unfoldable mutual
  pub validate_structure : Value → Option Reason
  validate_structure null = none
  validate_structure (bool b) = none
  validate_structure (num n) = some must_be_object
  validate_structure (str s) = some must_be_object
  validate_structure (arr xs) = some must_be_object
  validate_structure (tuple xs) = some must_be_object
  validate_structure (obj end) = some single_operator
  validate_structure (obj (field op payload end)) =
      structure_of (operator_of op) (validate_list payload) (validate_structure payload)
  validate_structure (obj (field op payload (field k v fs))) = some single_operator

  pub validate_list : Value → Option Reason
  validate_list (arr xs) = validate_items xs
  validate_list _ = some expects_list

  pub validate_items : Items → Option Reason
  validate_items nil = none
  validate_items (cons x xs) = first_reason (validate_structure x) (validate_items xs)

abbrev pub depth_of : Option Operator → ℕ → ℕ → ℕ → ℕ
depth_of (some all_of) many one flat = many
depth_of (some any_of) many one flat = many
depth_of (some not_) many one flat = one
depth_of _ many one flat = flat

-- `_condition_depth`
unfoldable mutual
  pub condition_depth : Value → ℕ → ℕ
  condition_depth null depth = depth
  condition_depth (bool b) depth = depth
  condition_depth (num n) depth = depth
  condition_depth (str s) depth = depth
  condition_depth (arr xs) depth = depth
  condition_depth (tuple xs) depth = depth
  condition_depth (obj end) depth = depth
  condition_depth (obj (field op payload end)) depth =
      depth_of (operator_of op) (depth_list payload (depth + 1))
        (condition_depth payload (depth + 1)) (depth + 1)
  condition_depth (obj (field op payload (field k v fs))) depth = depth

  -- The greatest depth of the entries, or the depth itself where there are none; no entry has less.
  pub depth_list : Value → ℕ → ℕ
  depth_list (arr xs) depth = depth_items xs depth
  depth_list _ depth = depth

  pub depth_items : Items → ℕ → ℕ
  depth_items nil depth = depth
  depth_items (cons x xs) depth = max (condition_depth x depth) (depth_items xs depth)

-- `validate_condition`
unfoldable pub validate_condition : Value → ℕ → Option Complaint
unfolding condition_depth validate_structure
validate_condition (obj end) max_depth = none
validate_condition v max_depth =
    if ltb max_depth (condition_depth v 1)
    then some too_complex
    else elim (validate_structure v) [ none ↦ none | some r ↦ some (bad r) ]
