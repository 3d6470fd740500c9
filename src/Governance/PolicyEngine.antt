-- ===== src/Governance/PolicyEngine.antt =====
-- nexusrag/services/policy_engine.py: the rules of a tenant, their conditions and actions, and the
-- decision that the first matching rule makes. JSON values and Python's `str` are those of the
-- access policies.
pub mod Decide
pub mod Precedence
pub mod Deny
mod Examples
use Prim.Native.Char.{code}
use text.Mathlib.Text.{starts_with}
use nexus_rag.Prelude.{
  ℕ, zero, String, str_eq, Bool, true, false, not, ◌&&◌, ◌||◌, Option, none, some, List, [], ◌∷◌,
  ◌++◌, ltb, ◌==◌, if◌then◌else◌,
}
use nexus_rag.Prelude.Int.{ℤ, pos, ltb_ℤ, eqb_ℤ}
use nexus_rag.Prelude.Tables.{elem, filter}
use nexus_rag.Authz.{
  Value, Items, Fields, null, bool, num, str, arr, tuple, obj, nil, cons, end, field, get,
  get_or_null,
}
use nexus_rag.Authz.Compare.{py_eq}
use nexus_rag.Authz.Operators.{Host, text_of}

pub record PolicyRule : Type 0 where
  pub id : ℕ
  pub tenant_id : Option String
  pub rule_key : String
  pub enabled : Bool
  pub priority : ℤ
  pub condition_json : Value
  pub action_json : Value

pub record PolicyDecision : Type 0 where
  pub allowed : Bool
  pub action : String
  pub rule_id : Option ℕ
  pub message : Option String
  pub code : Option String
  pub redact_fields : List String
  pub require_approval : Bool
  pub force_legal_hold_check : Bool
  pub require_encryption : Bool

-- No rule matches, or the engine is off.
abbrev pub default_allow : PolicyDecision
default_allow = record {
  allowed = true;
  action = "allow";
  rule_id = none;
  message = none;
  code = none;
  redact_fields = [];
  require_approval = false;
  force_legal_hold_check = false;
  require_encryption = false;
}

-- `bool(value)`
abbrev pub truthy : Value → Bool
truthy null = false
truthy (bool b) = b
truthy (num (pos zero)) = false
truthy (str String.[]) = false
truthy (arr nil) = false
truthy (tuple nil) = false
truthy (obj end) = false
truthy _ = true

unfoldable pub letters : String → List String
letters String.[] = []
letters (String.◌∷◌ c s) = String.◌∷◌ c String.[] ∷ letters s

unfoldable pub keys : Fields → List String
keys end = []
keys (field k v fs) = k ∷ keys fs

-- `_normalize_actions`, its result as the objects of the actions.
unfoldable pub objects_of : Items → List Fields
objects_of nil = []
objects_of (cons v vs) =
    let rest = objects_of vs in
    elim v [ str s ↦ field "type" (str s) end ∷ rest | obj fs ↦ fs ∷ rest | _ ↦ rest ]

abbrev pub allow_only : List Fields
allow_only = field "type" (str "allow") end ∷ []

abbrev pub or_allow : List Fields → List Fields
or_allow [] = allow_only
or_allow (a ∷ rest) = a ∷ rest

-- `{"type": key, **action_json}` for the first key that is set.
unfoldable pub shorthand : List String → Fields → List Fields
shorthand [] fs = allow_only
shorthand (k ∷ ks) fs =
    if truthy (get_or_null k fs) then field "type" (str k) fs ∷ [] else shorthand ks fs

abbrev pub typed_or_shorthand : Fields → List Fields
typed_or_shorthand fs = elim (get "type" fs) [
  | some t ↦ fs ∷ []
  | none ↦
      shorthand
        ("deny" ∷ "allow" ∷ "redact_fields" ∷ "require_approval" ∷ "force_legal_hold_check"
          ∷ "require_encryption" ∷ [])
        fs
]

unfoldable pub normalize_actions : Value → List Fields
normalize_actions (obj fs) = elim (get "actions" fs) [
  | some (arr vs) ↦ or_allow (objects_of vs)
  | _ ↦ typed_or_shorthand fs
]
normalize_actions _ = allow_only

-- `redact_context_fields`
unfoldable pub redact_field : String → Fields → Fields
redact_field f end = end
redact_field f (field k v fs) =
    if str_eq k f then field k (str "[REDACTED]") fs else field k v (redact_field f fs)

unfoldable pub redact_context_fields : Fields → List String → Fields
redact_context_fields context [] = context
redact_context_fields context (f ∷ fs) = redact_context_fields (redact_field f context) fs

-- `order_by(priority.desc(), id.asc())`
abbrev pub goes_before : PolicyRule → PolicyRule → Bool
goes_before a b = ltb_ℤ b.priority a.priority || eqb_ℤ a.priority b.priority && ltb a.id b.id

unfoldable pub insert_rule : PolicyRule → List PolicyRule → List PolicyRule
insert_rule r [] = r ∷ []
insert_rule r (s ∷ ss) =
    let rest = insert_rule r ss in if goes_before s r then s ∷ rest else r ∷ s ∷ ss

unfoldable pub by_priority : List PolicyRule → List PolicyRule
by_priority [] = []
by_priority (r ∷ rs) = insert_rule r (by_priority rs)

-- `dict.fromkeys(fields)`: the first of equal entries stays.
unfoldable pub distinct : List String → List String → List String
distinct seen [] = []
distinct seen (f ∷ fs) = let rest = distinct (f ∷ seen) fs in if elem f seen then rest else f ∷ rest
