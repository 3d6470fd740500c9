-- ===== src/Governance/PolicyEngine/Decide.antt =====
-- `_matches_condition` and `evaluate_policy` of nexusrag/services/policy_engine.py. `none` is an
-- exception, which a value that cannot be iterated raises.
use text.Mathlib.Text.{starts_with}
use nexus_rag.Prelude.{
  String, str_eq, Bool, true, false, not, ◌&&◌, ◌||◌, Option, none, some, List, [], ◌∷◌, ◌++◌,
  if◌then◌else◌,
}
use nexus_rag.Prelude.Tables.{elem, filter, any}
use nexus_rag.Authz.{Value, Items, Fields, str, arr, tuple, obj, nil, cons, end, field, get_or_null}
use nexus_rag.Authz.Compare.{py_eq}
use nexus_rag.Authz.Operators.{Host, text_of}
use nexus_rag.Governance.PolicyEngine.{
  PolicyRule, PolicyDecision, default_allow, truthy, letters, keys, normalize_actions, by_priority,
  distinct,
}

abbrev is_empty : List String → Bool
is_empty [] = true
is_empty (x ∷ xs) = false

-- `h` is Python's `str`, `upper` its `str.upper`.
module _ (h : Host) (upper : String → String) where
  unfoldable pub texts : Items → List String
  texts nil = []
  texts (cons v vs) = text_of h v ∷ texts vs

  -- `str(item) for item in (value or [])`
  unfoldable pub strs : Value → Option (List String)
  strs (arr vs) = some (texts vs)
  strs (tuple vs) = some (texts vs)
  strs (str s) = some (letters s)
  strs (obj fs) = some (keys fs)
  strs v = if truthy v then none else some []

  -- `str(value or "")`
  unfoldable pub text_or_empty : Value → String
  text_or_empty v = if truthy v then text_of h v else ""

  abbrev pub then_bool : {A : Type 0} → Option A → (A → Bool) → Option Bool
  then_bool none f = none
  then_bool (some a) f = some (f a)

  -- One entry of the condition.
  unfoldable pub matches_entry : Fields → List String → String → Value → Option Bool
  matches_entry context tags key v =
      let endpoint = text_or_empty (get_or_null "endpoint" context) in
      let method = upper (text_or_empty (get_or_null "method" context)) in
      if str_eq key "endpoint_prefix"
      then some (starts_with endpoint (text_of h v))
      else if str_eq key "endpoint"
      then some (str_eq endpoint (text_of h v))
      else if str_eq key "method"
      then some (str_eq method (upper (text_of h v)))
      else if str_eq key "actor_role_in"
      then then_bool (strs v)
          (λ allowed. elem (text_or_empty (get_or_null "actor_role" context)) allowed)
      else if str_eq key "tags_any"
      then then_bool (strs v) (λ required. is_empty required || any (λ t. elem t required) tags)
      else some (py_eq (get_or_null key context) v)

  unfoldable pub matches_entries : Fields → List String → Fields → Option Bool
  matches_entries context tags end = some true
  matches_entries context tags (field k v fs) =
      let rest = matches_entries context tags fs in
      elim (matches_entry context tags k v) [
        | none ↦ none
        | some false ↦ some false
        | some true ↦ rest
      ]

  -- `_matches_condition`; a condition that is set and no object has no `items`.
  unfoldable pub matches_condition : Value → Fields → Option Bool
  matches_condition c context =
      if not (truthy c) then some true else elim (strs (get_or_null "tags" context)) [
        | none ↦ none
        | some tags ↦ elim c [ obj fs ↦ matches_entries context tags fs | _ ↦ none ]
      ]

  abbrev pub or_text : Value → String → String
  or_text v other = if truthy v then text_of h v else other

  abbrev pub or_value : Value → Value → Value
  or_value v w = if truthy v then v else w

  -- One action of the rule; `none` is an exception.
  unfoldable pub apply_action : Fields → PolicyDecision → Option PolicyDecision
  apply_action a d =
      let type = or_text (get_or_null "type" a) "allow" in
      if str_eq type "deny"
      then some (record d {
        allowed = false;
        action = "deny";
        message = some (or_text (get_or_null "message" a) "Request denied by governance policy");
        code = some (or_text (get_or_null "code" a) "POLICY_DENIED");
      })
      else if str_eq type "redact_fields"
      then elim (strs (or_value (get_or_null "fields" a) (get_or_null "redact_fields" a))) [
        | none ↦ none
        | some fs ↦
            some (record d { action = "redact_fields"; redact_fields = d.redact_fields ++ fs })
      ]
      else if str_eq type "require_approval"
      then some (record d {
        action = "require_approval";
        require_approval = true;
        message = some (or_text (get_or_null "message" a) "Approval required by governance policy");
        code = some (or_text (get_or_null "code" a) "DSAR_REQUIRES_APPROVAL");
      })
      else if str_eq type "force_legal_hold_check"
      then some (record d { action = "force_legal_hold_check"; force_legal_hold_check = true })
      else if str_eq type "require_encryption"
      then some (record d { action = "require_encryption"; require_encryption = true })
      else some (record d { action = "allow" })

  unfoldable pub apply_actions : List Fields → PolicyDecision → Option PolicyDecision
  apply_actions [] d = some d
  apply_actions (a ∷ rest) d = elim (apply_action a d) [
    | none ↦ none
    | some e ↦ apply_actions rest e
  ]

  abbrev pub decide : PolicyRule → Option PolicyDecision
  decide r =
      elim (apply_actions (normalize_actions r.action_json)
        (record default_allow { rule_id = some r.id })) [
          | none ↦ none
          | some d ↦ some (record d { redact_fields = distinct [] d.redact_fields })
        ]

  -- The loop over the rules in their order.
  unfoldable pub first_match : Fields → List PolicyRule → Option PolicyDecision
  first_match context [] = some default_allow
  first_match context (r ∷ rs) =
      let rest = first_match context rs in
      elim (matches_condition r.condition_json context) [
        | none ↦ none
        | some false ↦ rest
        | some true ↦ decide r
      ]

  -- The query of `evaluate_policy`.
  unfoldable pub is_candidate : String → String → PolicyRule → Bool
  is_candidate tenant_id rule_key r =
      r.enabled
      && str_eq r.rule_key rule_key
      && elim r.tenant_id [ none ↦ true | some t ↦ str_eq t tenant_id ]

  unfoldable pub evaluate_policy :
      Bool → List PolicyRule → String → String → Fields → Option PolicyDecision
  evaluate_policy engine_enabled rules tenant_id rule_key context =
      if not engine_enabled
      then some default_allow
      else first_match context (by_priority (filter (is_candidate tenant_id rule_key) rules))
