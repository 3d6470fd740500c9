-- ===== src/Authz/Policies.antt =====
-- `evaluate_policy_set` and `evaluate_policies` of nexusrag/services/authz/abac.py.
pub mod Deny
pub mod Reorder
use nexus_rag.Prelude.{
  ℕ, zero, ◌==◌, String, str_eq, Bool, true, false, ◌&&◌, ◌||◌, not, Option, none, some, List, [],
  ◌∷◌, ◌++◌, if◌then◌else◌,
}
use nexus_rag.Prelude.Int.{ℤ, pos, negsuc}
use nexus_rag.Authz.{
  Value, Items, Fields, null, bool, num, str, arr, tuple, obj, nil, cons, end, field,
}
use nexus_rag.Authz.Operators.{Host, Eval, value, invalid, type_error, Reason}
use nexus_rag.Authz.Evaluate.{evaluate_condition}

pub data Effect : Type 0 where
  deny allow : Effect

pub record AuthorizationPolicy : Type 0 where
  pub id : String
  pub effect : Effect
  pub resource_type : String
  pub action : String
  pub condition_json : Value
  pub enabled : Bool

pub data DecisionReason : Type 0 where
  abac_disabled policy_invalid policy_deny policy_allow default_deny default_allow : DecisionReason

pub data Outcome : Type 0 where
  matched : Bool → Outcome
  error : Reason → Outcome

pub record TraceEntry : Type 0 where
  pub policy_id : String
  pub effect : Effect
  pub outcome : Outcome

pub record AbacDecision : Type 0 where
  pub allowed : Bool
  pub reason : DecisionReason
  pub matched_policy_id : Option String
  pub trace : List TraceEntry

abbrev pub same_effect : Effect → Effect → Bool
same_effect deny deny = true
same_effect allow allow = true
same_effect _ _ = false

abbrev pub is_allow : Effect → Bool
is_allow allow = true
is_allow deny = false

-- `condition_json or {}`
abbrev pub or_empty : Value → Value
or_empty null = obj end
or_empty (bool false) = obj end
or_empty (num (pos zero)) = obj end
or_empty (str String.[]) = obj end
or_empty (arr nil) = obj end
or_empty (tuple nil) = obj end
or_empty v = v

abbrev pub names : String → String → Bool
names mine wanted = str_eq mine wanted || str_eq mine "*"

-- What a pass over the policies ends with: a decision, or the trace so far. A `TypeError` is not
-- caught, and ends the whole evaluation.
pub data Pass : Type 0 where
  decided : AbacDecision → Pass
  undecided : List TraceEntry → Pass
  crashed : Pass

abbrev pub shown : Bool → List TraceEntry → List TraceEntry
shown include_trace trace = if include_trace then trace else []

abbrev pub reason_of : Effect → DecisionReason
reason_of deny = policy_deny
reason_of allow = policy_allow

abbrev pub entry : AuthorizationPolicy → Outcome → TraceEntry
entry p o = record { policy_id = p.id; effect = p.effect; outcome = o }

-- What follows from a policy in scope, given the rest of the pass.
unfoldable pub judge :
    Bool → Effect → AuthorizationPolicy → List TraceEntry → Eval Bool → Pass → Pass
judge include_trace e p trace (value true) rest = decided (record {
  allowed = is_allow e;
  reason = reason_of e;
  matched_policy_id = some p.id;
  trace = shown include_trace (trace ++ entry p (matched true) ∷ []);
})
judge include_trace e p trace (value false) rest = rest
judge include_trace e p trace (invalid r) rest = decided (record {
  allowed = false;
  reason = policy_invalid;
  matched_policy_id = some p.id;
  trace = shown include_trace (trace ++ entry p (error r) ∷ []);
})
judge include_trace e p trace type_error rest = crashed

abbrev pub default_decision : Bool → Bool → List TraceEntry → AbacDecision
default_decision include_trace deny_by_default trace = record {
  allowed = not deny_by_default;
  reason = if deny_by_default then default_deny else default_allow;
  matched_policy_id = none;
  trace = shown include_trace trace;
}

module _ (h : Host) (context : Fields) (resource_type action : String) where
  -- `_matches_scope`, of a policy that is enabled and has the effect of the pass.
  unfoldable pub in_scope : Effect → AuthorizationPolicy → Bool
  in_scope e p =
      p.enabled
      && (same_effect p.effect e && (names p.resource_type resource_type && names p.action action))

  unfoldable pub condition_of : AuthorizationPolicy → Eval Bool
  condition_of p = evaluate_condition h context (or_empty p.condition_json)

  -- The inner loop, for one effect.
  unfoldable pub pass : Bool → Effect → List AuthorizationPolicy → List TraceEntry → Pass
  pass include_trace e [] trace = undecided trace
  pass include_trace e (p ∷ ps) trace =
      let scoped = in_scope e p in
      let rest =
        pass include_trace e ps (if scoped then trace ++ entry p (matched false) ∷ [] else trace) in
      if scoped then judge include_trace e p trace (condition_of p) rest else rest

  -- `evaluate_policy_set`; `none` is the `TypeError`.
  unfoldable pub evaluate_policy_set : List AuthorizationPolicy → Bool → Bool → Option AbacDecision
  evaluate_policy_set ps include_trace deny_by_default = elim (pass include_trace deny ps []) [
    | decided d ↦ some d
    | crashed ↦ none
    | undecided trace ↦ elim (pass include_trace allow ps trace) [
      | decided d ↦ some d
      | crashed ↦ none
      | undecided trace' ↦ some (default_decision include_trace deny_by_default trace')
    ]
  ]

  -- `evaluate_policies`, of the enabled policies that the query returns.
  unfoldable pub evaluate_policies :
      Bool → List AuthorizationPolicy → Bool → Bool → Option AbacDecision
  unfolding evaluate_policy_set
  evaluate_policies abac_enabled ps include_trace deny_by_default =
      if abac_enabled
      then evaluate_policy_set ps include_trace deny_by_default
      else some
          (record { allowed = true; reason = abac_disabled; matched_policy_id = none; trace = [] })
