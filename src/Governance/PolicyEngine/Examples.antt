-- ===== src/Governance/PolicyEngine/Examples.antt =====
-- Two rules for data subject requests.
use nexus_rag.Prelude.{◌≡◌, ◌⊎◌, refl, String, true, false, none, some, List, [], ◌∷◌, All}
use nexus_rag.Prelude.Int.{pos}
use nexus_rag.Prelude.Tables.{any, elem, filter}
use nexus_rag.Authz.{Fields, str, arr, obj, nil, cons, end, field, get, get_or_null}
use nexus_rag.Authz.Operators.{Host}
use nexus_rag.Governance.PolicyEngine.{
  PolicyRule, PolicyDecision, default_allow, normalize_actions, objects_of, insert_rule,
  by_priority, distinct, redact_field, redact_context_fields,
}
use nexus_rag.Governance.PolicyEngine.Decide.{
  texts, strs, text_or_empty, matches_entry, matches_entries, matches_condition, apply_action,
  apply_actions, first_match, is_candidate, evaluate_policy,
}
use nexus_rag.Governance.PolicyEngine.Precedence.{Decides, applies, evaluate_policy-Decides}

abbrev host : Host
host = record {
  shown = λ v. "?";
  iso_time = λ s. none;
  strptime_hms = λ s. none;
  strptime_hm = λ s. none;
  iso_datetime = λ s. none;
}

abbrev same : String → String
same s = s

-- Viewers need an approval, and what they do is denied.
abbrev for_viewers : PolicyRule
for_viewers = record {
  id = 1;
  tenant_id = some "t1";
  rule_key = "dsar.execute";
  enabled = true;
  priority = pos 200;
  condition_json = obj (field "actor_role_in" (arr (cons (str "viewer") nil)) end);
  action_json =
      obj (field "actions" (arr (cons (str "deny") (cons (str "require_approval") nil))) end);
}

abbrev for_all : PolicyRule
for_all = record for_viewers {
  id = 2;
  tenant_id = none;
  priority = pos 100;
  condition_json = obj end;
  action_json = obj (field "type" (str "require_encryption") end);
}

abbrev context : String → Fields
context role = field "method" (str "POST") (field "actor_role" (str role) end)

abbrev rules : List PolicyRule
rules = for_all ∷ for_viewers ∷ []

abbrev decision : PolicyDecision
decision = record default_allow {
  allowed = false;
  action = "require_approval";
  rule_id = some 1;
  message = some "Approval required by governance policy";
  code = some "DSAR_REQUIRES_APPROVAL";
  require_approval = true;
}

viewer : evaluate_policy host same true rules "t1" "dsar.execute" (context "viewer") ≡ some decision
unfolding evaluate_policy first_match matches_condition matches_entries matches_entry text_or_empty
    strs texts get_or_null get apply_actions apply_action normalize_actions objects_of distinct
    by_priority insert_rule is_candidate filter elem any
viewer = refl

editor :
    evaluate_policy host same true rules "t1" "dsar.execute" (context "editor")
    ≡ some (record default_allow {
      action = "require_encryption";
      rule_id = some 2;
      require_encryption = true;
    })
unfolding evaluate_policy first_match matches_condition matches_entries matches_entry text_or_empty
    strs texts get_or_null get apply_actions apply_action normalize_actions objects_of distinct
    by_priority insert_rule is_candidate filter elem any
editor = refl

redacted :
    redact_context_fields (context "viewer") ("actor_role" ∷ [])
    ≡ field "method" (str "POST") (field "actor_role" (str "[REDACTED]") end)
unfolding redact_context_fields redact_field
redacted = refl

evaluate_policy-Decides_example :
    ((r : PolicyRule) × Decides host same rules "t1" "dsar.execute" (context "viewer") decision r)
    ⊎ ((decision ≡ default_allow)
        × All (λ s. applies host same "t1" "dsar.execute" (context "viewer") s ≡ false) rules)
evaluate_policy-Decides_example =
    evaluate_policy-Decides host same rules "t1" "dsar.execute" (context "viewer") decision viewer
