-- ===== src/Governance/PolicyEngine/Deny.antt =====
-- A denial among the actions of a rule.
use nexus_rag.Prelude.{
  ◌≡◌, inl, inr, String, str_eq, Bool, not, ◌&&◌, some, List, [], ◌∷◌, arith, Option-cases,
}
use nexus_rag.Prelude.Tables.{any}
use nexus_rag.Authz.{Fields, get_or_null}
use nexus_rag.Authz.Operators.{Host}
use nexus_rag.Governance.PolicyEngine.{PolicyRule, PolicyDecision, normalize_actions, default_allow}
use nexus_rag.Governance.PolicyEngine.Decide.{
  strs, or_text, or_value, apply_action, apply_actions, decide,
}

module _ (h : Host) (upper : String → String) where
  abbrev pub is_deny : Fields → Bool
  is_deny a = str_eq (or_text h upper (get_or_null "type" a) "allow") "deny"

  apply_action-allowed :
      (a : Fields) (d e : PolicyDecision)
      → apply_action h upper a d ≡ some e
      → e.allowed ≡ (d.allowed && not (is_deny a))
  unfolding apply_action
  apply_action-allowed a d e p = ground (
    arith,
    Option-cases
        (strs h upper (or_value h upper (get_or_null "fields" a) (get_or_null "redact_fields" a))),
  )

  apply_actions-allowed :
      (acts : List Fields) (d e : PolicyDecision)
      → apply_actions h upper acts d ≡ some e
      → e.allowed ≡ (d.allowed && not (any is_deny acts))
  unfolding apply_actions any
  apply_actions-allowed [] d e p = ground arith
  apply_actions-allowed (a ∷ rest) d e p = elim (Option-cases (apply_action h upper a d)) [
    | inl n ↦ absurd (ground (arith, n))
    | inr f ↦ ground (
      arith,
      apply_action-allowed a d f.0 f.1,
      apply_actions-allowed rest f.0 e (rw (apply_actions, f.1) at p),
    )
  ]

-- The decision of a rule allows the request exactly if none of its actions is a denial, wherever
-- the denial stands among them.
pub decide-allowed :
    (h : Host) (upper : String → String) (r : PolicyRule) (d : PolicyDecision)
    → decide h upper r ≡ some d
    → d.allowed ≡ not (any (is_deny h upper) (normalize_actions r.action_json))
decide-allowed h upper r d p =
    elim (Option-cases (
      apply_actions h upper (normalize_actions r.action_json)
        (record default_allow { rule_id = some r.id }))) [
          | inl n ↦ absurd (ground (arith, n))
          | inr f ↦ ground (arith, f.1, apply_actions-allowed h upper _ _ f.0 f.1)
        ]
