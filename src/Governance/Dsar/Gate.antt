-- ===== src/Governance/Dsar/Gate.antt =====
-- What a submitted request may do.
use nexus_rag.Prelude.{
  ◌≡◌, ◌⊎◌, refl, inl, inr, String, Bool, true, false, not, ◌&&◌, ◌||◌, Option, none, some, [], ◌∷◌,
  arith, Bool-cases, Option-cases,
}
use nexus_rag.Prelude.Tables.{elem, filter}
use nexus_rag.Governance.{find_applicable_legal_hold}
use nexus_rag.Governance.PolicyEngine.{PolicyDecision}
use nexus_rag.Governance.PolicyEngine.Decide.{evaluate_policy}
use nexus_rag.Governance.Retention.Rows.{
  Session, Message, Checkpoint, Document, Chunk, Corpus, ApiKey, Db,
}
use nexus_rag.Governance.Dsar.{
  violates_key, session_ids_of, document_ids_of, apply_dsar_destructive_action,
}
use nexus_rag.Governance.Dsar.Submit.{
  Enforced, decided, refused, crashed, enforce_policy, is_destructive, DsarStatus, running,
  completed, DsarRequest, Export, artifact, http_error, broken, Setting, Submitted, hold_scope,
  hold_id, policy_context, run_export, deletes, run_destructive, after_policy, submit_dsar_request,
}

abbrev pub decision_of : Setting → DsarRequest → Option PolicyDecision
decision_of c q =
    evaluate_policy c.host c.upper c.governance_policy_engine_enabled c.rules q.tenant_id
      "dsar.execute" (policy_context c q)

abbrev pub is_none {ℓ} : {A : Type ℓ} → Option A → Bool
is_none none = true
is_none (some x) = false

-- The decision of the policy lets a destructive request pass: it allows it, without an approval, and
-- encryption can be had where it is required.
abbrev pub permits : Option String → Option PolicyDecision → Bool
permits unavailable none = false
permits unavailable (some d) =
    d.allowed && not d.require_approval && (not d.require_encryption || is_none unavailable)

-- Nothing stands against the request: it is destructive, the policy lets it pass, and no hold applies
-- to its subject.
abbrev pub is_clear : Setting → DsarRequest → Bool
is_clear c q =
    is_destructive q.request_type
    && permits c.unavailable (decision_of c q)
    && is_none (
        find_applicable_legal_hold q.tenant_id c.now (hold_scope q.subject_type)
          (hold_id q.subject_type q.subject_id) c.holds)

-- The request was carried out: it is completed with the counts of its report, and the tables are
-- those of the destructive action.
abbrev pub Executed : Setting → DsarRequest → Db → Submitted → Type 0
Executed c q db r =
    let mode = deletes q.request_type c.retention in
    let made = apply_dsar_destructive_action q.tenant_id q.subject_type q.subject_id mode db in
    (r.request.status ≡ completed)
    × (r.request.report ≡ some (mode, made.1))
    × (r.db ≡ made.0)
    × (r.raised ≡ false)

-- The deletion violates a foreign key.
abbrev pub violates : Setting → DsarRequest → Db → Bool
violates c q db =
    violates_key q.tenant_id q.subject_type q.subject_id (deletes q.request_type c.retention) db

-- The call raises with the tables as they were, and the request is left running.
abbrev pub Aborted : DsarRequest → Db → Submitted → Type 0
Aborted q db r = (r.request.status ≡ running) × (r.db ≡ db) × (r.raised ≡ true)

abbrev pub is_completed : DsarStatus → Bool
is_completed completed = true
is_completed _ = false

-- The tables are as they were, and no deletion or anonymization is reported as completed.
abbrev pub Untouched : DsarRequest → Db → Submitted → Type 0
Untouched q db r =
    (r.db ≡ db) × ((is_destructive q.request_type && is_completed r.request.status) ≡ false)

run_export-db : (x : Export) (q : DsarRequest) (db : Db) → (run_export x q db).db ≡ db
unfolding run_export
run_export-db (artifact u) q db = refl
run_export-db (http_error e) q db = refl
run_export-db broken q db = refl

Enforced-cases :
    (e : Enforced)
    → ((d : PolicyDecision) × (e ≡ decided d)) ⊎ ((s : String) × (e ≡ refused s)) ⊎ (e ≡ crashed)
Enforced-cases (decided d) = inl (d, refl)
Enforced-cases (refused s) = inr (inl (s, refl))
Enforced-cases crashed = inr (inr refl)

and_false : (b : Bool) → (b && false) ≡ false
and_false true = refl
and_false false = refl

enforced-permits :
    (o : Option PolicyDecision) (u : Option String) (d : PolicyDecision)
    → enforce_policy o u true ≡ decided d
    → permits u o ≡ not d.require_approval
unfolding enforce_policy
enforced-permits none u d e = ground arith
enforced-permits (some p) u d e = ground (arith, Option-cases u)

refused-permits :
    (o : Option PolicyDecision) (u : Option String) (s : String)
    → enforce_policy o u true ≡ refused s
    → permits u o ≡ false
unfolding enforce_policy
refused-permits none u s e = refl
refused-permits (some p) u s e = ground (arith, Option-cases u)

crashed-permits :
    (o : Option PolicyDecision) (u : Option String)
    → enforce_policy o u true ≡ crashed
    → permits u o ≡ false
unfolding enforce_policy
crashed-permits none u e = refl
crashed-permits (some p) u e = ground (arith, Option-cases u)

-- A submitted request is carried out exactly if it is destructive, the policy allows it without an
-- approval (and with encryption, where it requires that), no legal hold applies to its subject, and no
-- foreign key forbids the deletion: then it is completed, with the tables and the counts that the
-- destructive action makes. Where only the foreign key forbids it, the call raises, the tables are as
-- they were and the request stays running. In all other cases the tables are as they were, and the
-- request is not completed as a deletion or an anonymization.
pub submit_dsar-Executed :
    (c : Setting) (q : DsarRequest) (db : Db)
    → ((is_clear c q ≡ false) × Untouched q db (submit_dsar_request c q db))
      ⊎ ((is_clear c q ≡ true)
          × (violates c q db ≡ true)
          × Aborted q db (submit_dsar_request c q db))
      ⊎ ((is_clear c q ≡ true)
          × (violates c q db ≡ false)
          × Executed c q db (submit_dsar_request c q db))
unfolding submit_dsar_request after_policy run_destructive
submit_dsar-Executed c q db =
    elim (Enforced-cases (enforce_policy (decision_of c q) c.unavailable true)) [
      | inr (inl s) ↦ inl (
        rw (refused-permits (decision_of c q) c.unavailable s.0 s.1) (ground arith),
        rw (submit_dsar_request, s.1) (refl, and_false _),
      )
      | inr (inr s) ↦ inl (
        rw (crashed-permits (decision_of c q) c.unavailable s) (ground arith),
        rw (submit_dsar_request, s) (refl, and_false _),
      )
      | inl d ↦
          rw (submit_dsar_request, d.1)
            (decided_case d.0 (enforced-permits (decision_of c q) c.unavailable d.0 d.1))
    ]
  where
    decided_case :
        (d : PolicyDecision)
        → permits c.unavailable (decision_of c q) ≡ not d.require_approval
        → ((is_clear c q ≡ false) × Untouched q db (after_policy c q db d))
          ⊎ ((is_clear c q ≡ true)
              × (violates c q db ≡ true)
              × Aborted q db (after_policy c q db d))
          ⊎ ((is_clear c q ≡ true)
              × (violates c q db ≡ false)
              × Executed c q db (after_policy c q db d))
    decided_case d e = elim (Bool-cases (is_destructive q.request_type)) [
      | inr n ↦ inl (rw n refl, rw (after_policy, n) (run_export-db c.exported q db, refl))
      | inl k ↦ elim (Bool-cases d.require_approval) [
        | inl p ↦ inl (rw (k, e, p) refl, rw (after_policy, k, p) (refl, refl))
        | inr p ↦
            elim (Option-cases (
              find_applicable_legal_hold q.tenant_id c.now (hold_scope q.subject_type)
                (hold_id q.subject_type q.subject_id) c.holds)) [
                  | inr h ↦ inl (rw (k, e, p, h.1) refl, rw (after_policy, k, p, h.1) (refl, refl))
                  | inl h ↦ elim (Bool-cases (violates c q db)) [
                    | inl v ↦ inr (
                        inl (
                          rw (k, e, p, h) refl,
                          v,
                          rw (after_policy, k, p, h, run_destructive, v) (refl, refl, refl),
                        ))
                    | inr v ↦ inr (
                        inr (
                          rw (k, e, p, h) refl,
                          v,
                          rw (after_policy, k, p, h, run_destructive, v) (refl, refl, refl, refl),
                        ))
                  ]
                ]
      ]
    ]

-- None of the tenant's rows is left; messages, checkpoints and chunks are the tenant's by their
-- sessions and documents before.
abbrev pub Erased : String → Db → Db → Type 0
Erased t d e =
    (filter (λ (s : Session). elem s.tenant_id (t ∷ [])) e.sessions ≡ [])
    × (filter (λ (m : Message). elem m.session_id (session_ids_of t d.sessions)) e.messages ≡ [])
    × (filter (λ (c : Checkpoint). elem c.session_id (session_ids_of t d.sessions)) e.checkpoints
        ≡ [])
    × (filter (λ (x : Document). elem x.tenant_id (t ∷ [])) e.documents ≡ [])
    × (filter (λ (c : Chunk). elem c.document_id (document_ids_of t d.documents)) e.chunks ≡ [])
    × (e.loose_chunks ≡ d.loose_chunks)
    × (filter (λ (c : Corpus). elem c.tenant_id (t ∷ [])) e.corpora ≡ [])
    × (filter (λ (k : ApiKey). elem k.tenant_id (t ∷ [])) e.api_keys ≡ [])
