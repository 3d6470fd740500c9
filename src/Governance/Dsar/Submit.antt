-- ===== src/Governance/Dsar/Submit.antt =====
-- `submit_dsar_request` and `enforce_policy` of nexusrag/services/governance.py, without the audit
-- records: the policy, the legal holds, the export or the destructive action, and how each ends.
use nexus_rag.Prelude.{
  ℕ, String, str_eq, Bool, true, false, not, ◌&&◌, ◌||◌, Option, none, some, List, if◌then◌else◌,
}
use nexus_rag.Authz.{Fields, Value, str, null, field, end}
use nexus_rag.Authz.Operators.{Host}
use nexus_rag.Governance.{LegalHold, find_applicable_legal_hold}
use nexus_rag.Governance.PolicyEngine.{PolicyRule, PolicyDecision}
use nexus_rag.Governance.PolicyEngine.Decide.{evaluate_policy}
use nexus_rag.Governance.Retention.{RetentionPolicy}
use nexus_rag.Governance.Retention.Rows.{Db}
use nexus_rag.Governance.Dsar.{
  SubjectType, api_key, session, document, tenant, Counts, violates_key,
  apply_dsar_destructive_action,
}

-- How `enforce_policy` ends: with the decision, with an `HTTPException` of a code, or with another
-- exception of the evaluation.
pub data Enforced : Type 0 where
  decided : PolicyDecision → Enforced
  refused : String → Enforced
  crashed : Enforced

-- `unavailable` is the code that `ensure_encryption_available` raises, if it raises.
unfoldable pub enforce_policy : Option PolicyDecision → Option String → Bool → Enforced
enforce_policy none unavailable allow_require_approval = crashed
enforce_policy (some d) unavailable allow_require_approval =
    let last = if d.allowed then decided d else refused "POLICY_DENIED" in
    if d.require_approval && not allow_require_approval
    then refused "DSAR_REQUIRES_APPROVAL"
    else if d.require_encryption
    then elim unavailable [ none ↦ last | some code ↦ refused code ]
    else last

pub data RequestType : Type 0 where
  export delete anonymize : RequestType

abbrev pub is_destructive : RequestType → Bool
is_destructive export = false
is_destructive delete = true
is_destructive anonymize = true

pub data DsarStatus : Type 0 where
  pending running completed rejected failed : DsarStatus

pub record DsarRequest : Type 0 where
  pub tenant_id : String
  pub request_type : RequestType
  pub subject_type : SubjectType
  pub subject_id : String
  pub status : DsarStatus
  pub error_code : Option String
  pub artifact_uri : Option String
  -- The mode, whether it deletes, and the counts of the report.
  pub report : Option (Bool × Counts)

-- How the export of the records, its encryption and its storage end.
pub data Export : Type 0 where
  artifact : String → Export
  http_error : String → Export
  broken : Export

-- The state that a submission reads.
pub record Setting : Type 0 where
  pub host : Host
  pub upper : String → String
  pub governance_policy_engine_enabled : Bool
  pub rules : List PolicyRule
  pub unavailable : Option String
  pub holds : List LegalHold
  pub retention : RetentionPolicy
  pub now : ℕ
  pub actor_role : Option String
  pub exported : Export

-- The row of the request and the tables as they are stored at the end, and whether an exception
-- leaves the call.
pub record Submitted : Type 0 where
  pub request : DsarRequest
  pub db : Db
  pub raised : Bool

abbrev pub request_text : RequestType → String
request_text export = "export"
request_text delete = "delete"
request_text anonymize = "anonymize"

abbrev pub subject_text : SubjectType → String
subject_text api_key = "api_key"
subject_text session = "session"
subject_text document = "document"
subject_text tenant = "tenant"

abbrev pub hold_scope : SubjectType → String
hold_scope api_key = "user_key"
hold_scope session = "session"
hold_scope document = "document"
hold_scope tenant = "tenant"

abbrev pub hold_id : SubjectType → String → Option String
hold_id tenant i = none
hold_id _ i = some i

abbrev pub or_null : Option String → Value
or_null none = null
or_null (some s) = str s

unfoldable pub policy_context : Setting → DsarRequest → Fields
policy_context c q = field "endpoint" (str "/admin/governance/dsar") (
    field "method" (str "POST") (
      field "request_type" (str (request_text q.request_type)) (
        field "subject_type" (str (subject_text q.subject_type))
          (field "subject_id" (str q.subject_id) (field "actor_role" (or_null c.actor_role) end)))))

abbrev pub reject : String → DsarRequest → Db → Submitted
reject code q db = record {
  request = record q { status = rejected; error_code = some code };
  db = db;
  raised = str_eq code "ENCRYPTION_REQUIRED" || str_eq code "KMS_UNAVAILABLE";
}

abbrev pub fail : DsarRequest → Db → Submitted
fail q db = record {
  request = record q { status = failed; error_code = some "DSAR_FAILED" };
  db = db;
  raised = false;
}

-- A rejection that is returned and not raised.
abbrev pub turn_down : String → DsarRequest → Db → Submitted
turn_down code q db = record {
  request = record q { status = rejected; error_code = some code };
  db = db;
  raised = false;
}

unfoldable pub run_export : Export → DsarRequest → Db → Submitted
run_export (artifact uri) q db = record {
  request = record q { status = completed; artifact_uri = some uri };
  db = db;
  raised = false;
}
run_export (http_error code) q db = reject code q db
run_export broken q db = fail q db

-- The mode "delete"; else it is "anonymize".
unfoldable pub deletes : RequestType → RetentionPolicy → Bool
deletes anonymize p = false
deletes _ p = not p.anonymize_instead_of_delete

-- A statement violates a foreign key: the transaction is aborted, so the handler's own commit of the
-- status "failed" raises too, and all of it is rolled back to the commit of the status "running".
abbrev pub abort : DsarRequest → Db → Submitted
abort q db = record { request = record q { status = running }; db = db; raised = true }

unfoldable pub run_destructive : RetentionPolicy → DsarRequest → Db → Submitted
run_destructive p q db =
    let mode = deletes q.request_type p in
    let r = apply_dsar_destructive_action q.tenant_id q.subject_type q.subject_id mode db in
    if violates_key q.tenant_id q.subject_type q.subject_id mode db then abort q db else record {
      request = record q { status = completed; report = some (mode, r.1) };
      db = r.0;
      raised = false;
    }

unfoldable pub after_policy : Setting → DsarRequest → Db → PolicyDecision → Submitted
after_policy c q db d =
    if is_destructive q.request_type
    then if d.require_approval
      then turn_down "DSAR_REQUIRES_APPROVAL" q db
      else elim (find_applicable_legal_hold q.tenant_id c.now (hold_scope q.subject_type)
          (hold_id q.subject_type q.subject_id) c.holds) [
            | some h ↦ turn_down "LEGAL_HOLD_ACTIVE" q db
            | none ↦ run_destructive c.retention q db
          ]
    else run_export c.exported q db

unfoldable pub submit_dsar_request : Setting → DsarRequest → Db → Submitted
submit_dsar_request c q db =
    elim (enforce_policy
      (evaluate_policy c.host c.upper c.governance_policy_engine_enabled c.rules q.tenant_id
        "dsar.execute" (policy_context c q))
      c.unavailable true) [
        | decided d ↦ after_policy c q db d
        | refused code ↦ reject code q db
        | crashed ↦ fail q db
      ]
