-- ===== src/Authz/Examples.antt =====
-- Policies, permissions and a listing at concrete inputs.
use nexus_rag.Prelude.{
  ℕ, ◌≡◌, refl, String, str_eq, true, false, not, ◌&&◌, ◌||◌, none, some, List, [], ◌∷◌,
  if◌then◌else◌,
}
use nexus_rag.RateLimit.Route.{post}
use nexus_rag.Authz.{Value, Fields, null, str, arr, obj, nil, cons, end, field, get}
use nexus_rag.Authz.Compare.{py_eq}
use nexus_rag.Authz.Operators.{
  Host, value, type_error, naive, aware, operator_of, resolve_operands, resolve_operand,
  resolve_path, date_between_op,
}
use nexus_rag.Authz.Evaluate.{evaluate_condition, dispatch, comparator, compare_with}
use nexus_rag.Authz.Validate.{validate_condition, structure_of}
use nexus_rag.Authz.Laws.{well_formed, validated-well_formed}
use nexus_rag.Authz.Duality.{not_of}
use nexus_rag.Authz.Policies.{
  Effect, deny, allow, AuthorizationPolicy, AbacDecision, pass, judge, in_scope, condition_of,
  evaluate_policy_set, evaluate_policies, policy_allow,
}
use nexus_rag.Authz.Policies.Deny.{NoneHolds, Grounds, allowed-Grounds}
use nexus_rag.Authz.Policies.Reorder.{any_holds, all_evaluate, decision_exact}
use nexus_rag.Authz.Acl.{
  Principal, DocumentPermission, elem, permissions_of, is_valid_for, names_principal,
  allowed_permissions, load_document_permissions, document_acl_allows, add_permission,
}
use nexus_rag.Authz.Acl.Context.{Document, PrincipalAttrs, HttpRequest, build_document_context}
use nexus_rag.Authz.Acl.Authorize.{
  Settings, Lookup, filter_documents, authorized_among, filter-authorize, decision_for, filter_from,
}

abbrev host : Host
host = record {
  shown = λ v. "?";
  iso_time = λ s. none;
  strptime_hms = λ s. none;
  strptime_hm = λ s. none;
  iso_datetime = λ s. if str_eq s "with zone" then some (aware 5) else some (naive 7);
}

abbrev var : String → Value
var s = obj (field "var" (str s) end)

abbrev two : Value → Value → Value
two a b = arr (cons a (cons b nil))

abbrev role_is : String → Value
role_is r = obj (field "eq" (two (var "principal.role") (str r)) end)

abbrev editor_context : Fields
editor_context = field "principal" (obj (field "role" (str "editor") end)) end

role_matches : evaluate_condition host editor_context (role_is "editor") ≡ value true
unfolding evaluate_condition dispatch comparator compare_with operator_of resolve_operands
    resolve_operand resolve_path get py_eq
role_matches = refl

validated-well_formed_example :
    well_formed (evaluate_condition host editor_context (not_of (role_is "editor"))) ≡ true
unfolding validate_condition operator_of structure_of
validated-well_formed_example =
    validated-well_formed host editor_context (not_of (role_is "editor")) 8 refl

abbrev late : ℕ
late = 23

-- A date with a time zone against bounds without one: the error of Python escapes the evaluation.
mixed_dates :
    date_between_op host
      (str "with zone")
      (obj (field "start" (str "2024-01-01") (field "end" (str "2024-12-31") end)))
    ≡ type_error
unfolding date_between_op
mixed_dates = refl

abbrev policy : String → Effect → Value → AuthorizationPolicy
policy i e c = record {
  id = i;
  effect = e;
  resource_type = "document";
  action = "*";
  condition_json = c;
  enabled = true;
}

abbrev p1 : AuthorizationPolicy
p1 = policy "p1" allow (role_is "editor")

abbrev p2 : AuthorizationPolicy
p2 = policy "p2" deny (role_is "intern")

abbrev p1_wins : AbacDecision
p1_wins = record {
  allowed = true;
  reason = policy_allow;
  matched_policy_id = some "p1";
  trace = [];
}

editor_allowed :
    evaluate_policy_set host editor_context "document" "read" (p1 ∷ p2 ∷ []) false true
    ≡ some p1_wins
unfolding evaluate_policy_set pass judge in_scope condition_of evaluate_condition dispatch
    comparator compare_with operator_of resolve_operands resolve_operand resolve_path get py_eq
editor_allowed = refl

editor_allowed_reordered :
    evaluate_policy_set host editor_context "document" "read" (p2 ∷ p1 ∷ []) false true
    ≡ some p1_wins
unfolding evaluate_policy_set pass judge in_scope condition_of evaluate_condition dispatch
    comparator compare_with operator_of resolve_operands resolve_operand resolve_path get py_eq
editor_allowed_reordered = refl

allowed-Grounds_example :
    NoneHolds host editor_context "document" "read" deny (p1 ∷ p2 ∷ [])
    × Grounds host editor_context "document" "read" (p1 ∷ p2 ∷ []) true p1_wins
allowed-Grounds_example =
    allowed-Grounds host editor_context "document" "read" (p1 ∷ p2 ∷ []) false true p1_wins
      editor_allowed refl

decision_exact_example :
    (d : AbacDecision) × (evaluate_policy_set host editor_context "document" "read"
        (p1 ∷ p2 ∷ [])
        false
        true
      ≡ some d)
    × (d.allowed ≡ (
        not (any_holds host editor_context "document" "read" deny (p1 ∷ p2 ∷ []))
        && (any_holds host editor_context "document" "read" allow (p1 ∷ p2 ∷ []) || not true)))
unfolding all_evaluate in_scope condition_of evaluate_condition dispatch comparator compare_with
    operator_of resolve_operands resolve_operand resolve_path get py_eq
decision_exact_example =
    decision_exact host editor_context "document" "read" (p1 ∷ p2 ∷ []) false true refl refl

abbrev ann : Principal
ann = record {
  subject_id = "ann";
  tenant_id = "t1";
  role = "editor";
  auth_method = "api_key";
  api_key_id = "k1";
}

abbrev grant : String → String → DocumentPermission
grant d perm = record {
  tenant_id = "t1";
  document_id = d;
  principal_type = "group";
  principal_id = "writers";
  permission = perm;
  expires_at = some 100;
}

abbrev grants : List DocumentPermission
grants = grant "d1" "read" ∷ grant "d2" "write" ∷ grant "d1" "owner" ∷ []

abbrev document : String → String → Document
document i t = record {
  id = i;
  tenant_id = t;
  corpus_id = "c";
  status = "succeeded";
  content_type = "text/plain";
  metadata_json = null;
}

abbrev a_run : HttpRequest
a_run = record { ip_address = none; path = "/v1/run"; method = post }

abbrev attrs : PrincipalAttrs
attrs = record { role = "editor"; plan = none; groups = "writers" ∷ [] }

abbrev settings : Settings
settings = record {
  authz_abac_enabled = true;
  authz_default_deny = true;
  authz_admin_bypass_document_acl = false;
}

abbrev answers : Lookup
answers = record {
  host = host;
  attrs = attrs;
  policies = p1 ∷ p2 ∷ [];
  permissions = grants;
  labels = λ d. end;
  request = none;
  now = 50;
  time = "now";
}

abbrev documents : List Document
documents = document "d1" "t1" ∷ document "d2" "t2" ∷ document "d3" "t1" ∷ []

filter-authorize_example :
    document "d1" "t1" ∷ [] ≡ authorized_among settings ann answers "write" documents
unfolding filter_documents filter_from decision_for evaluate_policies load_document_permissions
    document_acl_allows permissions_of add_permission elem is_valid_for names_principal
    allowed_permissions pass judge in_scope condition_of evaluate_condition dispatch comparator
    compare_with operator_of resolve_operands resolve_operand resolve_path build_document_context
    get py_eq
filter-authorize_example =
    filter-authorize settings ann answers "write" documents (document "d1" "t1" ∷ []) refl
