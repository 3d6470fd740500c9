-- ===== src/Authz/Acl/Context.antt =====
-- `build_document_context` of nexusrag/services/authz/abac.py, and what policies see of the route
-- class.
use nexus_rag.Prelude.{◌≡◌, refl, String, false, Option, none, some, List, [], ◌∷◌}
use nexus_rag.Prelude.Int.{pos}
use nexus_rag.RateLimit.Route.{Method, route_class_for_path, class_name}
use nexus_rag.Authz.{
  Value, Items, Fields, null, num, str, arr, tuple, obj, nil, cons, end, field, get,
}
use nexus_rag.Authz.Compare.{py_eq}
use nexus_rag.Authz.Operators.{
  Host, value, operator_of, resolve_operands, resolve_operand, resolve_path,
}
use nexus_rag.Authz.Evaluate.{evaluate_condition, dispatch, comparator, compare_with}
use nexus_rag.Authz.Acl.{Principal}

pub record Document : Type 0 where
  pub id : String
  pub tenant_id : String
  pub corpus_id : String
  pub status : String
  pub content_type : String
  pub metadata_json : Value

-- The attributes that `load_principal_attributes` resolves.
pub record PrincipalAttrs : Type 0 where
  pub role : String
  pub plan : Option String
  pub groups : List String

pub record HttpRequest : Type 0 where
  pub ip_address : Option String
  pub path : String
  pub method : Method

abbrev pub str_or_null : Option String → Value
str_or_null none = null
str_or_null (some s) = str s

abbrev pub strs : List String → Items
strs [] = nil
strs (s ∷ ss) = cons (str s) (strs ss)

-- `route_class_for_request(request)` is a pair, of the class and its weight.
unfoldable pub route_class_value : Option HttpRequest → Value
route_class_value none = null
route_class_value (some r) =
    let (c, weight) = route_class_for_path r.path r.method in
    tuple (cons (str (class_name c)) (cons (num (pos weight)) nil))

abbrev pub ip_of : Option HttpRequest → Value
ip_of none = null
ip_of (some r) = str_or_null r.ip_address

abbrev pub path_of : Option HttpRequest → Value
path_of none = null
path_of (some r) = str r.path

abbrev pub principal_fields : Principal → PrincipalAttrs → Fields
principal_fields p a = field "id" (str p.subject_id) (
    field "tenant_id" (str p.tenant_id) (
      field "role" (str a.role) (
        field "plan" (str_or_null a.plan)
          (field "groups" (arr (strs a.groups)) (field "auth_method" (str p.auth_method) end)))))

abbrev pub resource_fields : Document → Fields → Fields
resource_fields d labels = field "id" (str d.id) (
    field "tenant_id" (str d.tenant_id) (
      field "corpus_id" (str d.corpus_id) (
        field "status" (str d.status) (
          field "content_type" (str d.content_type)
            (field "labels" (obj labels) (field "metadata" d.metadata_json end))))))

abbrev pub request_fields : Option HttpRequest → String → Fields
request_fields r time = field "ip" (ip_of r) (
    field "route_class" (route_class_value r)
      (field "time" (str time) (field "path" (path_of r) end)))

-- `build_document_context`; the time is the clock's, in ISO form.
unfoldable pub build_document_context :
    Principal → PrincipalAttrs → Document → Fields → Option HttpRequest → String → Fields
build_document_context p a d labels r time = field "principal" (obj (principal_fields p a)) (
    field "resource" (obj (resource_fields d labels))
      (field "request" (obj (request_fields r time)) end))

-- The condition that the route class is the given text.
abbrev pub route_class_is : String → Value
route_class_is s = obj (
    field "eq" (arr (cons (obj (field "var" (str "request.route_class") end)) (cons (str s) nil)))
      end)

-- A document context never makes a policy on the route class hold: whatever the request and the
-- text, the class is compared as a pair with a text, which is false.
pub route_class_never_matches :
    (h : Host) (p : Principal) (a : PrincipalAttrs) (d : Document) (labels : Fields)
    (r : Option HttpRequest) (time s : String)
    → evaluate_condition h (build_document_context p a d labels r time) (route_class_is s)
      ≡ value false
unfolding evaluate_condition dispatch comparator compare_with operator_of resolve_operands
    resolve_operand resolve_path build_document_context route_class_value get py_eq
route_class_never_matches h p a d labels none time s = refl
route_class_never_matches h p a d labels (some r) time s = refl
