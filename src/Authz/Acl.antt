-- ===== src/Authz/Acl.antt =====
-- The document permissions of nexusrag/services/authz/abac.py, one document at a time and in a
-- batch.
pub mod Context
pub mod Authorize
pub mod Batch
use nexus_rag.Prelude.{
  ℕ, String, str_eq, Bool, true, false, ◌&&◌, ◌||◌, not, Option, none, some, List, [], ◌∷◌, ltb,
  if◌then◌else◌,
}

-- The fields of `Principal` that the checks read.
pub record Principal : Type 0 where
  pub subject_id : String
  pub tenant_id : String
  pub role : String
  pub auth_method : String
  pub api_key_id : String

pub record DocumentPermission : Type 0 where
  pub tenant_id : String
  pub document_id : String
  pub principal_type : String
  pub principal_id : String
  pub permission : String
  pub expires_at : Option ℕ

unfoldable pub elem : String → List String → Bool
elem s [] = false
elem s (t ∷ ts) = str_eq s t || elem s ts

-- `_ACTION_PERMISSIONS.get(action, {action})`
unfoldable pub allowed_permissions : String → List String
allowed_permissions action =
    if str_eq action "read"
    then "read" ∷ "write" ∷ "delete" ∷ "reindex" ∷ "owner" ∷ []
    else if str_eq action "write"
    then "write" ∷ "delete" ∷ "owner" ∷ []
    else if str_eq action "delete"
    then "delete" ∷ "owner" ∷ []
    else if str_eq action "reindex"
    then "reindex" ∷ "owner" ∷ []
    else action ∷ []

-- The `or_(*predicates)`: the row names the principal, its role, its key or one of its groups. With
-- no groups the last one is left out, and nothing is in the empty list.
unfoldable pub names_principal : Principal → List String → DocumentPermission → Bool
unfolding elem
names_principal p groups d =
    str_eq d.principal_type "user" && str_eq d.principal_id p.subject_id
    || str_eq d.principal_type "role" && str_eq d.principal_id p.role
    || str_eq p.auth_method "api_key"
      && (str_eq d.principal_type "api_key" && str_eq d.principal_id p.api_key_id)
    || str_eq d.principal_type "group" && elem d.principal_id groups

abbrev pub is_current : ℕ → Option ℕ → Bool
is_current now none = true
is_current now (some t) = ltb now t

-- The row is the tenant's, names the principal and has not expired.
unfoldable pub is_valid_for : Principal → List String → ℕ → DocumentPermission → Bool
is_valid_for p groups now d =
    str_eq d.tenant_id p.tenant_id && (names_principal p groups d && is_current now d.expires_at)

-- `settings.authz_admin_bypass_document_acl and principal.role == "admin"`
abbrev pub bypasses : Bool → Principal → Bool
bypasses bypass p = bypass && str_eq p.role "admin"

-- A row of the document that is valid has one of the permissions.
unfoldable pub any_row :
    Principal → List String → ℕ → String → List String → List DocumentPermission → Bool
any_row p groups now document_id wanted [] = false
any_row p groups now document_id wanted (d ∷ ds) =
    str_eq d.document_id document_id && (is_valid_for p groups now d && elem d.permission wanted)
    || any_row p groups now document_id wanted ds

-- `evaluate_document_permissions`
unfoldable pub evaluate_document_permissions :
    Bool → Principal → List String → List DocumentPermission → String → String → ℕ → Bool
evaluate_document_permissions bypass p groups rows document_id action now =
    if bypasses bypass p
    then true
    else any_row p groups now document_id (allowed_permissions action) rows

-- `permissions.setdefault(document_id, set()).add(permission)`
unfoldable pub add_permission :
    String → String → List (String × List String) → List (String × List String)
add_permission k v [] = (k, v ∷ []) ∷ []
add_permission k v ((j, vs) ∷ m) =
    if str_eq j k then (j, v ∷ vs) ∷ m else (j, vs) ∷ add_permission k v m

-- `permissions_map.get(document_id)`
unfoldable pub permissions_of : String → List (String × List String) → Option (List String)
permissions_of k [] = none
permissions_of k ((j, vs) ∷ m) = if str_eq j k then some vs else permissions_of k m

-- The rows of `load_document_permissions_for_principal`, added one by one.
unfoldable pub collect :
    Principal
    → List String
    → ℕ
    → List String
    → List DocumentPermission
    → List (String × List String)
    → List (String × List String)
collect p groups now ids [] m = m
collect p groups now ids (d ∷ ds) m = collect p groups now ids ds (
    if elem d.document_id ids && is_valid_for p groups now d
    then add_permission d.document_id d.permission m
    else m)

-- `load_document_permissions_for_principal`
unfoldable pub load_document_permissions :
    Principal
    → List String
    → ℕ
    → List String
    → List DocumentPermission
    → List (String × List String)
unfolding collect
load_document_permissions p groups now [] rows = []
load_document_permissions p groups now (i ∷ ids) rows = collect p groups now (i ∷ ids) rows []

-- `set(permissions) & allowed`
unfoldable pub meets : List String → List String → Bool
meets [] wanted = false
meets (v ∷ vs) wanted = elem v wanted || meets vs wanted

-- `document_acl_allows`
unfoldable pub document_acl_allows : Option (List String) → String → Bool
unfolding meets
document_acl_allows none action = false
document_acl_allows (some vs) action = meets vs (allowed_permissions action)
