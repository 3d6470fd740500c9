-- ===== src/Governance.antt =====
-- Legal holds of nexusrag/services/governance.py: the active holds of a tenant, and the check that
-- refuses a destructive action under one of them. Times are seconds since the epoch.
pub mod Retention
pub mod PolicyEngine
pub mod Dsar
mod Examples
use nexus_rag.Prelude.{
  ℕ, String, str_eq, Bool, true, false, not, ◌&&◌, Option, none, some, List, [], ◌∷◌, ltb, leb,
  if◌then◌else◌,
}
use nexus_rag.Prelude.Tables.{filter}

pub record LegalHold : Type 0 where
  pub id : String
  pub tenant_id : String
  pub scope_type : String
  pub scope_id : Option String
  pub created_at : ℕ
  pub expires_at : Option ℕ
  pub is_active : Bool

-- The condition of the query.
unfoldable pub is_in_force : String → ℕ → LegalHold → Bool
is_in_force tenant_id now h =
    str_eq h.tenant_id tenant_id
    && h.is_active
    && elim h.expires_at [ none ↦ true | some t ↦ ltb now t ]

-- `order_by(created_at.desc())`
unfoldable pub insert_newest : LegalHold → List LegalHold → List LegalHold
insert_newest h [] = h ∷ []
insert_newest h (k ∷ ks) =
    let rest = insert_newest h ks in if leb k.created_at h.created_at then h ∷ k ∷ ks else k ∷ rest

unfoldable pub newest_first : List LegalHold → List LegalHold
newest_first [] = []
newest_first (h ∷ hs) = insert_newest h (newest_first hs)

unfoldable pub list_active_legal_holds : String → ℕ → List LegalHold → List LegalHold
list_active_legal_holds tenant_id now holds =
    newest_first (filter (is_in_force tenant_id now) holds)

-- `_hold_matches_scope`
unfoldable pub hold_matches_scope : LegalHold → String → Option String → Bool
hold_matches_scope h scope_type scope_id =
    if str_eq h.scope_type "tenant"
    then true
    else if not (str_eq h.scope_type scope_type)
    then false
    else elim h.scope_id [
      | none ↦ true
      | some i ↦ elim scope_id [ none ↦ false | some j ↦ str_eq i j ]
    ]

unfoldable pub first_matching : String → Option String → List LegalHold → Option LegalHold
first_matching scope_type scope_id [] = none
first_matching scope_type scope_id (h ∷ hs) =
    if hold_matches_scope h scope_type scope_id
    then some h
    else first_matching scope_type scope_id hs

unfoldable pub find_applicable_legal_hold :
    String → ℕ → String → Option String → List LegalHold → Option LegalHold
find_applicable_legal_hold tenant_id now scope_type scope_id holds =
    first_matching scope_type scope_id (list_active_legal_holds tenant_id now holds)

-- `enforce_no_legal_hold` returns, or raises `LEGAL_HOLD_ACTIVE`.
unfoldable pub enforce_no_legal_hold : String → ℕ → String → Option String → List LegalHold → Bool
enforce_no_legal_hold tenant_id now scope_type scope_id holds =
    elim (find_applicable_legal_hold tenant_id now scope_type scope_id holds) [
      | none ↦ true
      | some h ↦ false
    ]
