-- ===== src/Authz/Acl/Authorize.antt =====
-- `authorize_document_action` and `filter_documents_for_principal` of
-- nexusrag/services/authz/abac.py, without the audit records.
use nexus_rag.Prelude.{
  ℕ, ◌≡◌, inl, inr, String, str_eq, Bool, true, false, not, ◌&&◌, ◌||◌, Option, none, some, List,
  [], ◌∷◌, arith, if◌then◌else◌, Option-cases, eq_iff,
}
use nexus_rag.Authz.{Fields}
use nexus_rag.Authz.Operators.{Host}
use nexus_rag.Authz.Policies.{AuthorizationPolicy, AbacDecision, DecisionReason, evaluate_policies}
use nexus_rag.Authz.Acl.{
  Principal, DocumentPermission, elem, bypasses, evaluate_document_permissions, permissions_of,
  load_document_permissions, document_acl_allows,
}
use nexus_rag.Authz.Acl.Context.{Document, PrincipalAttrs, HttpRequest, build_document_context}
use nexus_rag.Authz.Acl.Batch.{batch-single}

pub record Settings : Type 0 where
  pub authz_abac_enabled : Bool
  pub authz_default_deny : Bool
  pub authz_admin_bypass_document_acl : Bool

-- How a check ends: nothing is raised, an `AUTHZ_DENIED` with its reason in the audit record, or
-- the `TypeError` of a policy.
pub data Check : Type 0 where
  authorized tenant_mismatch document_acl_denied crashed : Check
  policy_denied : DecisionReason → Check

-- The database's answers for one principal, and the request.
pub record Lookup : Type 0 where
  pub host : Host
  pub attrs : PrincipalAttrs
  pub policies : List AuthorizationPolicy
  pub permissions : List DocumentPermission
  pub labels : String → Fields
  pub request : Option HttpRequest
  pub now : ℕ
  pub time : String

module _ (c : Settings) (p : Principal) (l : Lookup) (action : String) where
  unfoldable pub decision_for : Document → Option AbacDecision
  decision_for d =
      let context = build_document_context p l.attrs d (l.labels d.id) l.request l.time in
      evaluate_policies l.host context "document" action c.authz_abac_enabled l.policies false
        c.authz_default_deny

  abbrev pub check_of : Option AbacDecision → Check
  check_of none = crashed
  check_of (some d) = if d.allowed then authorized else policy_denied d.reason

  -- `authorize_document_action`
  unfoldable pub authorize_document_action : Document → Check
  authorize_document_action d =
      if not (str_eq d.tenant_id p.tenant_id)
      then tenant_mismatch
      else if not (
            evaluate_document_permissions c.authz_admin_bypass_document_acl p l.attrs.groups
              l.permissions d.id action l.now)
          && not (bypasses c.authz_admin_bypass_document_acl p)
      then document_acl_denied
      else check_of (decision_for d)

  -- The loop of `filter_documents_for_principal`; `none` is the `TypeError` of a policy.
  unfoldable pub filter_from : List (String × List String) → List Document → Option (List Document)
  filter_from permissions_map [] = some []
  filter_from permissions_map (d ∷ ds) =
      let rest = filter_from permissions_map ds in
      let acl_allowed =
        if bypasses c.authz_admin_bypass_document_acl p
        then true
        else document_acl_allows (permissions_of d.id permissions_map) action in
      if not (str_eq d.tenant_id p.tenant_id) || not acl_allowed
      then rest
      else elim (decision_for d) [
        | none ↦ none
        | some e ↦ elim rest [
          | none ↦ none
          | some kept ↦ some (if e.allowed then d ∷ kept else kept)
        ]
      ]

  abbrev pub ids_of : List Document → List String
  ids_of [] = []
  ids_of (d ∷ ds) = d.id ∷ ids_of ds

  -- `filter_documents_for_principal`
  unfoldable pub filter_documents : List Document → Option (List Document)
  filter_documents ds =
      filter_from (load_document_permissions p l.attrs.groups l.now (ids_of ds) l.permissions) ds

  abbrev pub is_authorized : Check → Bool
  is_authorized authorized = true
  is_authorized _ = false

  -- The documents that the single check authorizes.
  unfoldable pub authorized_among : List Document → List Document
  authorized_among [] = []
  authorized_among (d ∷ ds) =
      if is_authorized (authorize_document_action d)
      then d ∷ authorized_among ds
      else authorized_among ds

  -- Each of the ids is among those asked for.
  abbrev AllIn : List String → List Document → Type 0
  AllIn ids [] = Unit
  AllIn ids (d ∷ ds) = (elem d.id ids ≡ true) × AllIn ids ds

  bypass_allows :
      (d : Document)
      → bypasses c.authz_admin_bypass_document_acl p ≡ true
      → evaluate_document_permissions c.authz_admin_bypass_document_acl p l.attrs.groups
          l.permissions d.id action l.now
        ≡ true
  unfolding evaluate_document_permissions
  bypass_allows d b = rw b

  filter_from-authorized :
      (ids : List String) (ds kept : List Document)
      → AllIn ids ds
      → filter_from (load_document_permissions p l.attrs.groups l.now ids l.permissions) ds
        ≡ some kept
      → kept ≡ authorized_among ds
  unfolding filter_from authorized_among authorize_document_action
  filter_from-authorized ids [] kept a e = ground arith
  filter_from-authorized ids (d ∷ ds) kept a e =
      let single =
        batch-single c.authz_admin_bypass_document_acl p l.attrs.groups l.now ids l.permissions d.id
          action a.0 in
      let m = load_document_permissions p l.attrs.groups l.now ids l.permissions in
      let bypassed = bypass_allows d in
      elim (Option-cases (filter_from m ds)) [
        | inl f ↦ ground (arith, single, bypassed)
        | inr (rest, f) ↦
            let ih = filter_from-authorized ids ds rest a.1 f in
            ground (arith, single, bypassed, ih)
      ]

  AllIn-cons :
      (i : String) (ids : List String) (ds : List Document) → AllIn ids ds → AllIn (i ∷ ids) ds
  unfolding elem
  AllIn-cons i ids [] a = tt
  AllIn-cons i ids (d ∷ ds) a = (ground (arith, a.0), AllIn-cons i ids ds a.1)

  ids_of-AllIn : (ds : List Document) → AllIn (ids_of ds) ds
  unfolding elem
  ids_of-AllIn [] = tt
  ids_of-AllIn (d ∷ ds) =
      (ground (arith, eq_iff d.id d.id), AllIn-cons d.id (ids_of ds) ds (ids_of-AllIn ds))

  -- A listing, which loads the permissions in one batch, keeps in their order exactly the documents
  -- that a check of each one by itself would authorize.
  pub filter-authorize :
      (ds kept : List Document) → filter_documents ds ≡ some kept → kept ≡ authorized_among ds
  unfolding filter_documents
  filter-authorize ds kept e = filter_from-authorized (ids_of ds) ds kept (ids_of-AllIn ds) e
