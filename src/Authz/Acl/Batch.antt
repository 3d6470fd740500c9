-- ===== src/Authz/Acl/Batch.antt =====
-- The batch of permissions that a listing loads gives each document the rights that a single check
-- gives it.
use nexus_rag.Prelude.{
  ℕ, ◌≡◌, ◌≢◌, refl, String, str_eq, eq_iff, Bool, true, false, ◌&&◌, ◌||◌, Option, none, some,
  List, [], ◌∷◌, arith, if◌then◌else◌,
}
use nexus_rag.Authz.Acl.{
  Principal, DocumentPermission, elem, allowed_permissions, is_valid_for, bypasses, any_row,
  evaluate_document_permissions, add_permission, permissions_of, collect, load_document_permissions,
  meets, document_acl_allows,
}

abbrev pub meets? : Option (List String) → List String → Bool
meets? none wanted = false
meets? (some vs) wanted = meets vs wanted

meets-add_permission :
    (k j v : String) (m : List (String × List String)) (wanted : List String)
    → meets? (permissions_of j (add_permission k v m)) wanted
      ≡ (str_eq k j && elem v wanted || meets? (permissions_of j m) wanted)
unfolding add_permission permissions_of meets
meets-add_permission k j v [] wanted = ground arith
meets-add_permission k j v ((i, vs) ∷ m) wanted =
    ground (arith, eq_iff k j, eq_iff i k, eq_iff i j, meets-add_permission k j v m wanted)

module _ (p : Principal) (groups : List String) (now : ℕ) (ids : List String) where
  -- The rights of a document that was asked for are those of the table so far or of a later row.
  meets-collect :
      (rows : List DocumentPermission) (m : List (String × List String)) (j : String)
      (wanted : List String)
      → elem j ids ≡ true
      → meets? (permissions_of j (collect p groups now ids rows m)) wanted
        ≡ (meets? (permissions_of j m) wanted || any_row p groups now j wanted rows)
  unfolding collect any_row
  meets-collect [] m j wanted e = ground arith
  meets-collect (d ∷ ds) m j wanted e =
      let m' =
        if elem d.document_id ids && is_valid_for p groups now d
        then add_permission d.document_id d.permission m
        else m in
      rw (meets-collect ds m' j wanted e) (
        ground (
          arith,
          meets-add_permission d.document_id j d.permission m wanted,
          eq_iff d.document_id j,
        ))

elem_cons : (i : String) (ids : List String) → elem i ids ≡ true → ids ≢ []
unfolding elem
elem_cons i ids e q = ground arith

-- For a document that was asked for, the batch with the bypass for administrators decides as the
-- check of the single document does.
pub batch-single :
    (bypass : Bool) (p : Principal) (groups : List String) (now : ℕ) (ids : List String)
    (rows : List DocumentPermission) (id action : String)
    → elem id ids ≡ true
    → (if bypasses bypass p
        then true
        else document_acl_allows
            (permissions_of id (load_document_permissions p groups now ids rows))
            action)
      ≡ evaluate_document_permissions bypass p groups rows id action now
unfolding load_document_permissions document_acl_allows evaluate_document_permissions permissions_of
batch-single bypass p groups now [] rows id action e = absurd (elem_cons id [] e refl)
batch-single bypass p groups now (i ∷ ids) rows id action e =
    let same = meets-collect p groups now (i ∷ ids) rows [] id (allowed_permissions action) e in
    ground (arith, same)
