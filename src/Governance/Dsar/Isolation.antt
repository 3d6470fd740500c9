-- ===== src/Governance/Dsar/Isolation.antt =====
-- A data subject request and the rows of the other tenants.
use nexus_rag.Prelude.{
  ◌≡◌, refl, ap, ◌∙◌, inl, inr, String, str_eq, Bool, true, false, some, arith, Bool-cases,
  Option-cases,
}
use nexus_rag.Prelude.Tables.{elem, filter, find, IsKey}
use nexus_rag.Prelude.Tables.Keys.{
  filter-refused, find-delete, find-update, find-delete_by, find-update_by, filter-delete,
  filter-update, other_key,
}
use nexus_rag.Governance.Retention.Rows.{Session, Message, Checkpoint, Document, Chunk, ApiKey, Db}
use nexus_rag.Governance.Dsar.{
  SubjectType, api_key, session, document, tenant, hide_document, hide_chunk, hide_message,
  hide_checkpoint, session_ids_of, document_ids_of, apply_api_key, apply_session, apply_document,
  apply_tenant, apply_dsar_destructive_action,
}

-- The document is there as it was, and so are its chunks.
abbrev pub SameDocument : String → Document → Db → Db → Type 0
SameDocument k x d e =
    (find (λ (y : Document). y.id) k e.documents ≡ some x)
    × (filter (λ (c : Chunk). str_eq k c.document_id) e.chunks
        ≡ filter (λ (c : Chunk). str_eq k c.document_id) d.chunks)

-- The session is there as it was, and so are its messages and checkpoints.
abbrev pub SameSession : String → Session → Db → Db → Type 0
SameSession k x d e =
    (find (λ (y : Session). y.id) k e.sessions ≡ some x)
    × (filter (λ (m : Message). str_eq k m.session_id) e.messages
        ≡ filter (λ (m : Message). str_eq k m.session_id) d.messages)
    × (filter (λ (c : Checkpoint). str_eq k c.session_id) e.checkpoints
        ≡ filter (λ (c : Checkpoint). str_eq k c.session_id) d.checkpoints)

module _ (t i : String) (delete : Bool) (d : Db) where
  api_key-rest :
      ((apply_api_key t i delete d).0.documents ≡ d.documents)
      × ((apply_api_key t i delete d).0.chunks ≡ d.chunks)
      × ((apply_api_key t i delete d).0.sessions ≡ d.sessions)
      × ((apply_api_key t i delete d).0.messages ≡ d.messages)
      × ((apply_api_key t i delete d).0.checkpoints ≡ d.checkpoints)
  unfolding apply_api_key
  api_key-rest =
      ground (arith, Option-cases (find (λ (k : ApiKey). k.id) i d.api_keys), Bool-cases delete)

  session-rest :
      ((apply_session t i delete d).0.documents ≡ d.documents)
      × ((apply_session t i delete d).0.chunks ≡ d.chunks)
  unfolding apply_session
  session-rest =
      ground (arith, Option-cases (find (λ (k : Session). k.id) i d.sessions), Bool-cases delete)

  document-rest :
      ((apply_document t i delete d).0.sessions ≡ d.sessions)
      × ((apply_document t i delete d).0.messages ≡ d.messages)
      × ((apply_document t i delete d).0.checkpoints ≡ d.checkpoints)
  unfolding apply_document
  document-rest =
      ground (arith, Option-cases (find (λ (k : Document). k.id) i d.documents), Bool-cases delete)

  document-SameDocument :
      (k : String) (x : Document)
      → find (λ (y : Document). y.id) k d.documents ≡ some x
      → str_eq x.tenant_id t ≡ false
      → SameDocument k x d (apply_document t i delete d).0
  unfolding apply_document
  document-SameDocument k x e o =
      elim (Option-cases (find (λ (y : Document). y.id) i d.documents)) [
        | inl n ↦ rw (apply_document, n) (e, refl)
        | inr f ↦ elim (Bool-cases (str_eq f.0.tenant_id t)) [
          | inr n ↦ rw (apply_document, f.1, n) (e, refl)
          | inl s ↦
              let other = other_key _ (λ y. str_eq y.tenant_id t) k i d.documents x f.0 e f.1 o s in
              elim (Bool-cases delete) [
                | inl m ↦
                    rw (apply_document, f.1, s, m)
                      (find-delete _ _ k d.documents other ∙ e, filter-delete _ _ k d.chunks other)
                | inr m ↦
                    rw (apply_document, f.1, s, m)
                      (
                        find-update _ _ hide_document k d.documents (λ y. refl) other ∙ e,
                        filter-update _ _ hide_chunk k d.chunks (λ y. refl) other,
                      )
              ]
        ]
      ]

  session-SameSession :
      (k : String) (x : Session)
      → find (λ (y : Session). y.id) k d.sessions ≡ some x
      → str_eq x.tenant_id t ≡ false
      → SameSession k x d (apply_session t i delete d).0
  unfolding apply_session
  session-SameSession k x e o = elim (Option-cases (find (λ (y : Session). y.id) i d.sessions)) [
    | inl n ↦ rw (apply_session, n) (e, refl, refl)
    | inr f ↦ elim (Bool-cases (str_eq f.0.tenant_id t)) [
      | inr n ↦ rw (apply_session, f.1, n) (e, refl, refl)
      | inl s ↦
          let other = other_key _ (λ y. str_eq y.tenant_id t) k i d.sessions x f.0 e f.1 o s in
          elim (Bool-cases delete) [
            | inl m ↦
                rw (apply_session, f.1, s, m)
                  (
                    find-delete _ _ k d.sessions other ∙ e,
                    filter-delete _ _ k d.messages other,
                    filter-delete _ _ k d.checkpoints other,
                  )
            | inr m ↦
                rw (apply_session, f.1, s, m)
                  (
                    e,
                    filter-update _ _ hide_message k d.messages (λ y. refl) other,
                    filter-update _ _ hide_checkpoint k d.checkpoints (λ y. refl) other,
                  )
          ]
    ]
  ]

-- A tenant's rows are not those of another.
tenant-SameDocument :
    (t : String) (delete : Bool) (d : Db) (k : String) (x : Document)
    → IsKey (λ (y : Document). y.id) d.documents
    → find (λ (y : Document). y.id) k d.documents ≡ some x
    → str_eq x.tenant_id t ≡ false
    → SameDocument k x d (apply_tenant t delete d).0
unfolding apply_tenant document_ids_of elem
tenant-SameDocument t true d k x u e o = (
  find-delete_by _ (λ y. y.tenant_id) _ k d.documents x e (ground (arith, o)),
  filter-delete _ _ k d.chunks (filter-refused _ _ k d.documents x u e o),
)
tenant-SameDocument t false d k x u e o = (
  find-update_by _ (λ y. y.tenant_id) _ hide_document k d.documents x (λ y. refl) e
      (ground (arith, o)),
  refl,
)

tenant-SameSession :
    (t : String) (delete : Bool) (d : Db) (k : String) (x : Session)
    → IsKey (λ (y : Session). y.id) d.sessions
    → find (λ (y : Session). y.id) k d.sessions ≡ some x
    → str_eq x.tenant_id t ≡ false
    → SameSession k x d (apply_tenant t delete d).0
unfolding apply_tenant session_ids_of elem
tenant-SameSession t true d k x u e o =
    let other = filter-refused _ (λ (y : Session). str_eq y.tenant_id t) k d.sessions x u e o in
    (
      find-delete_by _ (λ y. y.tenant_id) _ k d.sessions x e (ground (arith, o)),
      filter-delete _ _ k d.messages other,
      filter-delete _ _ k d.checkpoints other,
    )
tenant-SameSession t false d k x u e o =
    let other = filter-refused _ (λ (y : Session). str_eq y.tenant_id t) k d.sessions x u e o in
    (
      e,
      filter-update _ _ hide_message k d.messages (λ y. refl) other,
      filter-update _ _ hide_checkpoint k d.checkpoints (λ y. refl) other,
    )

-- A destructive request of a tenant, of any subject and in either mode, leaves each document of
-- another tenant with its chunks, and each session of another tenant with its messages and
-- checkpoints, as they are. The ids of the documents and of the sessions are primary keys.
pub apply_dsar-isolated :
    (t : String) (s : SubjectType) (i : String) (delete : Bool) (d : Db)
    → (k : String) (x : Document) (l : String) (y : Session)
    → IsKey (λ (z : Document). z.id) d.documents
    → IsKey (λ (z : Session). z.id) d.sessions
    → find (λ (z : Document). z.id) k d.documents ≡ some x
    → str_eq x.tenant_id t ≡ false
    → find (λ (z : Session). z.id) l d.sessions ≡ some y
    → str_eq y.tenant_id t ≡ false
    → SameDocument k x d (apply_dsar_destructive_action t s i delete d).0
      × SameSession l y d (apply_dsar_destructive_action t s i delete d).0
unfolding apply_dsar_destructive_action
apply_dsar-isolated t api_key i delete d k x l y u v e o f p =
    let r = api_key-rest t i delete d in
    (
      (ap (find _ k) r.0 ∙ e, ap (filter _) r.1),
      (ap (find _ l) r.2 ∙ f, ap (filter _) r.3, ap (filter _) r.4),
    )
apply_dsar-isolated t session i delete d k x l y u v e o f p =
    let r = session-rest t i delete d in
    ((ap (find _ k) r.0 ∙ e, ap (filter _) r.1), session-SameSession t i delete d l y f p)
apply_dsar-isolated t document i delete d k x l y u v e o f p =
    let r = document-rest t i delete d in
    (
      document-SameDocument t i delete d k x e o,
      (ap (find _ l) r.0 ∙ f, ap (filter _) r.1, ap (filter _) r.2),
    )
apply_dsar-isolated t tenant i delete d k x l y u v e o f p =
    (tenant-SameDocument t delete d k x u e o, tenant-SameSession t delete d l y v f p)
