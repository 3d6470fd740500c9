-- ===== src/Governance/Retention/Held.antt =====
-- What a legal hold protects from a retention run.
use nexus_rag.Prelude.{
  ℕ, ◌≡◌, refl, inl, inr, String, str_eq, eq_iff, Bool, true, false, ◌&&◌, ◌||◌, none, some, List,
  [], ◌∷◌, ◌∙◌, arith, if◌then◌else◌, Bool-cases, Option-cases,
}
use nexus_rag.Prelude.Tables.{elem, filter, any, find, IsKey}
use nexus_rag.Prelude.Tables.Keys.{
  filter-refused, find-delete, find-update, find-id, filter-delete, filter-update,
}
use nexus_rag.Governance.{
  LegalHold, hold_matches_scope, first_matching, list_active_legal_holds,
  find_applicable_legal_hold, enforce_no_legal_hold,
}
use nexus_rag.Governance.Retention.{
  RetentionPolicy, is_hard_delete, tenant_hold, held_ids, eligible_ids, sweep,
}
use nexus_rag.Governance.Retention.Rows.{Message, Checkpoint, Document, Chunk, Db}
use nexus_rag.Governance.Retention.Run.{
  document_due, document_held, anonymize_document, sweep_chunks, process_messages,
  process_checkpoints, process_documents, process_audit, process_backups,
}

-- A hold of a scope that does not say of what.
unfoldable pub is_unnamed : String → LegalHold → Bool
is_unnamed scope h =
    str_eq h.scope_type scope && elim h.scope_id [ none ↦ true | some i ↦ str_eq i "" ]

matching-held :
    (scope k : String) (hs : List LegalHold) (h : LegalHold)
    → first_matching scope (some k) hs ≡ some h
    → any (is_unnamed scope) hs ≡ false
    → (tenant_hold hs || elem k (held_ids scope hs)) ≡ true
unfolding first_matching hold_matches_scope any is_unnamed tenant_hold held_ids elem
matching-held scope k [] h e u = ground arith
matching-held scope k (x ∷ xs) h e u = elim (Option-cases x.scope_id) [
  | inl o ↦ ground (arith, matching-held scope k xs h)
  | inr o ↦ ground (arith, eq_iff o.0 k, eq_iff k o.0, matching-held scope k xs h)
]

-- Such a hold of the check is one that the run sees.
pub enforced-held :
    (tenant_id : String) (now : ℕ) (scope k : String) (holds : List LegalHold)
    → enforce_no_legal_hold tenant_id now scope (some k) holds ≡ false
    → any (is_unnamed scope) (list_active_legal_holds tenant_id now holds) ≡ false
    → (tenant_hold (list_active_legal_holds tenant_id now holds)
        || elem k (held_ids scope (list_active_legal_holds tenant_id now holds)))
      ≡ true
unfolding enforce_no_legal_hold find_applicable_legal_hold
enforced-held tenant_id now scope k holds e u =
    elim (Option-cases
      (first_matching scope (some k) (list_active_legal_holds tenant_id now holds))) [
        | inl n ↦ absurd (ground (arith, n))
        | inr h ↦ matching-held scope k _ h.0 h.1 u
      ]

module _ {ℓ} {A : Type ℓ} (id_of : A → String) (is_due is_held : A → Bool) (anonymize : A → A) where
  held-ineligible :
      (k : String) (xs : List A) (x : A)
      → IsKey id_of xs
      → find id_of k xs ≡ some x
      → is_held x ≡ true
      → elem k (eligible_ids id_of is_due is_held anonymize xs) ≡ false
  unfolding eligible_ids
  held-ineligible k xs x u e h = filter-refused id_of _ k xs x u e (ground (arith, h))

  sweep-held :
      (hold hard : Bool) (k : String) (xs : List A) (x : A)
      → IsKey id_of xs
      → ((y : A) → id_of (anonymize y) ≡ id_of y)
      → find id_of k xs ≡ some x
      → (hold || is_held x) ≡ true
      → find id_of k (sweep id_of is_due is_held anonymize hold hard xs).0 ≡ some x
  unfolding sweep
  sweep-held true hard k xs x u same e h = e
  sweep-held false true k xs x u same e h =
      find-delete id_of _ k xs (held-ineligible k xs x u e h) ∙ e
  sweep-held false false k xs x u same e h =
      find-update id_of _ anonymize k xs same (held-ineligible k xs x u e h) ∙ e

sweep_chunks-held :
    (hard : Bool) (ids : List String) (k : String) (cs : List Chunk)
    → elem k ids ≡ false
    → filter (λ (c : Chunk). str_eq k c.document_id) (sweep_chunks hard ids cs)
      ≡ filter (λ (c : Chunk). str_eq k c.document_id) cs
unfolding sweep_chunks
sweep_chunks-held true ids k cs h = filter-delete _ ids k cs h
sweep_chunks-held false ids k cs h = filter-update _ ids _ k cs (λ c. refl) h

module _ (tenant_id : String) (now : ℕ) (p : RetentionPolicy) (holds : List LegalHold)
    (d : Db) where
  pub process_messages-rest :
      ((process_messages tenant_id now p holds d).0.sessions ≡ d.sessions)
      × ((process_messages tenant_id now p holds d).0.checkpoints ≡ d.checkpoints)
      × ((process_messages tenant_id now p holds d).0.documents ≡ d.documents)
      × ((process_messages tenant_id now p holds d).0.chunks ≡ d.chunks)
      × ((process_messages tenant_id now p holds d).0.audit_events ≡ d.audit_events)
  unfolding process_messages
  process_messages-rest = ground (arith, Option-cases p.messages_ttl_days)

  pub process_checkpoints-rest :
      ((process_checkpoints tenant_id now p holds d).0.messages ≡ d.messages)
      × ((process_checkpoints tenant_id now p holds d).0.documents ≡ d.documents)
      × ((process_checkpoints tenant_id now p holds d).0.chunks ≡ d.chunks)
      × ((process_checkpoints tenant_id now p holds d).0.audit_events ≡ d.audit_events)
  unfolding process_checkpoints
  process_checkpoints-rest = ground (arith, Option-cases p.checkpoints_ttl_days)

  pub process_documents-rest :
      ((process_documents tenant_id now p holds d).0.messages ≡ d.messages)
      × ((process_documents tenant_id now p holds d).0.checkpoints ≡ d.checkpoints)
      × ((process_documents tenant_id now p holds d).0.audit_events ≡ d.audit_events)
  unfolding process_documents
  process_documents-rest = ground (arith, Option-cases p.documents_ttl_days)

  pub process_audit-rest :
      ((process_audit tenant_id now p holds d).0.messages ≡ d.messages)
      × ((process_audit tenant_id now p holds d).0.checkpoints ≡ d.checkpoints)
      × ((process_audit tenant_id now p holds d).0.documents ≡ d.documents)
      × ((process_audit tenant_id now p holds d).0.chunks ≡ d.chunks)
  unfolding process_audit
  process_audit-rest = ground (arith, Option-cases p.audit_ttl_days)

  pub process_backups-rest :
      ((process_backups tenant_id now p holds d).0.messages ≡ d.messages)
      × ((process_backups tenant_id now p holds d).0.checkpoints ≡ d.checkpoints)
      × ((process_backups tenant_id now p holds d).0.documents ≡ d.documents)
      × ((process_backups tenant_id now p holds d).0.chunks ≡ d.chunks)
  unfolding process_backups
  process_backups-rest =
      ground (arith, Option-cases p.backups_ttl_days, Bool-cases (tenant_hold holds))

  pub process_documents-held :
      (k : String) (x : Document)
      → IsKey (λ (y : Document). y.id) d.documents
      → find (λ (y : Document). y.id) k d.documents ≡ some x
      → (tenant_hold holds || elem k (held_ids "document" holds)) ≡ true
      → (find (λ (y : Document). y.id) k (process_documents tenant_id now p holds d).0.documents
          ≡ some x)
        × (filter
              (λ (c : Chunk). str_eq k c.document_id)
              (process_documents tenant_id now p holds d).0.chunks
            ≡ filter (λ (c : Chunk). str_eq k c.document_id) d.chunks)
  unfolding process_documents is_hard_delete
  process_documents-held k x u e h = elim (Option-cases p.documents_ttl_days) [
    | inl o ↦ rw o (e, refl)
    | inr t ↦ rw t.1 (
      sweep-held _ _ _ anonymize_document (tenant_hold holds) _ k d.documents x u (λ y. refl) e
          (ground (arith, find-id _ k d.documents x e, h)),
      chunks_kept t.0,
    )
  ]
    where
      chunks_kept :
          (ttl : ℕ)
          → filter
              (λ (c : Chunk). str_eq k c.document_id)
              (if tenant_hold holds
                then d.chunks
                else sweep_chunks
                    (is_hard_delete p)
                    (eligible_ids
                      (λ (y : Document). y.id)
                      (document_due tenant_id now ttl)
                      (document_held holds)
                      anonymize_document
                      d.documents)
                    d.chunks)
            ≡ filter (λ (c : Chunk). str_eq k c.document_id) d.chunks
      chunks_kept ttl = elim (Bool-cases (tenant_hold holds)) [
        | inl t ↦ rw t refl
        | inr f ↦ rw f (
            sweep_chunks-held (is_hard_delete p) _ k d.chunks (
              held-ineligible _ _ (document_held holds) anonymize_document k d.documents x u e
                (ground (arith, find-id _ k d.documents x e, h, f))))
      ]

  pub process_messages-held :
      (s : String)
      → (tenant_hold holds || elem s (held_ids "session" holds)) ≡ true
      → (k : String) (x : Message) → IsKey (λ (y : Message). y.id) d.messages
      → find (λ (y : Message). y.id) k d.messages ≡ some x
      → x.session_id ≡ s
      → find (λ (y : Message). y.id) k (process_messages tenant_id now p holds d).0.messages
        ≡ some x
  unfolding process_messages is_hard_delete
  process_messages-held s h k x u e q = elim (Option-cases p.messages_ttl_days) [
    | inl o ↦ rw o e
    | inr t ↦
        rw t.1 (sweep-held _ _ _ _ (tenant_hold holds) _ k d.messages x u (λ y. refl) e (rw q h))
  ]

  pub process_checkpoints-held :
      (s : String)
      → (tenant_hold holds || elem s (held_ids "session" holds)) ≡ true
      → (k : String) (x : Checkpoint) → IsKey (λ (y : Checkpoint). y.id) d.checkpoints
      → find (λ (y : Checkpoint). y.id) k d.checkpoints ≡ some x
      → x.session_id ≡ s
      → find
          (λ (y : Checkpoint). y.id)
          k
          (process_checkpoints tenant_id now p holds d).0.checkpoints
        ≡ some x
  unfolding process_checkpoints is_hard_delete
  process_checkpoints-held s h k x u e q = elim (Option-cases p.checkpoints_ttl_days) [
    | inl o ↦ rw o e
    | inr t ↦
        rw t.1 (sweep-held _ _ _ _ (tenant_hold holds) _ k d.checkpoints x u (λ y. refl) e (rw q h))
  ]
