-- ===== src/Idempotency/Replay.antt =====
-- What a stored response answers.
use nexus_rag.Prelude.{
  ℕ, ◌+◌, ◌*◌, ◌≤◌, ◌≡◌, refl, inl, inr, String, str_eq, eq_iff, Bool, true, false, not, ◌||◌,
  Option, none, some, List, [], ◌∷◌, arith, ltb, if◌then◌else◌, Bool-cases,
}
use nexus_rag.Prelude.Tables.{filter, any}
use nexus_rag.Authz.{Value}
use nexus_rag.Idempotency.{
  IdempotencyScope, same_scope, IdempotencyRecord, IdempotencyContext, conflict, proceed, replay,
  extract_request_id, find_live, answer, store_idempotency_response, prune_idempotency,
}

abbrev pub has_scope : IdempotencyScope → List IdempotencyRecord → Bool
has_scope s rows = any (λ r. same_scope r.scope s) rows

same_scope_refl : (s : IdempotencyScope) → same_scope s s ≡ true
same_scope_refl s = ground (
  arith,
  eq_iff s.tenant_id s.tenant_id,
  eq_iff s.actor_id s.actor_id,
  eq_iff s.method s.method,
  eq_iff s.path s.path,
  eq_iff s.key s.key,
)

find_live-none :
    (s : IdempotencyScope) (now : ℕ) (rows : List IdempotencyRecord)
    → has_scope s rows ≡ false
    → find_live s now rows ≡ none
unfolding find_live any
find_live-none s now [] h = refl
find_live-none s now (r ∷ rs) h = ground (arith, find_live-none s now rs)

-- After the response of a context was stored in a table that has no record of the scope, a check of
-- the scope answers until the record expires: the stored status and body for the same request hash,
-- a conflict for another. From then on the request proceeds.
pub store-check :
    (stored_at now : ℕ) (c : IdempotencyContext) (response_status : ℕ) (body : Option Value)
    → (rows : List IdempotencyRecord) (request_hash : String) → has_scope c.scope rows ≡ false
    → answer
        (record c { request_hash = request_hash })
        (find_live c.scope now
          (store_idempotency_response true stored_at (some c) response_status body rows))
      ≡ (if not (ltb now (stored_at + c.ttl_hours * 3600))
          then proceed (record c { request_hash = request_hash })
          else if not (str_eq c.request_hash request_hash)
          then conflict
          else replay (record {
            status_code = response_status;
            body = body;
            request_id = extract_request_id body;
          }))
unfolding answer find_live store_idempotency_response
store-check stored_at now c response_status body rows request_hash h =
    elim (Bool-cases (ltb now (stored_at + c.ttl_hours * 3600))) [
      | inl t ↦ rw (h, same_scope_refl c.scope, t) refl
      | inr f ↦ rw (h, same_scope_refl c.scope, f, find_live-none c.scope now rows h) refl
    ]

find_live-later :
    (s : IdempotencyScope) (t now : ℕ) (rows : List IdempotencyRecord)
    → t ≤ now
    → find_live s t rows ≡ none
    → find_live s now rows ≡ none
unfolding find_live
find_live-later s t now [] h e = refl
find_live-later s t now (r ∷ rs) h e = ground (arith, find_live-later s t now rs h)

-- A key that is used again after its record has expired, and before that record is pruned, is not
-- protected: its response is not stored, and the same request proceeds once more at each later
-- time.
pub expired_key-proceeds :
    (stored_at now : ℕ) (c : IdempotencyContext) (response_status : ℕ) (body : Option Value)
    → (rows : List IdempotencyRecord) → stored_at ≤ now
    → has_scope c.scope rows ≡ true
    → find_live c.scope stored_at rows ≡ none
    → answer c (
        find_live c.scope now
          (store_idempotency_response true stored_at (some c) response_status body rows))
      ≡ proceed c
unfolding answer store_idempotency_response
expired_key-proceeds stored_at now c response_status body rows h s e =
    rw (s, find_live-later c.scope stored_at now rows h e) refl

-- Pruning at a time changes no later answer.
pub find-prune :
    (s : IdempotencyScope) (t now : ℕ) (rows : List IdempotencyRecord)
    → t ≤ now
    → find_live s now (prune_idempotency t rows) ≡ find_live s now rows
unfolding find_live prune_idempotency filter
find-prune s t now [] h = refl
find-prune s t now (r ∷ rs) h = ground (arith, find-prune s t now rs h)

-- The table has one record of a scope at most.
abbrev pub OnePerScope : List IdempotencyRecord → Type 0
OnePerScope [] = Unit
OnePerScope (r ∷ rs) = (has_scope r.scope rs ≡ false) × OnePerScope rs

-- Storing a response keeps the records of other scopes, and one record of a scope at most, so a
-- check finds one record or none; a check of another scope answers as before.
pub store-OnePerScope :
    (db_up : Bool) (stored_at : ℕ) (c : IdempotencyContext) (response_status : ℕ)
    → (body : Option Value) (rows : List IdempotencyRecord) (s : IdempotencyScope) (now : ℕ)
    → OnePerScope rows
    → same_scope c.scope s ≡ false
    → OnePerScope (store_idempotency_response db_up stored_at (some c) response_status body rows)
      × (find_live s now
            (store_idempotency_response db_up stored_at (some c) response_status body rows)
          ≡ find_live s now rows)
unfolding store_idempotency_response find_live
store-OnePerScope db_up stored_at c response_status body rows s now o n =
    elim (Bool-cases (not db_up || has_scope c.scope rows)) [
      | inl t ↦ rw t (o, refl)
      | inr f ↦ rw f ((ground arith, o), rw n refl)
    ]
