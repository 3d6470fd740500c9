-- ===== src/Resilience/Bulkhead.antt =====
-- `class Bulkhead` and `class BulkheadLease` of nexusrag/services/resilience.py. Leases are named
-- by the order in which they were handed out.
pub mod Count
mod Examples
use nexus_rag.Prelude.{
  ℕ, zero, suc, ◌+◌, ◌-◌, max, Bool, true, false, not, Option, none, some, List, [], ◌∷◌, ◌==◌,
  length, if◌then◌else◌,
}

-- The semaphore's value and, for each lease, whether it has been released, the newest lease first.
pub record Bulkhead : Type 0 where
  pub limit : ℕ
  pub value : ℕ
  pub released : List Bool

-- `Bulkhead.__init__`
unfoldable pub new : ℕ → Bulkhead
new limit = record { limit = max 1 limit; value = max 1 limit; released = [] }

-- `Bulkhead.acquire`: the new lease's number, or `None` where the semaphore is locked.
unfoldable pub acquire : Bulkhead → Bulkhead × Option ℕ
acquire b =
    if b.value == 0
    then (b, none)
    else (record b { value = b.value - 1; released = false ∷ b.released }, some (length b.released))

-- The lease's flag, and the list with the flag set. Lease `i` stands behind the later ones.
unfoldable pub mark : ℕ → List Bool → List Bool × Bool
mark i [] = ([], false)
mark i (r ∷ rs) =
    let (rs', freed) = mark i rs in if i == length rs then (true ∷ rs, not r) else (r ∷ rs', freed)

-- `BulkheadLease.release`: gives the permit back unless the lease was released before.
unfoldable pub release_lease : ℕ → Bulkhead → Bulkhead
unfolding mark
release_lease i b =
    let (rs, freed) = mark i b.released in
    if freed then record b { value = b.value + 1; released = rs } else b

-- `Bulkhead.release`, for callers that hold no lease.
unfoldable pub release : Bulkhead → Bulkhead
release b = record b { value = b.value + 1 }
