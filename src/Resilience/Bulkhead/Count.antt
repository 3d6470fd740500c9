-- ===== src/Resilience/Bulkhead/Count.antt =====
-- The permits of a bulkhead are counted once each.
use nexus_rag.Prelude.{
  ℕ, suc, ◌+◌, max, ◌≤◌, ◌≡◌, refl, Bool, true, false, List, [], ◌∷◌, length, if◌then◌else◌, arith,
  ◌∙◌,
}
use nexus_rag.Resilience.Bulkhead.{Bulkhead, new, acquire, mark, release_lease}

-- The leases that are still held.
unfoldable pub held : List Bool → ℕ
held [] = 0
held (true ∷ rs) = held rs
held (false ∷ rs) = suc (held rs)

pub data Op : Type 0 where
  take : Op
  give_back : ℕ → Op

unfoldable pub perform : Op → Bulkhead → Bulkhead
perform take b = (acquire b).0
perform (give_back i) b = release_lease i b

unfoldable pub run : List Op → Bulkhead → Bulkhead
run [] b = b
run (op ∷ ops) b = run ops (perform op b)

abbrev pub IsCounted : Bulkhead → Type 0
IsCounted b = b.value + held b.released ≡ b.limit

held-mark :
    (i : ℕ) (rs : List Bool) → held (mark i rs).0 + (if (mark i rs).1 then 1 else 0) ≡ held rs
unfolding held mark
held-mark i [] = refl
held-mark i (true ∷ rs) = ground (arith, held-mark i rs)
held-mark i (false ∷ rs) = ground (arith, held-mark i rs)

perform-IsCounted :
    (op : Op) (b : Bulkhead)
    → IsCounted b
    → IsCounted (perform op b) × ((perform op b).limit ≡ b.limit)
unfolding perform acquire release_lease held
perform-IsCounted take b h = ground arith
perform-IsCounted (give_back i) b h = ground (arith, held-mark i b.released)

run-IsCounted :
    (ops : List Op) (b : Bulkhead)
    → IsCounted b
    → IsCounted (run ops b) × ((run ops b).limit ≡ b.limit)
unfolding run
run-IsCounted [] b h = (h, refl)
run-IsCounted (op ∷ ops) b h =
    let one = perform-IsCounted op b h in
    let rest = run-IsCounted ops (perform op b) one.0 in (rest.0, rest.1 ∙ one.1)

-- However a new bulkhead's leases are taken and given back, also twice, its free permits and the
-- leases that are held add up to the limit, so that no more than `max(1, limit)` are ever held.
pub held_within_limit :
    (limit : ℕ) (ops : List Op)
    → ((run ops (new limit)).value + held (run ops (new limit)).released ≡ max 1 limit)
      × (held (run ops (new limit)).released ≤ max 1 limit)
unfolding new held
held_within_limit limit ops =
    let r = run-IsCounted ops (new limit) (omega arith) in (r.0 ∙ r.1, omega (arith, r.0, r.1))

length-mark : (i : ℕ) (rs : List Bool) → length (mark i rs).0 ≡ length rs
unfolding mark
length-mark i [] = refl
length-mark i (r ∷ rs) = ground (arith, length-mark i rs)

mark_twice : (i : ℕ) (rs : List Bool) → (mark i (mark i rs).0).1 ≡ false
unfolding mark
mark_twice i [] = refl
mark_twice i (r ∷ rs) = ground (arith, mark_twice i rs, length-mark i rs)
