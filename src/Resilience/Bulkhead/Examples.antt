-- ===== src/Resilience/Bulkhead/Examples.antt =====
-- Two permits, three takers, one lease released twice.
use nexus_rag.Prelude.{◌≡◌, refl, ◌+◌, ◌≤◌, List, [], ◌∷◌}
use nexus_rag.Resilience.Bulkhead.{new, acquire, release, release_lease}
use nexus_rag.Resilience.Bulkhead.Count.{Op, take, give_back, perform, run, held, held_within_limit}

abbrev busy : List Op
busy = take ∷ take ∷ take ∷ give_back 0 ∷ give_back 0 ∷ take ∷ []

busy-run : held (run busy (new 2)).released ≡ 2
unfolding run perform acquire release_lease new held
busy-run = refl

held_within_limit_example :
    ((run busy (new 2)).value + held (run busy (new 2)).released ≡ 2)
    × (held (run busy (new 2)).released ≤ 2)
held_within_limit_example = held_within_limit 2 busy

-- `Bulkhead.release` counts nothing: it adds a permit that nobody took.
release_overfills : (release (new 2)).value ≡ 3
unfolding release new
release_overfills = refl
