-- ===== src/Resilience/Breaker/Examples.antt =====
-- The breaker at concrete inputs.
use nexus_rag.Prelude.{◌≡◌, refl, true, List, [], ◌∷◌, arith}
use nexus_rag.Resilience.Breaker.{
  closed, half_open, open_, Config, BreakerState, Breaker, Redis, load, expire, hash, before_call,
  record_success, record_failure, new, fresh,
}
use nexus_rag.Resilience.Breaker.Machine.{Op, call, success, failure, run}
use nexus_rag.Resilience.Breaker.Refine.{Agrees, run-machine}

abbrev three : Config
three = record { failure_threshold = 3; open_seconds = 30; half_open_trials = 2 }

-- The breaker of one process, and one that shares its state.
abbrev single : Breaker
single = record { config = three; redis = Redis.no_client; local_state = fresh; transitions = [] }

abbrev shared : Breaker
shared = record { config = three; redis = Redis.missing; local_state = fresh; transitions = [] }

abbrev with_hash : BreakerState → Breaker
with_hash s = record shared { redis = hash s 120 }

abbrev outage : List Op
outage = failure 5 ∷ failure 6 ∷ failure 7 ∷ call 20 ∷ call 40 ∷ success 41 ∷ call 42 ∷ []

outage-run : (run outage shared).0.transitions ≡ closed ∷ half_open ∷ open_ ∷ []
unfolding run before_call record_success record_failure
outage-run = refl

new-shared : new three true ≡ shared
unfolding new
new-shared = refl

-- The breaker that opened in Redis is closed again once its hash has expired.
forgotten : (load (expire (run (failure 5 ∷ failure 6 ∷ failure 7 ∷ []) shared).0)).state ≡ closed
unfolding run before_call record_success record_failure load expire
forgotten = refl

run-machine_example : Agrees (outage ∷ (failure 500 ∷ []) ∷ []) shared
run-machine_example =
    run-machine (outage ∷ (failure 500 ∷ []) ∷ []) shared (omega arith, (omega arith, tt)) refl
