-- ===== src/Resilience/Breaker/Refine.antt =====
-- Where the state is kept, locally or in Redis, makes no difference to what the breaker does until the
-- hash in Redis expires.
use nexus_rag.Prelude.{
  ◌<◌, ◌≡◌, ◌⊎◌, ◌∙◌, inl, inr, refl, Bool, true, false, List, [], ◌∷◌, arith, All, Bool-cases,
}
use nexus_rag.Resilience.Breaker.{
  Redis, no_client, missing, hash, Breaker, stored_time, load, expire, before_call, record_success,
  record_failure,
}
use nexus_rag.Resilience.Breaker.Machine.{
  Op, call, success, failure, time_of, machine, perform, run, run_machine,
}

-- No state carries the time 0, which Redis cannot store.
abbrev pub IsTimed : Breaker → Type 0
IsTimed b = stored_time b.local_state.opened_at ≡ b.local_state.opened_at

-- What one operation keeps, and what it shows.
pub record Refines (op : Op) (b : Breaker) : Type 0 where
  pub config_kept : (perform op b).0.config ≡ b.config
  pub timed : IsTimed (perform op b).0
  pub state_agrees : load (perform op b).0 ≡ (machine b.config op (load b)).0
  pub answer_agrees : (perform op b).1 ≡ (machine b.config op (load b)).1

pub perform-Refines : (op : Op) (b : Breaker) → 0 < time_of op → IsTimed b → Refines op b
unfolding perform machine before_call record_success record_failure load
perform-Refines (call t) b p h = ground arith
perform-Refines (success t) b p h = ground arith
perform-Refines (failure t) b p h = ground arith

run-unexpired :
    (ops : List Op) (b : Breaker)
    → All (λ op. 0 < time_of op) ops
    → IsTimed b
    → (load (run ops b).0 ≡ (run_machine b.config ops (load b)).0)
      × ((run ops b).1 ≡ (run_machine b.config ops (load b)).1)
      × IsTimed (run ops b).0
unfolding run run_machine
run-unexpired [] b p h = (refl, refl, h)
run-unexpired (op ∷ ops) b p h =
    let r = perform-Refines op b p.0 h in
    let b' = (perform op b).0 in
    let (s, a, t) = run-unexpired ops b' p.1 r.timed in
    (ground (arith, r, s, a), ground (arith, r, s, a), t)

-- Whether there is a hash.
abbrev pub is_stored : Redis → Bool
is_stored no_client = false
is_stored missing = false
is_stored (hash s ttl) = true

perform-stored :
    (op : Op) (b : Breaker)
    → is_stored b.redis ≡ true
    → (is_stored (perform op b).0.redis ≡ true) × ((perform op b).0.local_state ≡ b.local_state)
unfolding perform before_call record_success record_failure load
perform-stored (call t) b h = ground arith
perform-stored (success t) b h = ground arith
perform-stored (failure t) b h = ground arith

run-stored :
    (ops : List Op) (b : Breaker)
    → is_stored b.redis ≡ true
    → (run ops b).0.local_state ≡ b.local_state
unfolding run
run-stored [] b h = refl
run-stored (op ∷ ops) b h =
    let s = perform-stored op b h in run-stored ops (perform op b).0 s.0 ∙ s.1

-- The runs between two expiries of the hash, one after the other. Each gives the answers of the
-- machine and ends in its state, from the state that it begins in; with the next expiry the state
-- falls back to the local one, which is still that of the begin if there was a hash then.
abbrev pub Agrees : List (List Op) → Breaker → Type 0
Agrees [] b = Unit
Agrees (ops ∷ rest) b =
    (load (run ops b).0 ≡ (run_machine b.config ops (load b)).0)
    × ((run ops b).1 ≡ (run_machine b.config ops (load b)).1)
    × (load (expire (run ops b).0) ≡ (run ops b).0.local_state)
    × ((is_stored b.redis ≡ false) ⊎ ((run ops b).0.local_state ≡ b.local_state))
    × Agrees rest (expire (run ops b).0)

expire-load : (b : Breaker) → load (expire b) ≡ b.local_state
unfolding load expire
expire-load b = ground arith

expire-IsTimed : (b : Breaker) → IsTimed b → IsTimed (expire b)
unfolding expire
expire-IsTimed b h = h

-- Wherever the hash in Redis expires in a run of calls and outcomes at positive times, and also where
-- there is no Redis: up to the next expiry the breaker gives the answers of the machine and ends in
-- its state, from the state that it has then. An expiry brings the local state back, which no
-- operation changes while there is a hash.
pub run-machine :
    (runs : List (List Op)) (b : Breaker)
    → All (All (λ op. 0 < time_of op)) runs
    → IsTimed b
    → Agrees runs b
run-machine [] b p h = tt
run-machine (ops ∷ rest) b p h =
    let (s, a, t) = run-unexpired ops b p.0 h in
    (
      s,
      a,
      expire-load (run ops b).0,
      elim (Bool-cases (is_stored b.redis)) [ inl y ↦ inr (run-stored ops b y) | inr n ↦ inl n ],
      run-machine rest (expire (run ops b).0) p.1 (expire-IsTimed (run ops b).0 t),
    )
