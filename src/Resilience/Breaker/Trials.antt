-- ===== src/Resilience/Breaker/Trials.antt =====
-- The trials of the half-open state.
use nexus_rag.Prelude.{ℕ, ◌+◌, ◌-◌, ◌≡◌, List, [], ◌∷◌, arith, min, length, ap}
use nexus_rag.Resilience.Breaker.{
  half_open, BreakerState, Breaker, Answer, ok, unavailable, load, before_call,
}

abbrev pub admitted : Answer BreakerState → ℕ
admitted (ok s) = 1
admitted unavailable = 0

-- Calls at the given times with no outcome between them: how many are let through.
unfoldable pub call_all : List ℕ → Breaker → Breaker × ℕ
call_all [] b = (b, 0)
call_all (t ∷ ts) b =
    let (b', a) = before_call t b in let (b'', n) = call_all ts b' in (b'', admitted a + n)

-- One call of a half-open breaker.
trial_step :
    (t : ℕ) (b : Breaker)
    → (load b).state ≡ half_open
    → let (b', a) = before_call t b in
      ((load b').state ≡ half_open)
      × (b'.config ≡ b.config)
      × ((load b').half_open_trials ≡ (load b).half_open_trials + admitted a)
      × (admitted a ≡ min 1 (b.config.half_open_trials - (load b).half_open_trials))
unfolding load before_call
trial_step t b e = ground arith

-- However many calls arrive while the breaker is half open and no outcome is recorded, those let
-- through are as many as arrive, up to the trials that are left.
pub half_open_admits :
    (ts : List ℕ) (b : Breaker)
    → (load b).state ≡ half_open
    → (call_all ts b).1 ≡ min (length ts) (b.config.half_open_trials - (load b).half_open_trials)
unfolding call_all
half_open_admits [] b e = omega arith
half_open_admits (t ∷ ts) b e =
    let s = trial_step t b e in
    let b' = (before_call t b).0 in
    ground (arith, s, half_open_admits ts b' s.0, ap (λ c. c.half_open_trials) s.1)
