-- ===== src/Resilience/Breaker/Machine.antt =====
-- The breaker with its storage forgotten: a machine on one state, which every instance sees.
use nexus_rag.Prelude.{ℕ, ◌+◌, Option, none, some, List, [], ◌∷◌, ltb, if◌then◌else◌}
use nexus_rag.Resilience.Breaker.{
  Status, closed, half_open, open_, Config, BreakerState, Breaker, Answer, ok, unavailable, entered,
  window_over, before_call, record_success, record_failure,
}

pub data Op : Type 0 where
  call success failure : ℕ → Op

-- The time at which an operation runs.
abbrev pub time_of : Op → ℕ
time_of (call t) = t
time_of (success t) = t
time_of (failure t) = t

unfoldable pub trial : Config → BreakerState → BreakerState × Answer BreakerState
trial c s =
    if ltb s.half_open_trials c.half_open_trials
    then (let s' = record s { half_open_trials = s.half_open_trials + 1 } in (s', ok s'))
    else (s, unavailable)

unfoldable pub ask : Config → ℕ → BreakerState → Status → BreakerState × Answer BreakerState
unfolding trial
ask c now s closed = (s, ok s)
ask c now s half_open = trial c s
-- A window that is over hands the breaker to its first trial; the counters start from zero.
ask c now s open_ =
    if window_over c now s.opened_at then trial c (entered now half_open) else (s, unavailable)

unfoldable pub settle : ℕ → BreakerState → Status → BreakerState
settle now s closed = record s { failures = 0; half_open_trials = 0 }
settle now s _ = entered now closed

unfoldable pub trip : Config → ℕ → BreakerState → Status → BreakerState
trip c now s half_open = entered now open_
trip c now s _ =
    if ltb (s.failures + 1) c.failure_threshold
    then record s { failures = s.failures + 1 }
    else entered now open_

-- One operation of the machine: the state after it, and the answer of a call.
unfoldable pub machine : Config → Op → BreakerState → BreakerState × Option (Answer BreakerState)
unfolding ask settle trip
machine c (call t) s = let (s', a) = ask c t s s.state in (s', some a)
machine c (success t) s = (settle t s s.state, none)
machine c (failure t) s = (trip c t s s.state, none)

-- The same operation of the breaker itself.
unfoldable pub perform : Op → Breaker → Breaker × Option (Answer BreakerState)
perform (call t) b = let (b', a) = before_call t b in (b', some a)
perform (success t) b = (record_success t b, none)
perform (failure t) b = (record_failure t b, none)

unfoldable pub run : List Op → Breaker → Breaker × List (Option (Answer BreakerState))
unfolding perform
run [] b = (b, [])
run (op ∷ ops) b = let (b', a) = perform op b in let (b'', rest) = run ops b' in (b'', a ∷ rest)

unfoldable pub run_machine :
    Config → List Op → BreakerState → BreakerState × List (Option (Answer BreakerState))
run_machine c [] s = (s, [])
run_machine c (op ∷ ops) s =
    let (s', a) = machine c op s in let (s'', rest) = run_machine c ops s' in (s'', a ∷ rest)
