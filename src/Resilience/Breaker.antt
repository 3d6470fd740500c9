-- ===== src/Resilience/Breaker.antt =====
-- `class CircuitBreaker` of nexusrag/services/resilience.py. Times are ticks of the breaker's time
-- source, and `open_seconds` counts in the same ticks. The breaker keeps a local state, and a hash
-- in Redis where a client is given. `_load` hands out the local object itself, so what a method
-- writes into a state that was loaded from there is written into the local state too, also where
-- the save then goes to Redis.
pub mod Machine
pub mod Refine
pub mod Window
pub mod Trials
mod Examples
use nexus_rag.Prelude.{
  ℕ, zero, suc, ◌+◌, ◌*◌, max, Bool, true, false, Option, none, some, List, [], ◌∷◌, ltb, leb,
  if◌then◌else◌,
}

pub data Status : Type 0 where
  closed half_open open_ : Status

-- `state != target`
abbrev pub differs : Status → Status → Bool
differs closed closed = false
differs half_open half_open = false
differs open_ open_ = false
differs _ _ = true

pub record Config : Type 0 where
  pub failure_threshold : ℕ
  pub open_seconds : ℕ
  pub half_open_trials : ℕ

pub record BreakerState : Type 0 where
  pub state : Status
  pub failures : ℕ
  pub opened_at : Option ℕ
  pub half_open_trials : ℕ

-- The client: none at all, no hash under the breaker's key, or the fields of the hash with the time
-- to live that the last save gave it.
pub data Redis : Type 0 where
  no_client : Redis
  missing : Redis
  hash : BreakerState → ℕ → Redis

-- `transitions` holds the targets that `on_transition` was called with, the last one first.
pub record Breaker : Type 0 where
  pub config : Config
  pub redis : Redis
  pub local_state : BreakerState
  pub transitions : List Status

pub data Answer (A : Type 0) : Type 0 where
  ok : A → Answer A
  unavailable : Answer A

abbrev pub fresh : BreakerState
fresh = record { state = closed; failures = 0; opened_at = none; half_open_trials = 0 }

-- `CircuitBreaker.__init__`
unfoldable pub new : Config → Bool → Breaker
new c with_redis = record {
  config = c;
  redis = if with_redis then missing else no_client;
  local_state = fresh;
  transitions = [];
}

-- `str(state.opened_at or "")`, read back by `_load`: the time 0 is false and is lost.
abbrev pub stored_time : Option ℕ → Option ℕ
stored_time none = none
stored_time (some zero) = none
stored_time (some (suc t)) = some (suc t)

abbrev pub from_redis : Redis → BreakerState → BreakerState
from_redis no_client l = l
from_redis missing l = l
from_redis (hash s ttl) l = record s { opened_at = stored_time s.opened_at }

-- `_load`
unfoldable pub load : Breaker → BreakerState
load b = from_redis b.redis b.local_state

abbrev pub expired : Redis → Redis
expired no_client = no_client
expired missing = missing
expired (hash s ttl) = missing

-- Redis drops the hash, whose time to live has passed since the last save; `_load` then falls back to
-- the local state, however old that is.
unfoldable pub expire : Breaker → Breaker
expire b = record b { redis = expired b.redis }

-- An assignment to a field of the loaded object: seen in the local state where `_load` returned it.
abbrev pub assigned : Redis → BreakerState → BreakerState → BreakerState
assigned no_client l s = s
assigned missing l s = s
assigned (hash _ _) l s = l

abbrev pub saved : Config → Redis → BreakerState → Redis
saved c no_client s = no_client
saved c missing s = hash s (max (c.open_seconds * 4) 60)
saved c (hash _ _) s = hash s (max (c.open_seconds * 4) 60)

abbrev pub saved_local : Redis → BreakerState → BreakerState → BreakerState
saved_local no_client l s = s
saved_local missing l s = l
saved_local (hash _ _) l s = l

-- `_save`
unfoldable pub save : Breaker → BreakerState → Breaker
save b s = record b {
  redis = saved b.config b.redis s;
  local_state = saved_local b.redis b.local_state s;
}

-- A method that writes into the loaded object and then saves it.
unfoldable pub write : Breaker → BreakerState → Breaker
unfolding save
write b s = save (record b { local_state = assigned b.redis b.local_state s }) s

abbrev pub is_open : Status → Bool
is_open open_ = true
is_open _ = false

-- The new state that `_transition` returns.
abbrev pub entered : ℕ → Status → BreakerState
entered now target = record {
  state = target;
  failures = 0;
  opened_at = if is_open target then some now else none;
  half_open_trials = 0;
}

-- `_transition`: a change of state calls `on_transition`.
unfoldable pub transition : ℕ → Breaker → BreakerState → Status → Breaker × BreakerState
transition now b s target = (
  if differs s.state target then record b { transitions = target ∷ b.transitions } else b,
  entered now target,
)

-- `opened_at is not None and (now - opened_at) >= open_seconds`, over the integers.
abbrev pub window_over : Config → ℕ → Option ℕ → Bool
window_over c now none = false
window_over c now (some t) = leb (t + c.open_seconds) now

-- The second half of `before_call`: the trials of the half-open state.
unfoldable pub admit : Breaker → BreakerState → Status → Breaker × Answer BreakerState
unfolding write
admit b s half_open =
    if leb b.config.half_open_trials s.half_open_trials
    then (b, unavailable)
    else let s' = record s { half_open_trials = s.half_open_trials + 1 } in (write b s', ok s')
admit b s _ = (b, ok s)

-- `before_call`, on the state that was loaded.
unfoldable pub decide : ℕ → Breaker → BreakerState → Status → Breaker × Answer BreakerState
unfolding transition save admit
decide now b s open_ =
    if window_over b.config now s.opened_at
    then (let (b', s') = transition now b s half_open in admit (save b' s') s' s'.state)
    else (b, unavailable)
decide now b s st = admit b s st

unfoldable pub before_call : ℕ → Breaker → Breaker × Answer BreakerState
unfolding load decide
before_call now b = let s = load b in decide now b s s.state

-- `record_success`
unfoldable pub record_success : ℕ → Breaker → Breaker
unfolding load transition save write
record_success now b =
    let s = load b in
    if differs s.state closed
    then (let (b', s') = transition now b s closed in save b' s')
    else write b (record s { failures = 0; half_open_trials = 0 })

abbrev pub is_half_open : Status → Bool
is_half_open half_open = true
is_half_open _ = false

-- `record_failure`
unfoldable pub record_failure : ℕ → Breaker → Breaker
unfolding load transition save write
record_failure now b =
    let s = load b in
    if is_half_open s.state
    then (let (b', s') = transition now b s open_ in save b' s')
    else if leb b.config.failure_threshold (s.failures + 1)
    then (let (b', s') = transition now b s open_ in save b' s')
    else write b (record s { failures = s.failures + 1 })
