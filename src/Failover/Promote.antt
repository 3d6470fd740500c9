-- ===== src/Failover/Promote.antt =====
-- `promote_region` around its attempt: the replay, the lock, the cooldown and the token.
use nexus_rag.Prelude.{
  ℕ, ◌+◌, String, str_eq, Bool, true, false, not, Option, none, some, List, [], ◌∷◌, ltb,
  if◌then◌else◌,
}
use nexus_rag.Failover.{
  State, EventStatus, Purpose, Code, Settings, Cluster, RegionStatus, FailoverEvent, Lock, no_redis,
  free, held, Audit, World, Result, ok, raised, Transition,
}
use nexus_rag.Failover.Region.{cluster_of, local_of}
use nexus_rag.Failover.Token.{consume}
use nexus_rag.Failover.Attempt.{Attempt, Call, run_attempt}

abbrev pub same_request : Option String → Option String → Bool
same_request none none = true
same_request (some a) (some b) = str_eq a b
same_request _ _ = false

-- The latest event of the request.
unfoldable pub find_event : Option String → List FailoverEvent → Option FailoverEvent
find_event r [] = none
find_event r (e ∷ es) = if same_request e.request_id r then some e else find_event r es

abbrev pub is_final : EventStatus → Bool
is_final EventStatus.completed = true
is_final EventStatus.failed = true
is_final EventStatus.rolled_back = true
is_final _ = false

-- The answer for a request that was handled before.
unfoldable pub replay : Option FailoverEvent → Option FailoverEvent
replay none = none
replay (some e) = if is_final e.status then some e else none

-- `acquire_failover_lock`: refused where another holder has the key.
abbrev pub lock_taken : Lock → Bool
lock_taken (held l) = true
lock_taken _ = false

abbrev pub locked : String → Lock → Lock
locked l no_redis = no_redis
locked l _ = held l

-- `release_failover_lock`
abbrev pub unlocked : String → Lock → Lock
unlocked l no_redis = no_redis
unlocked l free = free
unlocked l (held k) = if str_eq k l then free else held k

abbrev pub cools : Cluster → ℕ → Bool
cools s now = elim s.cooldown_until [ none ↦ false | some t ↦ ltb now t ]

abbrev pub transition_of : Cluster → FailoverEvent → Transition
transition_of s e = record {
  status = e.status;
  from_region = e.from_region;
  to_region = e.to_region;
  epoch = s.epoch;
  freeze_writes = s.freeze_writes;
  blockers = e.blockers;
}

-- The new event of the request.
abbrev pub new_event : Call → Cluster → String → FailoverEvent
new_event o s token_id = record {
  from_region = s.active_primary_region;
  to_region = o.target_region;
  status = EventStatus.requested;
  approval_token_id = token_id;
  request_id = o.request_id;
  error_code = none;
  completed_at = none;
  state = State.idle;
  state_history = State.idle ∷ [];
  blockers = [];
}

abbrev pub start_attempt : Call → World → Cluster → String → Attempt
start_attempt o w s token_id = record {
  cluster = s;
  event = new_event o s token_id;
  audits = Audit.promote_requested ∷ w.audits;
  failed_total = w.failed_total;
}

-- The event, its cluster and the counters as the attempt leaves them.
abbrev pub with_attempt : World → RegionStatus → Attempt → World
with_attempt w local a = record w {
  cluster = some a.cluster;
  local = some local;
  events = a.event ∷ w.events;
  audits = a.audits;
  failed_total = a.failed_total;
}

-- What is done under the lock: the cooldown, the token, the event and the attempt.
unfoldable pub promote_locked : Settings → Call → World → World × Result Transition
promote_locked c o w =
    let s = cluster_of c o.now w in
    let w' = record w { cluster = some s } in
    if cools s o.now
    then (w', raised Code.cooldown_active)
    else elim (consume (o.token_hash o.plaintext_token) o.now Purpose.promote w.tokens) [
      | none ↦ (w', raised Code.token_invalid)
      | some (token, tokens) ↦
          let local = local_of c w in
          let (a, code) = run_attempt c o local (start_attempt o w s token.id) in
          let w'' = with_attempt (record w' { tokens = tokens }) local a in
          elim code [
            | some k ↦ (w'', raised k)
            | none ↦ (
              record w'' { completed_total = w.completed_total + 1 },
              ok (transition_of a.cluster a.event),
            )
          ]
    ]

-- `promote_region`
unfoldable pub promote_region : Settings → Call → World → World × Result Transition
promote_region c o w =
    if not c.failover_enabled
    then (w, raised Code.not_allowed)
    else if not (str_eq o.target_region c.region_id)
    then (w, raised Code.precheck_failed)
    else elim (replay (find_event o.request_id w.events)) [
      | some e ↦
          let s = cluster_of c o.now w in (record w { cluster = some s }, ok (transition_of s e))
      | none ↦
          if lock_taken w.lock
          then (w, raised Code.in_progress)
          else (let (w', r) = promote_locked c o (record w { lock = locked o.lock_id w.lock }) in
              (record w' { lock = unlocked o.lock_id w'.lock }, r))
    ]
