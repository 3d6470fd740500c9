-- ===== src/Failover/Safety.antt =====
-- What a promotion that completes has done, and that one region at most takes writes.
use text.Mathlib.TextPositions.{eq_refl}
use nexus_rag.Prelude.{
  ℕ, ◌+◌, ◌≡◌, inl, inr, refl, String, eq_iff, true, false, none, some, List, [], ◌∷◌, arith,
  Option-cases,
}
use nexus_rag.Failover.{
  State, EventStatus, Purpose, Settings, Cluster, RegionStatus, FailoverEvent, FailoverToken, Lock,
  no_redis, free, held, World, ok, Transition,
}
use nexus_rag.Failover.Machine.{is_path}
use nexus_rag.Failover.Region.{cluster_of, local_of}
use nexus_rag.Failover.Gate.{RouteClass, writes, enforce_write_gate}
use nexus_rag.Failover.Token.{consume}
use nexus_rag.Failover.Attempt.{Call, Attempt, run_attempt}
use nexus_rag.Failover.Promote.{
  promote_locked, promote_region, find_event, replay, lock_taken, start_attempt, locked, unlocked,
  cools,
}

-- Two regions that read the same cluster row: where the gate lets a write through in both, they are
-- one region, it is the active primary, its role is primary, and the writes are not frozen.
pub one_writer :
    (c d : Settings) (now : ℕ) (v w : World) (s : Cluster) (q r : RouteClass)
    → v.cluster ≡ some s
    → w.cluster ≡ some s
    → c.failover_enabled ≡ true
    → d.failover_enabled ≡ true
    → writes q ≡ true
    → writes r ≡ true
    → (enforce_write_gate c now q v).1 ≡ ok tt
    → (enforce_write_gate d now r w).1 ≡ ok tt
    → (c.region_id ≡ d.region_id)
      × (s.active_primary_region ≡ c.region_id)
      × (c.region_role ≡ "primary")
      × (s.freeze_writes ≡ false)
unfolding enforce_write_gate
one_writer c d now v w s q r ev ew ec ed wq wr gc gd = ground (
  arith,
  eq_iff s.active_primary_region c.region_id,
  eq_iff s.active_primary_region d.region_id,
  eq_iff c.region_role "primary",
  eq_iff d.region_role "primary",
)

-- An attempt as `promote_region` starts it.
abbrev pub IsFresh : Attempt → Type 0
IsFresh a = (a.event.state ≡ State.idle) × (a.event.state_history ≡ State.idle ∷ [])

-- What the attempt has done where it raises nothing.
pub record Completes (c : Settings) (o : Call) (local : RegionStatus) (a b : Attempt) : Type 0 where
  pub region : b.cluster.active_primary_region ≡ o.target_region
  pub epoch : b.cluster.epoch ≡ a.cluster.epoch + 1
  pub thawed : b.cluster.freeze_writes ≡ false
  pub cooling : b.cluster.cooldown_until ≡ some (o.now + c.failover_cooldown_seconds)
  pub previous : b.cluster.previous_primary ≡ some a.event.from_region
  pub status : b.event.status ≡ EventStatus.completed
  pub path : is_path b.event.state_history ≡ true
  pub probes : (o.writable_at_verification ≡ true) × (local.writable ≡ true)

pub run_attempt-Completes :
    (c : Settings) (o : Call) (local : RegionStatus) (a : Attempt)
    → IsFresh a
    → (run_attempt c o local a).1 ≡ none
    → Completes c o local a (run_attempt c o local a).0
unfolding run_attempt is_path
run_attempt-Completes c o local a f h = ground arith

-- The world after a completed promotion.
pub record Promoted (c : Settings) (o : Call) (w v : World) : Type 0 where
  pub row : v.cluster ≡ some (cluster_of c o.now v)
  pub region : (cluster_of c o.now v).active_primary_region ≡ c.region_id
  pub epoch : (cluster_of c o.now v).epoch ≡ (cluster_of c o.now w).epoch + 1
  pub thawed : (cluster_of c o.now v).freeze_writes ≡ false
  pub cooling : (cluster_of c o.now v).cooldown_until ≡ some (o.now + c.failover_cooldown_seconds)
  pub previous :
      (cluster_of c o.now v).previous_primary ≡ some (cluster_of c o.now w).active_primary_region
  pub role : c.region_role ≡ "primary"
  pub lock : v.lock ≡ w.lock
  pub token : FailoverToken
  pub spent :
      consume (o.token_hash o.plaintext_token) o.now Purpose.promote w.tokens
      ≡ some (token, v.tokens)
  pub event : FailoverEvent
  pub recorded : v.events ≡ event ∷ w.events
  pub path : is_path event.state_history ≡ true

-- What is done under the lock, with the token `k` found and the attempt raising nothing.
locked-Promoted :
    (c : Settings) (o : Call) (w : World) (k : FailoverToken × List FailoverToken)
    → consume (o.token_hash o.plaintext_token) o.now Purpose.promote w.tokens ≡ some k
    → cools (cluster_of c o.now w) o.now ≡ false
    → o.target_region ≡ c.region_id
    → (run_attempt c o (local_of c w) (start_attempt o w (cluster_of c o.now w) k.0.id)).1 ≡ none
    → Promoted c o w (promote_locked c o w).0
unfolding promote_locked cluster_of local_of
locked-Promoted c o w k e cool target h =
    let a = start_attempt o w (cluster_of c o.now w) k.0.id in
    let r = run_attempt c o (local_of c w) a in
    let d = run_attempt-Completes c o (local_of c w) a (refl, refl) h in
    record {
      row = ground arith;
      region = ground (arith, d.region);
      epoch = ground (arith, d.epoch);
      thawed = ground (arith, d.thawed);
      cooling = ground (arith, d.cooling);
      previous = ground (arith, d.previous);
      role = ground (arith, d.probes, eq_iff c.region_role "primary");
      lock = ground arith;
      token = k.0;
      spent = ground arith;
      event = r.0.event;
      recorded = ground arith;
      path = d.path;
    }

-- Where the part under the lock succeeds, its checks have passed.
locked_ok :
    (c : Settings) (o : Call) (w : World) (t : Transition)
    → (promote_locked c o w).1 ≡ ok t
    → (cools (cluster_of c o.now w) o.now ≡ false)
      × ((k : FailoverToken × List FailoverToken) × (consume
              (o.token_hash o.plaintext_token)
              o.now
              Purpose.promote
              w.tokens
            ≡ some k)
          × ((run_attempt c o (local_of c w) (start_attempt o w (cluster_of c o.now w) k.0.id)).1
              ≡ none))
unfolding promote_locked
locked_ok c o w t h =
    let tokens = consume (o.token_hash o.plaintext_token) o.now Purpose.promote w.tokens in
    elim (Option-cases tokens) [
      | inl unknown ↦ absurd (ground arith)
      | inr (k, e) ↦ (ground arith, (k, e, ground arith))
    ]

unlocked-locked : (l : String) (k : Lock) → lock_taken k ≡ false → unlocked l (locked l k) ≡ k
unlocked-locked l no_redis h = refl
unlocked-locked l free h = rw (eq_refl l)
unlocked-locked l (held m) h = cc

-- The call ran the part under the lock, on its own lock.
promote_region_ok :
    (c : Settings) (o : Call) (w : World) (t : Transition)
    → replay (find_event o.request_id w.events) ≡ none
    → (promote_region c o w).1 ≡ ok t
    → let v = record w { lock = locked o.lock_id w.lock } in
      (o.target_region ≡ c.region_id)
      × (lock_taken w.lock ≡ false)
      × ((promote_locked c o v).1 ≡ ok t)
      × ((promote_region c o w).0 ≡ record (promote_locked c o v).0 {
        lock = unlocked o.lock_id (promote_locked c o v).0.lock;
      })
unfolding promote_region
promote_region_ok c o w t new done = ground (arith, eq_iff o.target_region c.region_id)

-- A promotion that completes (and is not the replay of an earlier answer) has made the local region
-- the primary under the next epoch, thawed the writes, begun the cooldown and remembered the old
-- primary; the region's role is primary; a token is spent, the event's history is a path of the
-- state machine, and the lock is as before.
pub promote_region-Promoted :
    (c : Settings) (o : Call) (w : World) (t : Transition)
    → replay (find_event o.request_id w.events) ≡ none
    → (promote_region c o w).1 ≡ ok t
    → Promoted c o w (promote_region c o w).0
unfolding cluster_of local_of
promote_region-Promoted c o w t new done =
    let v = record w { lock = locked o.lock_id w.lock } in
    let (target, free_lock, inner, after) = promote_region_ok c o w t new done in
    let (cool, (k, e, h)) = locked_ok c o v t inner in
    let p = locked-Promoted c o v k e cool target h in
    rw after (record {
      row = p.row;
      region = p.region;
      epoch = p.epoch;
      thawed = p.thawed;
      cooling = p.cooling;
      previous = p.previous;
      role = p.role;
      lock = rw p.lock (unlocked-locked o.lock_id w.lock free_lock);
      token = p.token;
      spent = p.spent;
      event = p.event;
      recorded = p.recorded;
      path = p.path;
    })
