-- ===== src/Failover/Rollback/Restore.antt =====
-- A rollback gives the primary back to the region that a promotion took it from.
use nexus_rag.Prelude.{ℕ, ◌+◌, ◌≡◌, ◌≢◌, ◌≤◌, String, eq_iff, true, false, none, some, List, arith}
use nexus_rag.Failover.{
  Purpose, Code, Settings, Cluster, FailoverToken, free, World, ok, raised, Transition,
}
use nexus_rag.Failover.Region.{cluster_of}
use nexus_rag.Failover.Token.{consume}
use nexus_rag.Failover.Attempt.{Call}
use nexus_rag.Failover.Promote.{promote_region, find_event, replay, lock_taken}
use nexus_rag.Failover.Safety.{promote_region-Promoted}
use nexus_rag.Failover.Rollback.{rollback_failover, rollback_locked, usable_previous}

module _ (c : Settings) (q : Call) (v : World) (s : Cluster) where
  -- A rollback with a good token, outside a cooldown, and the lock free.
  rollback_moves :
      (k : FailoverToken × List FailoverToken) (old : String) (t : ℕ)
      → v.cluster ≡ some s
      → s.cooldown_until ≡ some t
      → t ≤ q.now
      → s.previous_primary ≡ some old
      → old ≢ ""
      → c.failover_enabled ≡ true
      → lock_taken v.lock ≡ false
      → consume (q.token_hash q.plaintext_token) q.now Purpose.rollback v.tokens ≡ some k
      → let (u, r) = rollback_failover c q v in
        let s' = cluster_of c q.now u in
        (s'.active_primary_region ≡ old)
        × (s'.epoch ≡ s.epoch + 1)
        × (s'.freeze_writes ≡ false)
        × (u.tokens ≡ k.1)
        × (r ≢ raised Code.not_allowed)
  unfolding rollback_failover rollback_locked usable_previous cluster_of
  rollback_moves k old t row cool l prev ne on free_lock e = ground (arith, eq_iff old "")

-- After a promotion that completed, a rollback under the same settings, once the cooldown is over
-- and with a token for it, makes the old primary the primary again, two epochs later and with the
-- writes thawed.
pub promote-rollback :
    (c : Settings) (o q : Call) (w : World) (t : Transition)
    (k : FailoverToken × List FailoverToken)
    → replay (find_event o.request_id w.events) ≡ none
    → (promote_region c o w).1 ≡ ok t
    → (cluster_of c o.now w).active_primary_region ≢ ""
    → o.now + c.failover_cooldown_seconds ≤ q.now
    → c.failover_enabled ≡ true
    → w.lock ≡ free
    → consume
        (q.token_hash q.plaintext_token)
        q.now
        Purpose.rollback
        (promote_region c o w).0.tokens
      ≡ some k
    → let u = (rollback_failover c q (promote_region c o w).0).0 in
      let s = cluster_of c o.now w in
      let s' = cluster_of c q.now u in
      (s'.active_primary_region ≡ s.active_primary_region)
      × (s'.epoch ≡ s.epoch + 2)
      × (s'.freeze_writes ≡ false)
promote-rollback c o q w t k new done ne l on unheld e =
    let p = promote_region-Promoted c o w t new done in
    let v = (promote_region c o w).0 in
    let s = cluster_of c o.now v in
    let m =
      rollback_moves c q v s k (cluster_of c o.now w).active_primary_region
        (o.now + c.failover_cooldown_seconds) p.row p.cooling l p.previous ne on
        (ground (arith, p.lock)) e in
    (m.0, omega (arith, m.1, p.epoch), m.2)
