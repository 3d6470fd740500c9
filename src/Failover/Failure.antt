-- ===== src/Failover/Failure.antt =====
-- What a promotion that fails leaves behind, and that tokens, cooldowns and epochs hold against it.
use nexus_rag.Prelude.{
  ℕ, ◌+◌, ◌≡◌, ◌≢◌, ◌≤◌, ◌⊎◌, inl, inr, refl, String, eq_iff, true, false, Option, none, some, List,
  [], ◌∷◌, arith, Option-cases, if◌then◌else◌,
}
use nexus_rag.Failover.{
  EventStatus, Purpose, Code, Settings, Cluster, RegionStatus, FailoverToken, Audit, World,
}
use nexus_rag.Failover.Machine.{is_path}
use nexus_rag.Failover.Region.{cluster_of, local_of, evaluate_readiness}
use nexus_rag.Failover.Token.{consume, is_usable}
use nexus_rag.Failover.Attempt.{Call, Attempt, run_attempt, freeze_step, precheck_code}
use nexus_rag.Failover.Promote.{promote_locked, promote_region, locked, start_attempt}
use nexus_rag.Failover.Safety.{IsFresh}

-- The code that the precheck of a fresh attempt raises, if it raises one.
abbrev pub prechecked : Settings → Call → RegionStatus → Attempt → Option Code
prechecked c o local a =
    precheck_code o.force
      (evaluate_readiness c (freeze_step c a).cluster local o.peers o.writable_at_precheck)

-- A fresh attempt that its precheck refuses raises that code and moves nothing: the primary, the
-- epoch and the cooldown stay. The event has failed; its history goes to `failed` from a state that
-- the state machine does not let fail, the failure is counted twice, and unless the target is the
-- active primary the writes are thawed, also if an operator had frozen them.
pub precheck_refuses :
    (c : Settings) (o : Call) (local : RegionStatus) (a : Attempt) (k : Code)
    → IsFresh a
    → prechecked c o local a ≡ some k
    → let (b, code) = run_attempt c o local a in
      (code ≡ some k)
      × (b.cluster.active_primary_region ≡ a.cluster.active_primary_region)
      × (b.cluster.epoch ≡ a.cluster.epoch)
      × (b.cluster.cooldown_until ≡ a.cluster.cooldown_until)
      × (b.event.status ≡ EventStatus.failed)
      × (is_path b.event.state_history ≡ false)
      × (b.failed_total ≡ a.failed_total + 2)
      × (a.event.to_region ≢ a.cluster.active_primary_region → b.cluster.freeze_writes ≡ false)
unfolding run_attempt is_path
precheck_refuses c o local a k f h =
    ground (arith, eq_iff a.event.to_region a.cluster.active_primary_region)

-- A fresh attempt that passes its precheck and fails its verification has moved the primary to the
-- target under the next epoch all the same, and keeps it there; it raises, and both the failure's
-- count and its audit record are written twice.
pub verification_fails :
    (c : Settings) (o : Call) (local : RegionStatus) (a : Attempt)
    → IsFresh a
    → prechecked c o local a ≡ none
    → (o.writable_at_verification ≡ false) ⊎ (local.writable ≡ false)
    → let (b, code) = run_attempt c o local a in
      (code ≡ some Code.precheck_failed)
      × (b.cluster.active_primary_region ≡ o.target_region)
      × (b.cluster.epoch ≡ a.cluster.epoch + 1)
      × (b.event.status ≡ EventStatus.failed)
      × (is_path b.event.state_history ≡ true)
      × (b.failed_total ≡ a.failed_total + 2)
      × (b.audits ≡ Audit.promote_failed ∷ Audit.promote_failed ∷ a.audits)
unfolding run_attempt is_path
verification_fails c o local a f p h = ground arith

-- Either the primary and the epoch stay as they are, or the epoch goes up by one and the primary
-- becomes the target.
abbrev pub Moves : String → Cluster → Cluster → Type 0
Moves target s t =
    ((t.epoch ≡ s.epoch) × (t.active_primary_region ≡ s.active_primary_region))
    ⊎ ((t.epoch ≡ s.epoch + 1) × (t.active_primary_region ≡ target))

run_attempt-Moves :
    (c : Settings) (o : Call) (local : RegionStatus) (a : Attempt)
    → Moves o.target_region a.cluster (run_attempt c o local a).0.cluster
unfolding run_attempt
run_attempt-Moves c o local a = ground arith

promote_locked-Moves :
    (c : Settings) (o : Call) (w : World)
    → Moves o.target_region (cluster_of c o.now w) (cluster_of c o.now (promote_locked c o w).0)
unfolding promote_locked cluster_of
promote_locked-Moves c o w =
    let tokens = consume (o.token_hash o.plaintext_token) o.now Purpose.promote w.tokens in
    elim (Option-cases tokens) [
      | inl unknown ↦ ground arith
      | inr (k, e) ↦ ground (
        arith,
        run_attempt-Moves c o (local_of c w) (start_attempt o w (cluster_of c o.now w) k.0.id),
      )
    ]

-- Whatever a promotion does and however it ends, no epoch is shared by two primaries: the primary
-- changes only together with a step of the epoch, and only to the target.
pub promote_region-Moves :
    (c : Settings) (o : Call) (w : World)
    → Moves o.target_region (cluster_of c o.now w) (cluster_of c o.now (promote_region c o w).0)
unfolding promote_region cluster_of
promote_region-Moves c o w =
    ground (arith, promote_locked-Moves c o (record w { lock = locked o.lock_id w.lock }))

-- The tokens that would be accepted.
unfoldable pub usable : String → ℕ → Purpose → List FailoverToken → ℕ
usable h now p [] = 0
usable h now p (t ∷ ts) = (if is_usable h now p t then 1 else 0) + usable h now p ts

usable-consume :
    (h : String) (now : ℕ) (p : Purpose) (ts : List FailoverToken)
    (r : FailoverToken × List FailoverToken)
    → consume h now p ts ≡ some r
    → usable h now p ts ≡ usable h now p r.1 + 1
unfolding usable consume
usable-consume h now p [] r e = cc
usable-consume h now p (t ∷ ts) r e = elim (Option-cases (consume h now p ts)) [
  | inl none_left ↦ ground arith
  | inr (q, f) ↦ ground (arith, usable-consume h now p ts q f)
]

usable_later :
    (h : String) (now later : ℕ) (p : Purpose) (ts : List FailoverToken)
    → now ≤ later
    → usable h later p ts ≤ usable h now p ts
unfolding usable is_usable
usable_later h now later p [] l = omega arith
usable_later h now later p (t ∷ ts) l = ground (arith, usable_later h now later p ts l)

consume-none :
    (h : String) (now : ℕ) (p : Purpose) (ts : List FailoverToken)
    → usable h now p ts ≡ 0
    → consume h now p ts ≡ none
unfolding usable consume
consume-none h now p [] e = refl
consume-none h now p (t ∷ ts) e = ground (arith, consume-none h now p ts)

-- A plaintext that one row at most answers to is accepted once: after it has been consumed, it is
-- refused for the same purpose at every later time.
pub consume_once :
    (h : String) (now later : ℕ) (p : Purpose) (ts : List FailoverToken)
    (r : FailoverToken × List FailoverToken)
    → usable h now p ts ≤ 1
    → consume h now p ts ≡ some r
    → now ≤ later
    → consume h later p r.1 ≡ none
consume_once h now later p ts r one e l =
    consume-none h later p r.1
      (omega (arith, usable-consume h now p ts r e, usable_later h now later p r.1 l))
