-- ===== src/Quota/Limits.antt =====
-- The counters over a sequence of requests.
use nexus_rag.Prelude.{
  ℕ, ◌+◌, ◌≤◌, ◌≡◌, refl, ap, ◌∙◌, Bool, true, ◌&&◌, ◌||◌, not, Option, some, List, [], ◌∷◌, arith,
  ◌==◌, if◌then◌else◌, Bool-cases, inl, inr,
}
use nexus_rag.Quota.{
  Period, day, month, Plan, UsageCounter, World, Request, plan_of, same_period, count_of, set_count,
  counted, note_soft_cap, exceeds, check_and_consume_quota, consume_all,
}

abbrev pub start_of : Period → Request → ℕ
start_of day r = r.day_start
start_of month r = r.month_start

abbrev pub limit_of : Period → Plan → Option ℕ
limit_of day p = p.daily_requests_limit
limit_of month p = p.monthly_requests_limit

-- What an allowed request adds to a period.
abbrev pub added_to : Period → ℕ → Request → Bool → ℕ
added_to p t r allowed = if allowed && t == start_of p r then r.estimated_cost else 0

-- The costs of the allowed requests of a period.
unfoldable pub admitted : Option Plan → Period → ℕ → List Request → World → ℕ
admitted plan p t [] w = 0
admitted plan p t (r ∷ rs) w =
    let (w', q) = check_and_consume_quota plan r w in
    added_to p t r q.allowed + admitted plan p t rs w'

count-set :
    (p p' : Period) (t t' n : ℕ) (cs : List UsageCounter)
    → count_of p t (set_count p' t' n cs)
      ≡ (if same_period p p' && t == t' then n else count_of p t cs)
unfolding count_of set_count
count-set p p' t t' n [] = refl
count-set p p' t t' n (c ∷ cs) = ground (arith, count-set p p' t t' n cs)

note-counters :
    (b : Bool) (p : Period) (t : ℕ) (w : World) → (note_soft_cap b p t w).counters ≡ w.counters
unfolding note_soft_cap
note-counters b p t w = ground arith

-- What a request adds to both counters.
abbrev cost_of : Request → Bool → ℕ
cost_of r allowed = if allowed then r.estimated_cost else 0

abbrev pub blocks : Plan → Request → World → Bool
blocks p r w =
    p.hard_cap_enabled
    && (exceeds p.daily_requests_limit (count_of day r.day_start w.counters + r.estimated_cost)
        || exceeds p.monthly_requests_limit
            (count_of month r.month_start w.counters + r.estimated_cost))

consume-allowed :
    (plan : Option Plan) (r : Request) (w : World)
    → (check_and_consume_quota plan r w).1.allowed ≡ not (blocks (plan_of plan) r w)
unfolding check_and_consume_quota
consume-allowed plan r w = elim (Bool-cases (blocks (plan_of plan) r w)) [
  | inl stops ↦ rw stops refl
  | inr passes ↦ rw passes refl
]

consume-counters :
    (plan : Option Plan) (r : Request) (w : World)
    → (check_and_consume_quota plan r w).0.counters
      ≡ (counted r
          (count_of day r.day_start w.counters + cost_of r (not (blocks (plan_of plan) r w)))
          (count_of month r.month_start w.counters + cost_of r (not (blocks (plan_of plan) r w)))
          w).counters
unfolding check_and_consume_quota
consume-counters plan r w = elim (Bool-cases (blocks (plan_of plan) r w)) [
  | inl stops ↦ rw stops (ground arith)
  | inr passes ↦
      rw passes (note-counters _ month r.month_start _ ∙ note-counters _ day r.day_start _)
]

counted-count :
    (p : Period) (t x : ℕ) (r : Request) (w : World)
    → count_of p t
        (counted r
          (count_of day r.day_start w.counters + x)
          (count_of month r.month_start w.counters + x)
          w).counters
      ≡ count_of p t w.counters + (if t == start_of p r then x else 0)
counted-count day t x r w = ground (
  arith,
  count-set day month t r.month_start (count_of month r.month_start w.counters + x)
      (set_count day r.day_start (count_of day r.day_start w.counters + x) w.counters),
  count-set day day t r.day_start (count_of day r.day_start w.counters + x) w.counters,
)
counted-count month t x r w = ground (
  arith,
  count-set month month t r.month_start (count_of month r.month_start w.counters + x)
      (set_count day r.day_start (count_of day r.day_start w.counters + x) w.counters),
  count-set month day t r.day_start (count_of day r.day_start w.counters + x) w.counters,
)

consume-count :
    (plan : Option Plan) (p : Period) (t : ℕ) (r : Request) (w : World)
    → count_of p t (check_and_consume_quota plan r w).0.counters
      ≡ count_of p t w.counters + added_to p t r (check_and_consume_quota plan r w).1.allowed
consume-count plan p t r w =
    ap (count_of p t) (consume-counters plan r w)
    ∙ counted-count p t (cost_of r (not (blocks (plan_of plan) r w))) r w
    ∙ ground (arith, consume-allowed plan r w)

-- A counter counts exactly the costs of the requests of its period that were allowed, whichever
-- requests of other periods come in between.
pub consume_all-count :
    (plan : Option Plan) (p : Period) (t : ℕ) (rs : List Request) (w : World)
    → count_of p t (consume_all plan rs w).counters
      ≡ count_of p t w.counters + admitted plan p t rs w
unfolding consume_all admitted
consume_all-count plan p t [] w = omega arith
consume_all-count plan p t (r ∷ rs) w = omega (
  arith,
  consume_all-count plan p t rs (check_and_consume_quota plan r w).0,
  consume-count plan p t r w,
)

-- An allowed request stays within the limit.
allowed-limit :
    (plan : Option Plan) (p : Period) (t limit : ℕ) (r : Request) (w : World)
    → (plan_of plan).hard_cap_enabled ≡ true
    → limit_of p (plan_of plan) ≡ some limit
    → count_of p t w.counters ≤ limit
    → count_of p t w.counters + added_to p t r (check_and_consume_quota plan r w).1.allowed ≤ limit
allowed-limit plan day t limit r w hard l before = ground (arith, consume-allowed plan r w)
allowed-limit plan month t limit r w hard l before = ground (arith, consume-allowed plan r w)

-- Under a hard cap, where what a day or a month has used so far is within its limit, it stays within
-- it with the costs of the requests that are allowed, in whatever order requests of all periods
-- come.
pub admitted-limit :
    (plan : Option Plan) (p : Period) (t limit : ℕ) (rs : List Request) (w : World)
    → (plan_of plan).hard_cap_enabled ≡ true
    → limit_of p (plan_of plan) ≡ some limit
    → count_of p t w.counters ≤ limit
    → count_of p t w.counters + admitted plan p t rs w ≤ limit
unfolding admitted
admitted-limit plan p t limit [] w hard l before = omega (arith, before)
admitted-limit plan p t limit (r ∷ rs) w hard l before =
    let w' = (check_and_consume_quota plan r w).0 in
    let within = allowed-limit plan p t limit r w hard l before in
    omega (
      arith,
      consume-count plan p t r w,
      admitted-limit plan p t limit rs w' hard l
          (omega (arith, within, consume-count plan p t r w)),
    )
