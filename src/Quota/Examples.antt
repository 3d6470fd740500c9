-- ===== src/Quota/Examples.antt =====
-- A plan of three requests in a day and four in a month.
use nexus_rag.Prelude.{ℕ, ◌+◌, ◌≤◌, ◌≡◌, refl, true, Option, some, List, [], ◌∷◌, arith}
use nexus_rag.Quota.{
  day, month, Plan, World, Request, count_of, set_count, note_soft_cap, is_noted,
  check_and_consume_quota, consume_all,
}
use nexus_rag.Quota.Limits.{admitted, consume_all-count, admitted-limit}

abbrev plan : Option Plan
plan = some (record {
  daily_requests_limit = some 3;
  monthly_requests_limit = some 4;
  ratio_num = 4;
  ratio_den = 5;
  hard_cap_enabled = true;
})

abbrev on_day : ℕ → Request
on_day d = record { day_start = d; month_start = 100; estimated_cost = 2 }

abbrev requests : List Request
requests = on_day 101 ∷ on_day 101 ∷ on_day 102 ∷ on_day 103 ∷ []

abbrev new : World
new = record { counters = []; soft_caps = []; announced = [] }

-- The second request is refused for its day, the last one for the month.
second_blocked :
    (check_and_consume_quota plan
      (on_day 101)
      (consume_all plan (on_day 101 ∷ []) new)).1.blocked_period
    ≡ some day
unfolding consume_all check_and_consume_quota count_of set_count note_soft_cap
second_blocked = refl

last_blocked :
    (check_and_consume_quota plan
      (on_day 103)
      (consume_all plan (on_day 101 ∷ on_day 102 ∷ []) new)).1.blocked_period
    ≡ some month
unfolding consume_all check_and_consume_quota count_of set_count note_soft_cap is_noted
last_blocked = refl

consume_all-count_example :
    count_of month 100 (consume_all plan requests new).counters
    ≡ 0 + admitted plan month 100 requests new
unfolding count_of
consume_all-count_example = consume_all-count plan month 100 requests new

admitted-limit_example : 0 + admitted plan month 100 requests new ≤ 4
unfolding count_of
admitted-limit_example = admitted-limit plan month 100 4 requests new refl refl (omega arith)
