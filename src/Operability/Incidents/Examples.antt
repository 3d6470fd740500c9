-- ===== src/Operability/Incidents/Examples.antt =====
-- An alert that repeats, is resolved and comes back.
use nexus_rag.Prelude.{
  suc, ◌≤◌, ◌≡◌, refl, String, true, not, none, some, List, [], ◌∷◌, arith, length,
}
use nexus_rag.Prelude.Tables.{find, any, elem, ids_of}
use nexus_rag.Operability.Incidents.{
  World, Alert, severity_rank, dedupe_key_of, is_active_for, find_active, change, alert_key,
  open_incident_for_alert, handle, acknowledge_incident, resolve_incident,
}
use nexus_rag.Operability.Incidents.Single.{
  Event, alert, acknowledge, resolve, perform, reopens_none, perform_all, all_reopen_none,
  count_active, one_active,
}
use nexus_rag.Operability.Incidents.Raised.{covers, alert_covered}

abbrev same : String → String
same s = s

abbrev slow : String → String → Alert
slow severity i = record {
  tenant_id = "t1";
  category = "latency";
  rule_id = some "r1";
  severity = severity;
  title = "slow";
  summary = none;
  details_json = none;
  actor_id = none;
  new_id = i;
  now = 100;
}

abbrev empty : World
empty = record { incidents = []; timeline = []; notifications = [] }

abbrev orderly : List Event
orderly =
    alert (slow "low" "i1")
    ∷ alert (slow "critical" "i2")
    ∷ acknowledge 101 "t1" "i1" none none
    ∷ resolve 102 "t1" "i1" none none
    ∷ alert (slow "low" "i3")
    ∷ []

two_rows : length (perform_all same orderly empty).incidents ≡ 2
unfolding perform_all perform open_incident_for_alert find_active dedupe_key_of change handle
    acknowledge_incident resolve_incident find severity_rank
two_rows = refl

-- A resolved incident that is acknowledged is unresolved again, next to the one opened since.
reopened :
    count_active "t1" "t1:latency:r1"
      (perform same
        (acknowledge 103 "t1" "i1" none none)
        (perform_all same orderly empty)).incidents
    ≡ 2
unfolding perform_all perform open_incident_for_alert find_active dedupe_key_of change handle
    acknowledge_incident resolve_incident find severity_rank count_active
reopened = refl

one_active_example :
    count_active "t1" "t1:latency:r1" (perform_all same orderly empty).incidents ≤ 1
unfolding all_reopen_none reopens_none perform open_incident_for_alert find_active dedupe_key_of
    change handle acknowledge_incident resolve_incident find severity_rank count_active
one_active_example = one_active same "t1" "t1:latency:r1" orderly empty refl (omega arith)

alert_covered_example :
    (any
        (covers same (slow "critical" "i2"))
        (open_incident_for_alert same
          (slow "critical" "i2")
          (perform same (alert (slow "low" "i1")) empty)).0.incidents
      ≡ true)
    × (length
          (open_incident_for_alert same
            (slow "critical" "i2")
            (perform same (alert (slow "low" "i1")) empty)).0.timeline
        ≡ suc (length (perform same (alert (slow "low" "i1")) empty).timeline))
    × (length
          (open_incident_for_alert same
            (slow "critical" "i2")
            (perform same (alert (slow "low" "i1")) empty)).0.notifications
        ≡ suc (length (perform same (alert (slow "low" "i1")) empty).notifications))
    × ((open_incident_for_alert same
          (slow "critical" "i2")
          (perform same (alert (slow "low" "i1")) empty)).2
        ≡ not (
            any
              (is_active_for "t1" (alert_key (slow "critical" "i2")))
              (perform same (alert (slow "low" "i1")) empty).incidents))
unfolding perform open_incident_for_alert find_active dedupe_key_of elem ids_of
alert_covered_example =
    alert_covered same (slow "critical" "i2") (perform same (alert (slow "low" "i1")) empty)
      (refl, tt)
