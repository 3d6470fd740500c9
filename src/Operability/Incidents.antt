-- ===== src/Operability/Incidents.antt =====
-- nexusrag/services/operability/incidents.py: incidents that alerts open, and what operators do
-- with them. The audit records are left out; a notification is recorded as the call that sends it.
pub mod Single
pub mod Raised
mod Examples
use Prim.Native.String.{◌++◌ as append}
use nexus_rag.Prelude.{
  ℕ, String, str_eq, Bool, true, false, not, ◌&&◌, ◌||◌, Option, none, some, List, [], ◌∷◌, ltb,
  leb, if◌then◌else◌,
}
use nexus_rag.Prelude.Tables.{find}

pub data IncidentStatus : Type 0 where
  opened acknowledged assigned mitigating resolved : IncidentStatus

pub record OpsIncident : Type 0 where
  pub id : String
  pub tenant_id : String
  pub category : String
  pub rule_id : Option String
  pub severity : String
  pub status : IncidentStatus
  pub title : String
  pub summary : Option String
  pub dedupe_key : String
  pub opened_at : ℕ
  pub acknowledged_at : Option ℕ
  pub acknowledged_by : Option String
  pub assigned_to : Option String
  pub resolved_at : Option ℕ
  pub resolved_by : Option String
  pub details_json : Option String

pub record IncidentTimelineEvent : Type 0 where
  pub incident_id : String
  pub tenant_id : String
  pub event_type : String
  pub actor_id : Option String
  pub note : Option String

pub record Notification : Type 0 where
  pub tenant_id : String
  pub event_type : String
  pub incident_id : String
  pub category : String
  pub severity : String

pub record World : Type 0 where
  pub incidents : List OpsIncident
  pub timeline : List IncidentTimelineEvent
  pub notifications : List Notification

-- `_UNRESOLVED_STATUSES`
abbrev pub is_unresolved : IncidentStatus → Bool
is_unresolved resolved = false
is_unresolved _ = true

-- `_severity_rank`; `normalized` is Python's `value.strip().lower()`.
unfoldable pub severity_rank : (String → String) → String → ℕ
severity_rank normalized value =
    let v = normalized value in
    if str_eq v "sev1" || str_eq v "critical"
    then 4
    else if str_eq v "sev2" || str_eq v "high"
    then 3
    else if str_eq v "sev3" || str_eq v "medium"
    then 2
    else 1

-- `rule_id or 'none'`
abbrev pub rule_text : Option String → String
rule_text none = "none"
rule_text (some r) = if str_eq r "" then "none" else r

unfoldable pub dedupe_key_of : String → String → Option String → String
dedupe_key_of tenant_id category rule_id =
    append tenant_id (append ":" (append category (append ":" (rule_text rule_id))))

abbrev pub is_active_for : String → String → OpsIncident → Bool
is_active_for tenant_id dedupe_key r =
    str_eq r.tenant_id tenant_id && str_eq r.dedupe_key dedupe_key && is_unresolved r.status

abbrev pub later : OpsIncident → Option OpsIncident → OpsIncident
later r none = r
later r (some s) = if ltb r.opened_at s.opened_at then s else r

-- The newest unresolved incident of the key.
unfoldable pub find_active : String → String → List OpsIncident → Option OpsIncident
find_active tenant_id dedupe_key [] = none
find_active tenant_id dedupe_key (r ∷ rs) =
    let rest = find_active tenant_id dedupe_key rs in
    if is_active_for tenant_id dedupe_key r then some (later r rest) else rest

-- A change of the row with the key.
unfoldable pub change : String → (OpsIncident → OpsIncident) → List OpsIncident → List OpsIncident
change i f [] = []
change i f (r ∷ rs) = let rest = change i f rs in if str_eq i r.id then f r ∷ rs else r ∷ rest

-- `_append_timeline_event`
abbrev pub append_timeline_event :
    OpsIncident
    → String
    → Option String
    → Option String
    → List IncidentTimelineEvent
    → List IncidentTimelineEvent
append_timeline_event incident event_type actor_id note timeline =
    record {
      incident_id = incident.id;
      tenant_id = incident.tenant_id;
      event_type = event_type;
      actor_id = actor_id;
      note = note;
    }
    ∷ timeline

pub record Alert : Type 0 where
  pub tenant_id : String
  pub category : String
  pub rule_id : Option String
  pub severity : String
  pub title : String
  pub summary : Option String
  pub details_json : Option String
  pub actor_id : Option String
  -- `uuid4().hex` and `_utc_now()`
  pub new_id : String
  pub now : ℕ

abbrev pub alert_key : Alert → String
alert_key a = dedupe_key_of a.tenant_id a.category a.rule_id

abbrev pub new_incident : Alert → OpsIncident
new_incident a = record {
  id = a.new_id;
  tenant_id = a.tenant_id;
  category = a.category;
  rule_id = a.rule_id;
  severity = a.severity;
  status = opened;
  title = a.title;
  summary = a.summary;
  dedupe_key = alert_key a;
  opened_at = a.now;
  acknowledged_at = none;
  acknowledged_by = none;
  assigned_to = none;
  resolved_at = none;
  resolved_by = none;
  details_json = a.details_json;
}

-- The fields that a repeated alert writes.
abbrev pub retrigger : (String → String) → Alert → OpsIncident → OpsIncident
retrigger normalized a r = record r {
  severity =
      if ltb (severity_rank normalized r.severity) (severity_rank normalized a.severity)
      then a.severity
      else r.severity;
  details_json = a.details_json;
}

-- `open_incident_for_alert`: the world after it, the incident, and whether it is new.
unfoldable pub open_incident_for_alert :
    (String → String) → Alert → World → World × OpsIncident × Bool
open_incident_for_alert normalized a w = elim (find_active a.tenant_id (alert_key a) w.incidents) [
  | some e ↦
      let updated = retrigger normalized a e in
      (
        record {
          incidents = change e.id (retrigger normalized a) w.incidents;
          timeline =
              append_timeline_event updated "incident.retriggered" a.actor_id a.summary w.timeline;
          notifications =
              record {
                tenant_id = a.tenant_id;
                event_type = "incident.updated";
                incident_id = e.id;
                category = a.category;
                severity = updated.severity;
              }
              ∷ w.notifications;
        },
        updated,
        false,
      )
  | none ↦
      let created = new_incident a in
      (
        record {
          incidents = created ∷ w.incidents;
          timeline =
              append_timeline_event created "incident.opened" a.actor_id a.summary w.timeline;
          notifications =
              record {
                tenant_id = a.tenant_id;
                event_type = "incident.opened";
                incident_id = created.id;
                category = a.category;
                severity = a.severity;
              }
              ∷ w.notifications;
        },
        created,
        true,
      )
]

-- The steps that the three handlers of operators share: the row of the tenant, its new fields and a
-- row of the timeline.
unfoldable pub handle :
    String
    → String
    → String
    → Option String
    → Option String
    → (OpsIncident → OpsIncident)
    → World
    → World × Option OpsIncident
handle tenant_id incident_id event_type actor_id note f w =
    elim (find (λ (r : OpsIncident). r.id) incident_id w.incidents) [
      | none ↦ (w, none)
      | some r ↦ if not (str_eq r.tenant_id tenant_id) then (w, none) else (
        record w {
          incidents = change incident_id f w.incidents;
          timeline = append_timeline_event (f r) event_type actor_id note w.timeline;
        },
        some (f r),
      )
    ]

abbrev pub acknowledge_row : ℕ → Option String → OpsIncident → OpsIncident
acknowledge_row now actor_id r = record r {
  status = acknowledged;
  acknowledged_at = some now;
  acknowledged_by = actor_id;
}

abbrev pub assign_row : String → OpsIncident → OpsIncident
assign_row assignee r = record r { status = assigned; assigned_to = some assignee }

abbrev pub resolve_row : ℕ → Option String → OpsIncident → OpsIncident
resolve_row now actor_id r = record r {
  status = resolved;
  resolved_at = some now;
  resolved_by = actor_id;
}

unfoldable pub acknowledge_incident :
    ℕ → String → String → Option String → Option String → World → World × Option OpsIncident
acknowledge_incident now tenant_id incident_id actor_id note w =
    handle tenant_id incident_id "incident.acknowledged" actor_id note
      (acknowledge_row now actor_id) w

unfoldable pub assign_incident :
    String → String → Option String → String → Option String → World → World × Option OpsIncident
assign_incident tenant_id incident_id actor_id assignee note w =
    handle tenant_id incident_id "incident.assigned" actor_id note (assign_row assignee) w

unfoldable pub resolve_incident :
    ℕ → String → String → Option String → Option String → World → World × Option OpsIncident
resolve_incident now tenant_id incident_id actor_id note w =
    handle tenant_id incident_id "incident.resolved" actor_id note (resolve_row now actor_id) w
