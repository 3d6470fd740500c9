-- ===== src/Operability/Incidents/Single.antt =====
-- At most one unresolved incident of a key.
use nexus_rag.Prelude.{
  ℕ, suc, ◌≤◌, ◌≡◌, refl, inl, inr, String, str_eq, eq_iff, Bool, true, ◌&&◌, Option, none, some,
  List, [], ◌∷◌, arith, if◌then◌else◌, Bool-cases, Option-cases,
}
use nexus_rag.Prelude.Tables.{find}
use nexus_rag.Operability.Incidents.{
  OpsIncident, World, Alert, is_unresolved, is_active_for, find_active, change, alert_key,
  new_incident, retrigger, acknowledge_row, assign_row, resolve_row, open_incident_for_alert,
  handle, acknowledge_incident, assign_incident, resolve_incident,
}

-- What can happen to the incidents.
pub data Event : Type 0 where
  alert : Alert → Event
  acknowledge : ℕ → String → String → Option String → Option String → Event
  assign : String → String → Option String → String → Option String → Event
  resolve : ℕ → String → String → Option String → Option String → Event

unfoldable pub perform : (String → String) → Event → World → World
perform n (alert a) w = (open_incident_for_alert n a w).0
perform n (acknowledge now t i actor remark) w = (acknowledge_incident now t i actor remark w).0
perform n (assign t i actor assignee remark) w = (assign_incident t i actor assignee remark w).0
perform n (resolve now t i actor remark) w = (resolve_incident now t i actor remark w).0

abbrev pub unresolved_row : Option OpsIncident → Bool
unresolved_row none = true
unresolved_row (some r) = is_unresolved r.status

abbrev pub is_open_or_absent : String → World → Bool
is_open_or_absent i w = unresolved_row (find (λ (r : OpsIncident). r.id) i w.incidents)

-- No resolved incident is acknowledged or assigned.
unfoldable pub reopens_none : Event → World → Bool
reopens_none (alert a) w = true
reopens_none (acknowledge now t i actor remark) w = is_open_or_absent i w
reopens_none (assign t i actor assignee remark) w = is_open_or_absent i w
reopens_none (resolve now t i actor remark) w = true

unfoldable pub perform_all : (String → String) → List Event → World → World
perform_all n [] w = w
perform_all n (e ∷ es) w = perform_all n es (perform n e w)

unfoldable pub all_reopen_none : (String → String) → List Event → World → Bool
all_reopen_none n [] w = true
all_reopen_none n (e ∷ es) w = reopens_none e w && all_reopen_none n es (perform n e w)

unfoldable pub count_active : String → String → List OpsIncident → ℕ
count_active t k [] = 0
count_active t k (r ∷ rs) =
    let rest = count_active t k rs in if is_active_for t k r then suc rest else rest

find_active-count :
    (t k : String) (rs : List OpsIncident) → find_active t k rs ≡ none → count_active t k rs ≡ 0
unfolding find_active count_active
find_active-count t k [] h = refl
find_active-count t k (r ∷ rs) h = ground (arith, find_active-count t k rs)

-- A change of a row that makes no row active leaves no more active rows.
change-count :
    (t k i : String) (f : OpsIncident → OpsIncident) (rs : List OpsIncident)
    → ((r : OpsIncident)
        → find (λ (x : OpsIncident). x.id) i rs ≡ some r
        → is_active_for t k (f r) ≡ true
        → is_active_for t k r ≡ true)
    → count_active t k (change i f rs) ≤ count_active t k rs
unfolding change count_active find
change-count t k i f [] h = omega arith
change-count t k i f (r ∷ rs) h = elim (Bool-cases (str_eq i r.id)) [
  | inl e ↦ head e (h r (rw e refl))
  | inr e ↦ let ih = change-count t k i f rs (λ x q. h x (rw e q)) in rw e (ground (arith, ih))
]
  where
    head :
        str_eq i r.id ≡ true
        → (is_active_for t k (f r) ≡ true → is_active_for t k r ≡ true)
        → count_active t k (change i f (r ∷ rs)) ≤ count_active t k (r ∷ rs)
    head e q = elim (Bool-cases (is_active_for t k (f r))) [
      | inl p ↦ rw (e, p, q p) (omega arith)
      | inr p ↦ rw (e, p) (ground arith)
    ]

handle-count :
    (t k tenant_id i event_type : String) (actor_id remark : Option String)
    → (f : OpsIncident → OpsIncident) (w : World)
    → ((r : OpsIncident)
        → find (λ (x : OpsIncident). x.id) i w.incidents ≡ some r
        → is_active_for t k (f r) ≡ true
        → is_active_for t k r ≡ true)
    → count_active t k (handle tenant_id i event_type actor_id remark f w).0.incidents
      ≤ count_active t k w.incidents
unfolding handle
handle-count t k tenant_id i event_type actor_id remark f w h =
    elim (Option-cases (find (λ (x : OpsIncident). x.id) i w.incidents)) [
      | inl n ↦ rw (handle, n) (omega arith)
      | inr r ↦ elim (Bool-cases (str_eq r.0.tenant_id tenant_id)) [
        | inr n ↦ rw (handle, r.1, n) (omega arith)
        | inl q ↦ rw (handle, r.1, q) (change-count t k i f w.incidents h)
      ]
    ]

opened_count :
    (n : String → String) (t k : String) (a : Alert) (w : World)
    → count_active t k w.incidents ≤ 1
    → find_active a.tenant_id (alert_key a) w.incidents ≡ none
    → count_active t k (new_incident a ∷ w.incidents) ≤ 1
unfolding count_active
opened_count n t k a w h e = ground (
  arith,
  eq_iff a.tenant_id t,
  eq_iff (alert_key a) k,
  find_active-count a.tenant_id (alert_key a) w.incidents e,
)

alert-count :
    (n : String → String) (t k : String) (a : Alert) (w : World)
    → count_active t k w.incidents ≤ 1
    → count_active t k (open_incident_for_alert n a w).0.incidents ≤ 1
unfolding open_incident_for_alert
alert-count n t k a w h = elim (Option-cases (find_active a.tenant_id (alert_key a) w.incidents)) [
  | inr e ↦
      rw (open_incident_for_alert, e.1)
        (omega (arith, change-count t k e.0.id (retrigger n a) w.incidents (λ r q p. p)))
  | inl e ↦ rw (open_incident_for_alert, e) (opened_count n t k a w h e)
]

still_active :
    (t k i : String) (r : OpsIncident) (w : World)
    → is_open_or_absent i w ≡ true
    → find (λ (x : OpsIncident). x.id) i w.incidents ≡ some r
    → (str_eq r.tenant_id t && str_eq r.dedupe_key k) ≡ true
    → is_active_for t k r ≡ true
still_active t k i r w c q p =
    let u : is_unresolved r.status ≡ true = rw q at c in ground (arith, u, p)

perform-count :
    (n : String → String) (t k : String) (e : Event) (w : World)
    → reopens_none e w ≡ true
    → count_active t k w.incidents ≤ 1
    → count_active t k (perform n e w).incidents ≤ 1
unfolding perform reopens_none acknowledge_incident assign_incident resolve_incident
perform-count n t k (alert a) w c h = alert-count n t k a w h
perform-count n t k (acknowledge now tenant i actor remark) w c h = omega (
  arith,
  handle-count t k tenant i "incident.acknowledged" actor remark (acknowledge_row now actor) w
      (λ r q p. still_active t k i r w c q (ground arith)),
)
perform-count n t k (assign tenant i actor assignee remark) w c h = omega (
  arith,
  handle-count t k tenant i "incident.assigned" actor remark (assign_row assignee) w
      (λ r q p. still_active t k i r w c q (ground arith)),
)
perform-count n t k (resolve now tenant i actor remark) w c h = omega (
  arith,
  handle-count t k tenant i "incident.resolved" actor remark (resolve_row now actor) w
      (λ r q p. absurd (ground arith)),
)

-- Over any sequence of alerts, acknowledgements, assignments and resolutions that starts with at
-- most one unresolved incident of a tenant and a dedupe key, and in which no resolved incident is
-- acknowledged or assigned, there is at most one of them at the end.
pub one_active :
    (n : String → String) (t k : String) (es : List Event) (w : World)
    → all_reopen_none n es w ≡ true
    → count_active t k w.incidents ≤ 1
    → count_active t k (perform_all n es w).incidents ≤ 1
unfolding all_reopen_none perform_all
one_active n t k [] w c h = h
one_active n t k (e ∷ es) w c h =
    one_active n t k es (perform n e w) (ground arith) (perform-count n t k e w (ground arith) h)
