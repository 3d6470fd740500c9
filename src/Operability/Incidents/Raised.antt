-- ===== src/Operability/Incidents/Raised.antt =====
-- What an alert leaves.
use nexus_rag.Prelude.{
  suc, ◌≡◌, ◌⊎◌, refl, sym, ap, ◌∙◌, inl, inr, String, str_eq, eq_iff, Bool, true, false, not, ◌&&◌,
  Option, none, some, List, [], ◌∷◌, arith, ltb, leb, Bool-cases, Option-cases, length, le→leb,
}
use nexus_rag.Prelude.Tables.{find, any, elem, ids_of, IsKey}
use nexus_rag.Prelude.Tables.Keys.{absent}
use nexus_rag.Operability.Incidents.{
  OpsIncident, World, Alert, severity_rank, later, is_active_for, find_active, change, alert_key,
  new_incident, retrigger, open_incident_for_alert,
}

later-cases :
    (r : OpsIncident) (o : Option OpsIncident)
    → (later r o ≡ r) ⊎ ((s : OpsIncident) × (o ≡ some s) × (later r o ≡ s))
later-cases r none = inl refl
later-cases r (some s) = elim (Bool-cases (ltb r.opened_at s.opened_at)) [
  | inl t ↦ inr (s, refl, rw t refl)
  | inr f ↦ inl (rw f refl)
]

in_tail :
    (r : OpsIncident) (rs : List OpsIncident) (e : OpsIncident)
    → IsKey (λ (x : OpsIncident). x.id) (r ∷ rs)
    → find (λ (x : OpsIncident). x.id) e.id rs ≡ some e
    → find (λ (x : OpsIncident). x.id) e.id (r ∷ rs) ≡ some e
unfolding find
in_tail r rs e u h = elim (Bool-cases (str_eq e.id r.id)) [
  | inr n ↦ rw n h
  | inl q ↦
      let same : e.id ≡ r.id = ground (arith, q, eq_iff e.id r.id) in
      absurd (
        absent (λ (x : OpsIncident). x.id) r.id rs e u.0
          (ap (λ i. find (λ (x : OpsIncident). x.id) i rs) (sym same) ∙ h))
]

find_active-any :
    (t k : String) (rs : List OpsIncident) (e : OpsIncident)
    → find_active t k rs ≡ some e
    → any (is_active_for t k) rs ≡ true
unfolding find_active any
find_active-any t k [] e h = absurd (ground arith)
find_active-any t k (r ∷ rs) e h = ground (arith, find_active-any t k rs e)

find_none-any :
    (t k : String) (rs : List OpsIncident)
    → find_active t k rs ≡ none
    → any (is_active_for t k) rs ≡ false
unfolding find_active any
find_none-any t k [] h = refl
find_none-any t k (r ∷ rs) h = ground (arith, find_none-any t k rs)

-- The incident found is the row of its key, and is active.
find_active-find :
    (t k : String) (rs : List OpsIncident) (e : OpsIncident)
    → IsKey (λ (x : OpsIncident). x.id) rs
    → find_active t k rs ≡ some e
    → (find (λ (x : OpsIncident). x.id) e.id rs ≡ some e) × (is_active_for t k e ≡ true)
unfolding find_active find elem ids_of
find_active-find t k [] e u h = absurd (ground arith)
find_active-find t k (r ∷ rs) e u h = elim (Bool-cases (is_active_for t k r)) [
  | inr f ↦
      let ih = find_active-find t k rs e u.1 (rw (find_active, f) at h) in
      (in_tail r rs e u ih.0, ih.1)
  | inl a ↦ elim (later-cases r (find_active t k rs)) [
    | inl l ↦
        let q : e ≡ r = ground (arith, h, a, l) in (ground (arith, q, eq_iff r.id r.id), rw q a)
    | inr l ↦
        let q : e ≡ l.0 = ground (arith, h, a, l.1, l.2) in
        let ih = find_active-find t k rs e u.1 (rw q l.1) in (in_tail r rs e u ih.0, ih.1)
  ]
]

change-any :
    (P : OpsIncident → Bool) (i : String) (f : OpsIncident → OpsIncident) (rs : List OpsIncident)
    → (r : OpsIncident) → find (λ (x : OpsIncident). x.id) i rs ≡ some r
    → P (f r) ≡ true
    → any P (change i f rs) ≡ true
unfolding change any find
change-any P i f [] r h p = absurd (ground arith)
change-any P i f (x ∷ xs) r h p = ground (arith, change-any P i f xs r)

abbrev pub covers : (String → String) → Alert → OpsIncident → Bool
covers n a r =
    is_active_for a.tenant_id (alert_key a) r
    && leb (severity_rank n a.severity) (severity_rank n r.severity)

new_covers : (n : String → String) (a : Alert) → covers n a (new_incident a) ≡ true
new_covers n a = ground (
  arith,
  eq_iff a.tenant_id a.tenant_id,
  eq_iff (alert_key a) (alert_key a),
  le→leb (severity_rank n a.severity) (severity_rank n a.severity),
)

retrigger-covers :
    (n : String → String) (a : Alert) (r : OpsIncident)
    → is_active_for a.tenant_id (alert_key a) r ≡ true
    → covers n a (retrigger n a r) ≡ true
retrigger-covers n a r h =
    elim (Bool-cases (ltb (severity_rank n r.severity) (severity_rank n a.severity))) [
      | inl t ↦ rw (h, t) (le→leb (severity_rank n a.severity) _ (omega arith))
      | inr f ↦ rw (h, f) (le→leb (severity_rank n a.severity) _ (ground (arith, f)))
    ]

-- After an alert its tenant and key have an unresolved incident that is at least as severe as the
-- alert. The timeline and the notifications have one entry more each, and the incident is new
-- exactly if none was unresolved before. The ids of the incidents are a primary key.
pub alert_covered :
    (n : String → String) (a : Alert) (w : World)
    → IsKey (λ (x : OpsIncident). x.id) w.incidents
    → (any (covers n a) (open_incident_for_alert n a w).0.incidents ≡ true)
      × (length (open_incident_for_alert n a w).0.timeline ≡ suc (length w.timeline))
      × (length (open_incident_for_alert n a w).0.notifications ≡ suc (length w.notifications))
      × ((open_incident_for_alert n a w).2
          ≡ not (any (is_active_for a.tenant_id (alert_key a)) w.incidents))
unfolding open_incident_for_alert any
alert_covered n a w u = elim (Option-cases (find_active a.tenant_id (alert_key a) w.incidents)) [
  | inl e ↦
      rw (open_incident_for_alert, e)
        (
          rw (any, new_covers n a) refl,
          refl,
          refl,
          rw (find_none-any a.tenant_id (alert_key a) w.incidents e) refl,
        )
  | inr e ↦
      rw (open_incident_for_alert, e.1)
        (
          change-any (covers n a) e.0.id (retrigger n a) w.incidents e.0
              (find_active-find a.tenant_id (alert_key a) w.incidents e.0 u e.1).0
              (retrigger-covers n a e.0
                (find_active-find a.tenant_id (alert_key a) w.incidents e.0 u e.1).1),
          refl,
          refl,
          rw (find_active-any a.tenant_id (alert_key a) w.incidents e.0 e.1) refl,
        )
]
