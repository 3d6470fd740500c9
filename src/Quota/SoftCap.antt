-- ===== src/Quota/SoftCap.antt =====
-- The announcements of soft caps over a sequence of requests.
use nexus_rag.Prelude.{
  ℕ, ◌+◌, ◌≤◌, ◌≡◌, refl, Bool, false, ◌&&◌, Option, List, [], ◌∷◌, arith, ◌==◌, if◌then◌else◌,
  Bool-cases, inl, inr,
}
use nexus_rag.Quota.Limits.{blocks}
use nexus_rag.Quota.{
  Period, day, month, Plan, World, Request, SoftCapEvent, plan_of, same_period, is_noted,
  note_soft_cap, check_and_consume_quota, consume_all,
}

-- How often the soft cap of a period stands in the rows or the records.
unfoldable pub times : Period → ℕ → List SoftCapEvent → ℕ
times p t [] = 0
times p t (e ∷ es) =
    (if same_period p e.period_type && t == e.period_start then 1 else 0) + times p t es

-- No period has been announced more often than it stands in the rows, where it stands once at most.
abbrev pub IsOnce : Period → ℕ → World → Type 0
IsOnce p t w = (times p t w.announced ≤ times p t w.soft_caps) × (times p t w.soft_caps ≤ 1)

times_none :
    (p : Period) (t : ℕ) (es : List SoftCapEvent) → is_noted p t es ≡ false → times p t es ≡ 0
unfolding times is_noted
times_none p t [] e = refl
times_none p t (x ∷ es) e = ground (arith, times_none p t es)

note-IsOnce :
    (b : Bool) (p p' : Period) (t t' : ℕ) (w : World)
    → IsOnce p t w
    → IsOnce p t (note_soft_cap b p' t' w)
unfolding note_soft_cap times
note-IsOnce b p p' t t' w h = ground (arith, times_none p t w.soft_caps)

consume-IsOnce :
    (plan : Option Plan) (p : Period) (t : ℕ) (r : Request) (w : World)
    → IsOnce p t w
    → IsOnce p t (check_and_consume_quota plan r w).0
unfolding check_and_consume_quota
consume-IsOnce plan p t r w h = elim (Bool-cases (blocks (plan_of plan) r w)) [
  | inl stops ↦ rw stops h
  | inr passes ↦
      rw passes (note-IsOnce _ p month t r.month_start _ (note-IsOnce _ p day t r.day_start _ h))
]

-- A period whose soft cap is reached is announced at most once, however many requests follow.
pub consume_all-IsOnce :
    (plan : Option Plan) (p : Period) (t : ℕ) (rs : List Request) (w : World)
    → IsOnce p t w
    → IsOnce p t (consume_all plan rs w)
unfolding consume_all
consume_all-IsOnce plan p t [] w h = h
consume_all-IsOnce plan p t (r ∷ rs) w h =
    consume_all-IsOnce plan p t rs (check_and_consume_quota plan r w).0
      (consume-IsOnce plan p t r w h)
