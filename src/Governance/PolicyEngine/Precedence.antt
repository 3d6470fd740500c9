-- ===== src/Governance/PolicyEngine/Precedence.antt =====
-- Which rule decides.
use nexus_rag.Prelude.{
  ◌≡◌, ◌⊎◌, ◌≢◌, refl, ap, ◌∙◌, inl, inr, String, Bool, true, false, ◌&&◌, Option, none, some, List,
  [], ◌∷◌, arith, Bool-cases, All,
}
use nexus_rag.Prelude.Tables.{filter}
use nexus_rag.Authz.{Fields}
use nexus_rag.Authz.Operators.{Host}
use nexus_rag.Governance.PolicyEngine.{
  PolicyRule, PolicyDecision, default_allow, goes_before, insert_rule, by_priority,
}
use nexus_rag.Governance.PolicyEngine.Decide.{
  matches_condition, decide, first_match, is_candidate, evaluate_policy,
}

-- A rule is in the list.
abbrev pub Has : PolicyRule → List PolicyRule → Type 0
Has r [] = ¬ Unit
Has r (s ∷ ss) = (r ≡ s) ⊎ Has r ss

-- In the order of the query no rule stands behind one that it goes before.
abbrev Ordered : List PolicyRule → Type 0
Ordered [] = Unit
Ordered (r ∷ rs) = ((s : PolicyRule) → Has s rs → goes_before s r ≡ false) × Ordered rs

goes_before_trans :
    (a b c : PolicyRule)
    → goes_before a b ≡ false
    → goes_before b c ≡ false
    → goes_before a c ≡ false
goes_before_trans a b c p q = ground arith

goes_before-asym : (a b : PolicyRule) → goes_before a b ≡ true → goes_before b a ≡ false
goes_before-asym a b p = ground arith

goes_before_irrefl : (a : PolicyRule) → goes_before a a ≡ false
goes_before_irrefl a = ground arith

answers : (m : Option Bool) → (m ≡ none) ⊎ (m ≡ some false) ⊎ (m ≡ some true)
answers none = inl refl
answers (some false) = inr (inl refl)
answers (some true) = inr (inr refl)

differ : {m : Option Bool} → m ≡ some false → m ≢ some true
differ p q = ground (arith, p, q)

has-filter :
    (test : PolicyRule → Bool) (r : PolicyRule) (rs : List PolicyRule)
    → Has r (filter test rs)
    → Has r rs × (test r ≡ true)
unfolding filter
has-filter test r [] h = absurd (h tt)
has-filter test r (s ∷ ss) h = elim (Bool-cases (test s)) [
  | inl t ↦ elim (rw t at h) [
    | inl e ↦ (inl e, rw e t)
    | inr i ↦ let x = has-filter test r ss i in (inr x.0, x.1)
  ]
  | inr f ↦ let x = has-filter test r ss (rw f at h) in (inr x.0, x.1)
]

filter-has :
    (test : PolicyRule → Bool) (r : PolicyRule) (rs : List PolicyRule)
    → Has r rs
    → test r ≡ true
    → Has r (filter test rs)
unfolding filter
filter-has test r [] h t = h
filter-has test r (s ∷ ss) (inl e) t = let q : test s ≡ true = rw (← e) t in rw q (inl e)
filter-has test r (s ∷ ss) (inr i) t = elim (Bool-cases (test s)) [
  | inl q ↦ rw q (inr (filter-has test r ss i t))
  | inr q ↦ rw q (filter-has test r ss i t)
]

insert-has : (r x : PolicyRule) (rs : List PolicyRule) → Has x (insert_rule r rs) → Has x (r ∷ rs)
unfolding insert_rule
insert-has r x [] h = h
insert-has r x (s ∷ ss) h = elim (Bool-cases (goes_before s r)) [
  | inl q ↦ elim (rw q at h) [
    | inl e ↦ inr (inl e)
    | inr i ↦ elim (insert-has r x ss i) [ inl e ↦ inl e | inr j ↦ inr (inr j) ]
  ]
  | inr q ↦ rw q at h
]

abbrev moved_up :
    {r x s : PolicyRule} (ss ts : List PolicyRule)
    → (Has x (r ∷ ss) → Has x ts)
    → Has x (r ∷ s ∷ ss)
    → Has x (s ∷ ts)
moved_up ss ts f (inl e) = inr (f (inl e))
moved_up ss ts f (inr (inl e)) = inl e
moved_up ss ts f (inr (inr i)) = inr (f (inr i))

has-insert : (r x : PolicyRule) (rs : List PolicyRule) → Has x (r ∷ rs) → Has x (insert_rule r rs)
unfolding insert_rule
has-insert r x [] h = h
has-insert r x (s ∷ ss) h = elim (Bool-cases (goes_before s r)) [
  | inl q ↦ rw q (moved_up ss _ (has-insert r x ss) h)
  | inr q ↦ rw q h
]

insert-Ordered : (r : PolicyRule) (rs : List PolicyRule) → Ordered rs → Ordered (insert_rule r rs)
unfolding insert_rule
insert-Ordered r [] o = (λ s i. absurd (i tt), tt)
insert-Ordered r (s ∷ ss) o = elim (Bool-cases (goes_before s r)) [
  | inl q ↦ rw q (
    (λ x i. elim (insert-has r x ss i) [ inl e ↦ rw e (goes_before-asym s r q) | inr j ↦ o.0 x j ]),
    insert-Ordered r ss o.1,
  )
  | inr q ↦
      rw q ((λ x i. elim i [ inl e ↦ rw e q | inr j ↦ goes_before_trans x s r (o.0 x j) q ]), o)
]

by_priority-Ordered : (rs : List PolicyRule) → Ordered (by_priority rs)
unfolding by_priority
by_priority-Ordered [] = tt
by_priority-Ordered (r ∷ rs) = insert-Ordered r (by_priority rs) (by_priority-Ordered rs)

by_priority-has : (x : PolicyRule) (rs : List PolicyRule) → Has x (by_priority rs) → Has x rs
unfolding by_priority
by_priority-has x [] h = h
by_priority-has x (r ∷ rs) h = elim (insert-has r x (by_priority rs) h) [
  | inl e ↦ inl e
  | inr i ↦ inr (by_priority-has x rs i)
]

has-by_priority : (x : PolicyRule) (rs : List PolicyRule) → Has x rs → Has x (by_priority rs)
unfolding by_priority
has-by_priority x [] h = h
has-by_priority x (r ∷ rs) (inl e) = has-insert r x (by_priority rs) (inl e)
has-by_priority x (r ∷ rs) (inr i) = has-insert r x (by_priority rs) (inr (has-by_priority x rs i))

abbrev pub is_true : Option Bool → Bool
is_true none = false
is_true (some b) = b

-- The rule is enabled, of the key, and of the tenant or of all, and its condition holds.
abbrev pub applies : Host → (String → String) → String → String → Fields → PolicyRule → Bool
applies h upper tenant_id rule_key context s =
    is_candidate h upper tenant_id rule_key s
    && is_true (matches_condition h upper s.condition_json context)

-- The rule decides: it is among the rules and applies, the decision is what its actions make, and
-- no rule that applies goes before it.
abbrev pub Decides :
    Host
    → (String → String)
    → List PolicyRule
    → String
    → String
    → Fields
    → PolicyDecision
    → PolicyRule
    → Type 0
Decides h upper rules tenant_id rule_key context d r =
    Has r rules
    × (applies h upper tenant_id rule_key context r ≡ true)
    × (decide h upper r ≡ some d)
    × All (λ s. (applies h upper tenant_id rule_key context s && goes_before s r) ≡ false) rules

all_of :
    (P : PolicyRule → Type 0) (rules : List PolicyRule)
    → ((s : PolicyRule) → Has s rules → P s)
    → All P rules
all_of P [] f = tt
all_of P (r ∷ rs) f = (f r (inl refl), all_of P rs (λ s i. f s (inr i)))

module _ (h : Host) (upper : String → String) (context : Fields) where
  abbrev FirstOf : PolicyDecision → List PolicyRule → PolicyRule → Type 0
  FirstOf d rs r =
      Has r rs
      × (matches_condition h upper r.condition_json context ≡ some true)
      × (decide h upper r ≡ some d)
      × ((s : PolicyRule)
          → Has s rs
          → matches_condition h upper s.condition_json context ≡ some true
          → goes_before s r ≡ false)

  first_match-FirstOf :
      (rs : List PolicyRule) (d : PolicyDecision)
      → Ordered rs
      → first_match h upper context rs ≡ some d
      → ((r : PolicyRule) × FirstOf d rs r)
        ⊎ ((d ≡ default_allow)
            × ((s : PolicyRule)
                → Has s rs
                → matches_condition h upper s.condition_json context ≡ some false))
  unfolding first_match
  first_match-FirstOf [] d o e = inr (ground arith, λ s i. absurd (i tt))
  first_match-FirstOf (r ∷ rs) d o e =
      elim (answers (matches_condition h upper r.condition_json context)) [
        | inl q ↦ absurd (ground (arith, q))
        | inr (inl q) ↦ elim (first_match-FirstOf rs d o.1 (rw (first_match, q) at e)) [
          | inl f ↦ inl (
            f.0,
            (
              inr f.1.0,
              f.1.1,
              f.1.2,
              λ s i m. elim i [
                | inl p ↦
                    absurd (
                      differ (ap (λ x. matches_condition h upper x.condition_json context) p ∙ q) m)
                | inr j ↦ f.1.3 s j m
              ],
            ),
          )
          | inr f ↦ inr (f.0, λ s i. elim i [ inl p ↦ rw p q | inr j ↦ f.1 s j ])
        ]
        | inr (inr q) ↦ inl (
          r,
          (
            inl refl,
            q,
            rw (first_match, q) at e,
            λ s i m. elim i [ inl p ↦ rw p (goes_before_irrefl r) | inr j ↦ o.0 s j ],
          ),
        )
      ]

-- With the engine on, a decision is either made by the rule of the highest priority, of these the
-- lowest id, among the enabled rules of the key and of the tenant or of all whose condition holds
-- of the context; or no such rule's condition holds, and the request is allowed with nothing
-- required.
pub evaluate_policy-Decides :
    (h : Host) (upper : String → String) (rules : List PolicyRule) (tenant_id rule_key : String)
    → (context : Fields) (d : PolicyDecision)
    → evaluate_policy h upper true rules tenant_id rule_key context ≡ some d
    → ((r : PolicyRule) × Decides h upper rules tenant_id rule_key context d r)
      ⊎ ((d ≡ default_allow)
          × All (λ s. applies h upper tenant_id rule_key context s ≡ false) rules)
unfolding evaluate_policy
evaluate_policy-Decides h upper rules tenant_id rule_key context d e =
    let test = is_candidate h upper tenant_id rule_key in
    let holds_of = λ (s : PolicyRule). matches_condition h upper s.condition_json context in
    let sorted_has = λ (s : PolicyRule) (j : Has s rules) (c : test s ≡ true).
      has-by_priority s (filter test rules) (filter-has test s rules j c) in
    elim (first_match-FirstOf h upper context _ d (by_priority-Ordered (filter test rules)) e) [
      | inl f ↦
          let i = has-filter test f.0 rules (by_priority-has f.0 (filter test rules) f.1.0) in
          inl (
            f.0,
            (
              i.0,
              rw (i.1, f.1.1) refl,
              f.1.2,
              all_of _ rules (λ s j. elim (Bool-cases (test s)) [
                | inr n ↦ rw n refl
                | inl c ↦ elim (answers (holds_of s)) [
                  | inl m ↦ rw (c, m) refl
                  | inr (inl m) ↦ rw (c, m) refl
                  | inr (inr m) ↦ rw (c, m) (f.1.3 s (sorted_has s j c) m)
                ]
              ]),
            ),
          )
      | inr f ↦ inr (
        f.0,
        all_of _ rules (λ s j. elim (Bool-cases (test s)) [
          | inr n ↦ rw n refl
          | inl c ↦ rw (c, f.1 s (sorted_has s j c)) refl
        ]),
      )
    ]
