-- ===== src/Authz/Policies/Reorder.antt =====
-- Where every condition evaluates, the decision is a function of which policies hold, and their
-- order is of no account.
use mathlib.Core.Bool.{Bool-set}
use mathlib.Core.Path.{ap₂}
use mathlib.Core.Logic.{∥∥₁_elim}
use mathlib.Core.List.{Perm, Permᴰ}
use nexus_rag.Prelude.{
  ◌≡◌, ◌∙◌, sym, inl, inr, refl, ap, Bool, true, false, not, ◌&&◌, ◌||◌, none, some, String, List,
  [], ◌∷◌, ◌++◌, arith, Bool-cases,
}
use nexus_rag.Authz.{Fields}
use nexus_rag.Authz.Operators.{Host, Eval, value, invalid, type_error}
use nexus_rag.Authz.Policies.{
  Effect, deny, allow, is_allow, AuthorizationPolicy, AbacDecision, TraceEntry, entry, matched,
  default_decision, Pass, decided, undecided, crashed, in_scope, condition_of, judge, pass,
  evaluate_policy_set,
}

abbrev is_value : Eval Bool → Bool
is_value (value b) = true
is_value _ = false

abbrev is_yes : Eval Bool → Bool
is_yes (value b) = b
is_yes _ = false

module _ (h : Host) (context : Fields) (resource_type action : String) where
  abbrev scoped : Effect → AuthorizationPolicy → Bool
  scoped = in_scope h context resource_type action

  abbrev holds : AuthorizationPolicy → Eval Bool
  holds = condition_of h context resource_type action

  abbrev run : Bool → Effect → List AuthorizationPolicy → List TraceEntry → Pass
  run = pass h context resource_type action

  -- Some policy of the effect is in scope and holds; each that is in scope evaluates.
  unfoldable pub any_holds : Effect → List AuthorizationPolicy → Bool
  any_holds e [] = false
  any_holds e (p ∷ ps) = scoped e p && is_yes (holds p) || any_holds e ps

  unfoldable pub all_evaluate : Effect → List AuthorizationPolicy → Bool
  all_evaluate e [] = true
  all_evaluate e (p ∷ ps) = (not (scoped e p) || is_value (holds p)) && all_evaluate e ps

  -- How a pass ends, by what it decides.
  abbrev Ends : Effect → Bool → Pass → Type 0
  Ends e yes_ (decided d) = (yes_ ≡ true) × (d.allowed ≡ is_allow e)
  Ends e yes_ (undecided t) = yes_ ≡ false
  Ends e yes_ crashed = ⊥

  judge-Ends :
      (b : Bool) (e : Effect) (p : AuthorizationPolicy) (t : List TraceEntry) (v : Eval Bool)
      (rest : Pass) (later : Bool)
      → is_value v ≡ true
      → Ends e later rest
      → Ends e (is_yes v || later) (judge b e p t v rest)
  unfolding judge
  judge-Ends b e p t (value true) rest later h k = (refl, refl)
  judge-Ends b e p t (value false) rest later h k = k
  judge-Ends b e p t (invalid r) rest later h k = cc
  judge-Ends b e p t type_error rest later h k = cc

  pass-Ends :
      (b : Bool) (e : Effect) (ps : List AuthorizationPolicy) (t : List TraceEntry)
      → all_evaluate e ps ≡ true
      → Ends e (any_holds e ps) (run b e ps t)
  unfolding pass any_holds all_evaluate
  pass-Ends b e [] t c = refl
  pass-Ends b e (p ∷ ps) t c = elim (Bool-cases (scoped e p)) [
    | inr out ↦ rw out (pass-Ends b e ps t (ground arith))
    | inl i ↦ rw i (
        judge-Ends b e p t (holds p) (run b e ps (t ++ entry p (matched false) ∷ []))
          (any_holds e ps) (ground arith)
          (pass-Ends b e ps (t ++ entry p (matched false) ∷ []) (ground arith)))
  ]

  -- Where every condition in scope evaluates to a Boolean, a request is allowed exactly if no
  -- policy that denies it holds, and one that allows it holds or the default is to allow.
  pub decision_exact :
      (ps : List AuthorizationPolicy) (b dd : Bool)
      → all_evaluate deny ps ≡ true
      → all_evaluate allow ps ≡ true
      → (d : AbacDecision) × (evaluate_policy_set h context resource_type action ps b dd ≡ some d)
        × (d.allowed ≡ (not (any_holds deny ps) && (any_holds allow ps || not dd)))
  unfolding evaluate_policy_set
  decision_exact ps b dd c k = first (run b deny ps []) (pass-Ends b deny ps [] c)
    where
      second :
          (r : Pass)
          → any_holds deny ps ≡ false
          → Ends allow (any_holds allow ps) r
          → (d : AbacDecision) × ((elim r [
            | decided d' ↦ some d'
            | crashed ↦ none
            | undecided t' ↦ some (default_decision b dd t')
          ])
              ≡ some d)
            × (d.allowed ≡ (not (any_holds deny ps) && (any_holds allow ps || not dd)))
      second (decided d) f g = (d, refl, rw (f, g.0) g.1)
      second (undecided t) f g = (default_decision b dd t, refl, rw (f, g))
      second crashed f g = absurd g

      first :
          (r : Pass)
          → Ends deny (any_holds deny ps) r
          → (d : AbacDecision) × ((elim r [
            | decided d' ↦ some d'
            | crashed ↦ none
            | undecided t ↦ elim (run b allow ps t) [
              | decided d' ↦ some d'
              | crashed ↦ none
              | undecided t' ↦ some (default_decision b dd t')
            ]
          ])
              ≡ some d)
            × (d.allowed ≡ (not (any_holds deny ps) && (any_holds allow ps || not dd)))
      first (decided d) g = (d, refl, rw g.0 g.1)
      first (undecided t) g = second (run b allow ps t) g (pass-Ends b allow ps t k)
      first crashed g = absurd g

or_swap : (x y u v r : Bool) → x ≡ v → y ≡ u → (x || (y || r)) ≡ (u || (v || r))
or_swap x y u v r p q = ground arith

and_swap : (x y u v r : Bool) → x ≡ v → y ≡ u → (x && (y && r)) ≡ (u && (v && r))
and_swap x y u v r p q = ground arith

module _ (h : Host) (context : Fields) (resource_type action : String) where
  abbrev any_of_ : Effect → List AuthorizationPolicy → Bool
  any_of_ = any_holds h context resource_type action

  abbrev evaluates : Effect → List AuthorizationPolicy → Bool
  evaluates = all_evaluate h context resource_type action

  abbrev counts : Effect → AuthorizationPolicy → Bool
  counts e p =
      in_scope h context resource_type action e p
      && is_yes (condition_of h context resource_type action p)

  abbrev clear : Effect → AuthorizationPolicy → Bool
  clear e p =
      not (in_scope h context resource_type action e p)
      || is_value (condition_of h context resource_type action p)

  any_holds-Permᴰ :
      (e : Effect) {ps qs : List AuthorizationPolicy} → Permᴰ ps qs → any_of_ e ps ≡ any_of_ e qs
  unfolding any_holds
  any_holds-Permᴰ e Permᴰ.nil = refl
  any_holds-Permᴰ e (Permᴰ.cons q d) = ap₂ ◌||◌ (ap (counts e) q) (any_holds-Permᴰ e d)
  any_holds-Permᴰ e (Permᴰ.swap {a = a} {b = b} {a' = c} {b' = d} {l = l} p q) =
      or_swap (counts e a) (counts e b) (counts e c) (counts e d) (any_of_ e l) (ap (counts e) p)
        (ap (counts e) q)
  any_holds-Permᴰ e (Permᴰ.trans c d) = any_holds-Permᴰ e c ∙ any_holds-Permᴰ e d

  all_evaluate-Permᴰ :
      (e : Effect) {ps qs : List AuthorizationPolicy}
      → Permᴰ ps qs
      → evaluates e ps ≡ evaluates e qs
  unfolding all_evaluate
  all_evaluate-Permᴰ e Permᴰ.nil = refl
  all_evaluate-Permᴰ e (Permᴰ.cons q d) = ap₂ ◌&&◌ (ap (clear e) q) (all_evaluate-Permᴰ e d)
  all_evaluate-Permᴰ e (Permᴰ.swap {a = a} {b = b} {a' = c} {b' = d} {l = l} p q) =
      and_swap (clear e a) (clear e b) (clear e c) (clear e d) (evaluates e l) (ap (clear e) p)
        (ap (clear e) q)
  all_evaluate-Permᴰ e (Permᴰ.trans c d) = all_evaluate-Permᴰ e c ∙ all_evaluate-Permᴰ e d

  -- Where every condition in scope evaluates to a Boolean, two orders of the same policies allow
  -- the same requests, whatever is traced.
  pub decision_order :
      (ps qs : List AuthorizationPolicy) (b c dd : Bool) (d e : AbacDecision)
      → Perm ps qs
      → evaluates deny ps ≡ true
      → evaluates allow ps ≡ true
      → evaluate_policy_set h context resource_type action ps b dd ≡ some d
      → evaluate_policy_set h context resource_type action qs c dd ≡ some e
      → d.allowed ≡ e.allowed
  decision_order ps qs b c dd d e m x y f g = ∥∥₁_elim m (Bool-set d.allowed e.allowed) λ perm.
      let same = λ (w : Effect). any_holds-Permᴰ w perm in
      let ev = λ (w : Effect). all_evaluate-Permᴰ w perm in
      let one = decision_exact h context resource_type action ps b dd x y in
      let two =
        decision_exact h context resource_type action qs c dd (sym (ev deny) ∙ x)
          (sym (ev allow) ∙ y) in
      ground (arith, one, two, same deny, same allow)
