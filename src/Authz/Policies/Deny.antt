-- ===== src/Authz/Policies/Deny.antt =====
-- Denial comes first: what an allowed request says about the policies.
use nexus_rag.Prelude.{
  ◌≡◌, ◌⊎◌, inl, inr, refl, Bool, true, false, Option, none, some, String, List, [], ◌∷◌, ◌++◌,
  arith, Bool-cases, All,
}
use nexus_rag.Authz.{Fields}
use nexus_rag.Authz.Operators.{Host, Eval, value, invalid, type_error}
use nexus_rag.Authz.Policies.{
  Effect, deny, allow, AuthorizationPolicy, AbacDecision, TraceEntry, entry, matched,
  default_decision, policy_allow, default_allow, Pass, decided, undecided, crashed, in_scope,
  condition_of, judge, pass, evaluate_policy_set,
}

module _ (h : Host) (context : Fields) (resource_type action : String) where
  abbrev scoped : Effect → AuthorizationPolicy → Bool
  scoped = in_scope h context resource_type action

  abbrev holds : AuthorizationPolicy → Eval Bool
  holds = condition_of h context resource_type action

  abbrev run : Bool → Effect → List AuthorizationPolicy → List TraceEntry → Pass
  run = pass h context resource_type action

  -- Every policy of the effect that is in scope has a false condition.
  abbrev pub NoneHolds : Effect → List AuthorizationPolicy → Type 0
  NoneHolds e = All (λ p. scoped e p ≡ true → holds p ≡ value false)

  -- A pass that decides nothing found no condition that holds or fails to evaluate.
  pass_undecided :
      (b : Bool) (e : Effect) (ps : List AuthorizationPolicy) (t u : List TraceEntry)
      → run b e ps t ≡ undecided u
      → NoneHolds e ps
  unfolding pass judge
  pass_undecided b e [] t u q = tt
  pass_undecided b e (p ∷ ps) t u q = elim (Bool-cases (scoped e p)) [
    | inr out ↦ (λ i. cc, pass_undecided b e ps t u (ground arith))
    | inl in_ ↦
        let rest = pass_undecided b e ps (t ++ entry p (matched false) ∷ []) u in
        go (holds p) refl (rw (in_, pass) at q) rest
  ]
    where
      go :
          (v : Eval Bool)
          → holds p ≡ v
          → judge b e p t v (run b e ps (t ++ entry p (matched false) ∷ [])) ≡ undecided u
          → (run b e ps (t ++ entry p (matched false) ∷ []) ≡ undecided u → NoneHolds e ps)
          → NoneHolds e (p ∷ ps)
      go (value true) f g k = cc
      go (value false) f g k = (λ i. f, k g)
      go (invalid r) f g k = cc
      go type_error f g k = cc

  -- One of the policies of the effect is in scope, has the id, and its condition holds.
  abbrev pub Holds : Effect → Option String → List AuthorizationPolicy → Type 0
  Holds e id [] = ⊥
  Holds e id (p ∷ ps) =
      ((scoped e p ≡ true) × (holds p ≡ value true) × (id ≡ some p.id)) ⊎ Holds e id ps

  -- A pass that allows is the second one, and names a policy whose condition holds.
  pass_allows :
      (b : Bool) (e : Effect) (ps : List AuthorizationPolicy) (t : List TraceEntry)
      (d : AbacDecision)
      → run b e ps t ≡ decided d
      → d.allowed ≡ true
      → (e ≡ allow) × (d.reason ≡ policy_allow) × Holds e d.matched_policy_id ps
  unfolding pass judge
  pass_allows b e [] t d q a = cc
  pass_allows b e (p ∷ ps) t d q a = elim (Bool-cases (scoped e p)) [
    | inr out ↦ let (f, g, k) = pass_allows b e ps t d (ground arith) a in (f, g, inr k)
    | inl in_ ↦
        let rest = pass_allows b e ps (t ++ entry p (matched false) ∷ []) d in
        go in_ (holds p) refl (rw (in_, pass) at q) rest
  ]
    where
      go :
          (i : scoped e p ≡ true) (v : Eval Bool)
          → holds p ≡ v
          → judge b e p t v (run b e ps (t ++ entry p (matched false) ∷ [])) ≡ decided d
          → (run b e ps (t ++ entry p (matched false) ∷ []) ≡ decided d
              → d.allowed ≡ true
              → (e ≡ allow) × (d.reason ≡ policy_allow) × Holds e d.matched_policy_id ps)
          → (e ≡ allow) × (d.reason ≡ policy_allow) × Holds e d.matched_policy_id (p ∷ ps)
      go i (value true) f g k = (ground arith, ground arith, inl (i, f, ground arith))
      go i (value false) f g k = let (x, y, z) = k g a in (x, y, inr z)
      go i (invalid r) f g k = absurd (ground arith)
      go i type_error f g k = cc

  -- Why a decision allows.
  abbrev pub Grounds : List AuthorizationPolicy → Bool → AbacDecision → Type 0
  Grounds ps dd d =
      ((d.reason ≡ policy_allow) × Holds allow d.matched_policy_id ps)
      ⊎ ((dd ≡ false) × (d.reason ≡ default_allow) × NoneHolds allow ps)

  -- Where a request is allowed, no policy that denies it is enabled, in scope and holds, nor fails
  -- to evaluate; and either the policy that the decision names allows it and holds, or the default
  -- is to allow and no policy that allows it holds.
  pub allowed-Grounds :
      (ps : List AuthorizationPolicy) (b dd : Bool) (d : AbacDecision)
      → evaluate_policy_set h context resource_type action ps b dd ≡ some d
      → d.allowed ≡ true
      → NoneHolds deny ps × Grounds ps dd d
  unfolding evaluate_policy_set
  allowed-Grounds ps b dd d q a = go (run b deny ps []) refl q
    where
      second :
          (t : List TraceEntry) (r : Pass)
          → run b allow ps t ≡ r
          → (elim r [
            | decided d' ↦ some d'
            | crashed ↦ none
            | undecided t' ↦ some (default_decision b dd t')
          ])
            ≡ some d
          → Grounds ps dd d
      second t (decided e) f g =
          let (x, y, z) = pass_allows b allow ps t d (ground arith) a in inl (y, z)
      second t (undecided u) f g = inr (ground arith, ground arith, pass_undecided b allow ps t u f)
      second t crashed f g = cc

      go :
          (r : Pass)
          → run b deny ps [] ≡ r
          → (elim r [
            | decided d' ↦ some d'
            | crashed ↦ none
            | undecided t ↦ elim (run b allow ps t) [
              | decided d' ↦ some d'
              | crashed ↦ none
              | undecided t' ↦ some (default_decision b dd t')
            ]
          ])
            ≡ some d
          → NoneHolds deny ps × Grounds ps dd d
      go (decided e) f g = let (x, y, z) = pass_allows b deny ps [] d (ground arith) a in cc
      go (undecided t) f g = (pass_undecided b deny ps [] t f, second t (run b allow ps t) refl g)
      go crashed f g = cc
