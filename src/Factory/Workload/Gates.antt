-- ===== src/Factory/Workload/Gates.antt =====
-- The release gates: which approvals succeed, and what the scorecard counts.
use openmodelops.Base.{
  ◌+◌, ◌≤◌, String, ◌≡◌, refl, ◌≢◌, ◌↔◌, Bool, false, Option, none, some, List, [], ◌∷◌, arith,
  eq_iff, eq_of_nat, eq_of_string, length, length-keep, keep, All, ok,
}
use openmodelops.Base.Dict.{Dict, lookup}
use openmodelops.Factory.Spec.{GateResult, pass}
use openmodelops.Factory.Workload.{
  validated, required_gates, FactoryWorkload, is_blocking, missing_or_failed_gates, is_evaluator,
  approve, scorecard,
}

-- A gate that has a passing result.
abbrev pub Passes : Option GateResult → Type 0
Passes none = ⊥
Passes (some r) = r.status ≡ pass

abbrev pub AllPass : Dict String GateResult → Type 0
AllPass gates = All (λ g. Passes (lookup g gates)) required_gates

-- No gate was evaluated by the actor.
abbrev pub NoEvaluator : String → Dict String GateResult → Type 0
NoEvaluator actor [] = Unit
NoEvaluator actor ((g, r) ∷ gates) = (actor ≢ r.evaluator) × NoEvaluator actor gates

blocking_iff : (o : Option GateResult) → (is_blocking o ≡ false) ↔ Passes o
blocking_iff none = (λ h. cc, λ h. absurd h)
blocking_iff (some r) = ground arith

keep-nil : (p : String → Bool) (xs : List String) → (keep p xs ≡ []) ↔ All (λ x. p x ≡ false) xs
unfolding keep
keep-nil p [] = (λ _. tt, λ _. refl)
keep-nil p (x ∷ xs) = ground (arith, keep-nil p xs)

All-Passes :
    (gates : Dict String GateResult) (xs : List String)
    → All (λ g. is_blocking (lookup g gates) ≡ false) xs ↔ All (λ g. Passes (lookup g gates)) xs
All-Passes gates [] = (λ h. tt, λ h. tt)
All-Passes gates (x ∷ xs) = ground (arith, blocking_iff (lookup x gates), All-Passes gates xs)

pub missing_or_failed_gates-nil :
    (w : FactoryWorkload) → (missing_or_failed_gates w ≡ []) ↔ AllPass w.gates
unfolding missing_or_failed_gates
missing_or_failed_gates-nil w =
    let p : String → Bool = λ g. is_blocking (lookup g w.gates) in
    (
      λ h. (All-Passes w.gates required_gates).0 ((keep-nil p required_gates).0 h),
      λ h. (keep-nil p required_gates).1 ((All-Passes w.gates required_gates).1 h),
    )

pub is_evaluator_iff :
    (actor : String) (gates : Dict String GateResult)
    → (is_evaluator actor gates ≡ false) ↔ NoEvaluator actor gates
unfolding is_evaluator
is_evaluator_iff actor [] = (λ _. tt, λ _. refl)
is_evaluator_iff actor ((g, r) ∷ gates) =
    ground (arith, is_evaluator_iff actor gates, eq_iff actor r.evaluator)

module _ (now actor policy_digest : String) (w : FactoryWorkload) where
  approve_ok : ((approve now actor policy_digest w).0 ≡ ok tt) ↔ (
      (w.stage ≡ validated)
      × (missing_or_failed_gates w ≡ [])
      × (actor ≢ w.spec.owner)
      × (is_evaluator actor w.gates ≡ false))
  unfolding approve
  approve_ok = ground (arith, eq_iff actor w.spec.owner)

  -- An approval succeeds exactly of a validated workload with a passing result for every required
  -- gate, by an actor who neither owns it nor evaluated a gate of it.
  pub approve_exact : ((approve now actor policy_digest w).0 ≡ ok tt) ↔ (
      (w.stage ≡ validated) × AllPass w.gates × (actor ≢ w.spec.owner) × NoEvaluator actor w.gates)
  approve_exact =
      let gates = missing_or_failed_gates-nil w in
      let others = is_evaluator_iff actor w.gates in
      (
        λ h. let (s, f, o, e) = approve_ok.0 h in (s, gates.0 f, o, others.0 e),
        λ (s, f, o, e). approve_ok.1 (s, gates.1 f, o, others.1 e),
      )

missing-le : (w : FactoryWorkload) → length (missing_or_failed_gates w) ≤ 6
unfolding missing_or_failed_gates
missing-le w = length-keep (λ g. is_blocking (lookup g w.gates)) required_gates

length-nil : (xs : List String) → (length xs ≡ 0) ↔ (xs ≡ [])
length-nil [] = (λ _. refl, λ _. refl)
length-nil (x ∷ xs) = ground arith

-- The scorecard splits the required gates into passing and blocking ones, and shows 100 per cent
-- exactly if every required gate passes.
pub scorecard_counts :
    (w : FactoryWorkload)
    → let card = scorecard w in
      (card.passing + length card.blocking_gates ≡ card.required)
      × (card.percentage ≤ 100)
      × ((card.percentage ≡ 100) ↔ AllPass w.gates)
unfolding scorecard
scorecard_counts w =
    let bound = missing-le w in
    let none_left = length-nil (missing_or_failed_gates w) in
    let gates = missing_or_failed_gates-nil w in
    (
      omega (arith, bound),
      omega (arith, bound),
      (
        λ h. gates.0 (none_left.0 (omega (arith, bound))),
        λ h. let e = none_left.1 (gates.1 h) in omega (arith, e),
      ),
    )
