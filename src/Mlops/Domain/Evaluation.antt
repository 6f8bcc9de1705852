-- ===== src/Mlops/Domain/Evaluation.antt =====
-- The quality gate: what `EvaluationPolicy.evaluate` decides, what `record_evaluation` does with it, and what goes past it.
use openmodelops.Base.{
  String, ◌≡◌, refl, ◌≢◌, ◌↔◌, ◌⊎◌, inl, inr, true, false, Option, none, some, List, [], ◌∷◌, ◌++◌,
  arith, starts_with, eq_iff, if◌then◌else◌, eq_of_nat, eq_of_string, All, is_blank, Error, ok, err,
}
use openmodelops.Base.Dict.{Dict, lookup}
use openmodelops.Base.Floats.{Float, nan, neg_inf, pos_inf, lt_float}
use openmodelops.Mlops.Domain.{
  training, evaluating, rejected, candidate, approved, deploying, canary, production, transitions,
  in_states, EvaluationPolicy, evaluate, ModelRun, new_run, transition, record_evaluation, below,
  above, no_failures,
}
use openmodelops.Mlops.Domain.Invariant.{Reach, here, moved}

-- A metric that was not measured meets only a threshold that nothing can miss.
abbrev pub AtLeast : Option Float → Float → Type 0
AtLeast (some v) threshold = lt_float v threshold ≡ false
AtLeast none threshold = (threshold ≡ neg_inf) ⊎ (threshold ≡ nan)

abbrev pub AtMost : Option Float → Float → Type 0
AtMost (some v) threshold = lt_float threshold v ≡ false
AtMost none threshold = (threshold ≡ pos_inf) ⊎ (threshold ≡ nan)

missing_low : (t : Float) → (lt_float neg_inf t ≡ false) ↔ ((t ≡ neg_inf) ⊎ (t ≡ nan))
missing_low nan = (λ h. inr refl, λ h. refl)
missing_low neg_inf = (λ h. inl refl, λ h. refl)
missing_low t = ground arith

missing_high : (t : Float) → (lt_float t pos_inf ≡ false) ↔ ((t ≡ pos_inf) ⊎ (t ≡ nan))
missing_high nan = (λ h. inr refl, λ h. refl)
missing_high pos_inf = (λ h. inl refl, λ h. refl)
missing_high t = ground arith

at_least :
    (o : Option Float) (t : Float)
    → (lt_float (elim o [ none ↦ neg_inf | some v ↦ v ]) t ≡ false) ↔ AtLeast o t
at_least none t = missing_low t
at_least (some v) t = (λ h. h, λ h. h)

at_most :
    (o : Option Float) (t : Float)
    → (lt_float t (elim o [ none ↦ pos_inf | some v ↦ v ]) ≡ false) ↔ AtMost o t
at_most none t = missing_high t
at_most (some v) t = (λ h. h, λ h. h)

module _ (metrics : Dict String Float) where
  below-nil :
      (repr : Float → String) (ms : Dict String Float)
      → (below repr metrics ms ≡ []) ↔ All (λ (name, t). AtLeast (lookup name metrics) t) ms
  unfolding below
  below-nil repr [] = (λ _. tt, λ _. refl)
  below-nil repr ((name, t) ∷ ms) =
      ground (arith, below-nil repr ms, at_least (lookup name metrics) t)

  above-nil :
      (repr : Float → String) (ms : Dict String Float)
      → (above repr metrics ms ≡ []) ↔ All (λ (name, t). AtMost (lookup name metrics) t) ms
  unfolding above
  above-nil repr [] = (λ _. tt, λ _. refl)
  above-nil repr ((name, t) ∷ ms) =
      ground (arith, above-nil repr ms, at_most (lookup name metrics) t)

no_failures-append :
    (xs ys : List String) → (no_failures (xs ++ ys) ≡ true) ↔ ((xs ≡ []) × (ys ≡ []))
no_failures-append [] [] = (λ h. (refl, refl), λ h. refl)
no_failures-append [] (y ∷ ys) = ground arith
no_failures-append (x ∷ xs) ys = ground arith

module _ (repr : Float → String) (policy : EvaluationPolicy) (metrics : Dict String Float) where
  -- An evaluation passes exactly if every metric of the policy keeps to its bound, a missing one only
  -- where the bound is one that nothing can miss.
  pub evaluate_exact : ((evaluate repr policy metrics).0 ≡ true) ↔ (
      All (λ (name, t). AtLeast (lookup name metrics) t) policy.minimum_metrics
      × All (λ (name, t). AtMost (lookup name metrics) t) policy.maximum_metrics)
  unfolding evaluate
  evaluate_exact = ground (
    arith,
    no_failures-append (below repr metrics policy.minimum_metrics)
        (above repr metrics policy.maximum_metrics),
    below-nil metrics repr policy.minimum_metrics,
    above-nil metrics repr policy.maximum_metrics,
  )

-- Every metric that the policy names was measured as NaN.
abbrev pub IsNan : Dict String Float → Dict String Float → Type 0
IsNan metrics bounds = All (λ (name, t). lookup name metrics ≡ some nan) bounds

nan_low :
    (metrics : Dict String Float) (ms : Dict String Float)
    → IsNan metrics ms
    → All (λ (name, t). AtLeast (lookup name metrics) t) ms
nan_low metrics [] h = tt
nan_low metrics ((name, t) ∷ ms) h = (rw h.0, nan_low metrics ms h.1)

lt-nan : (t : Float) → lt_float t nan ≡ false
lt-nan nan = refl
lt-nan _ = refl

nan_high :
    (metrics : Dict String Float) (ms : Dict String Float)
    → IsNan metrics ms
    → All (λ (name, t). AtMost (lookup name metrics) t) ms
nan_high metrics [] h = tt
nan_high metrics ((name, t) ∷ ms) h = (rw h.0 (lt-nan t), nan_high metrics ms h.1)

-- Whatever the bounds, an evaluation passes if each metric that the policy names is NaN.
pub evaluate_nan :
    (repr : Float → String) (policy : EvaluationPolicy) (metrics : Dict String Float)
    → IsNan metrics policy.minimum_metrics
    → IsNan metrics policy.maximum_metrics
    → (evaluate repr policy metrics).0 ≡ true
evaluate_nan repr policy metrics low high =
    (evaluate_exact repr policy metrics).1
      (nan_low metrics policy.minimum_metrics low, nan_high metrics policy.maximum_metrics high)

module _ (repr : Float → String) (now : String) (metrics : Dict String Float) (digest : String)
    (policy : EvaluationPolicy) (actor : String) (run : ModelRun) where
  -- Of a run in evaluation and a digest of the right form an evaluation always succeeds: the run
  -- holds the metrics and the digest, and is a candidate if the policy passes, rejected if not.
  pub record_evaluation_decides :
      run.state ≡ evaluating
      → starts_with digest "sha256:" ≡ true
      → let (result, run') = record_evaluation repr now metrics digest policy actor run in
        let passed = (evaluate repr policy metrics).0 in
        (result ≡ ok passed)
        × (run'.state ≡ (if passed then candidate else rejected))
        × (run'.metrics ≡ metrics)
        × (run'.artifact_digest ≡ some digest)
  unfolding record_evaluation transition transitions in_states
  record_evaluation_decides e d = ground arith

  -- A refused evaluation changes nothing, and refuses because of the state or the digest.
  pub record_evaluation_refused :
      {x : Error}
      → (record_evaluation repr now metrics digest policy actor run).0 ≡ err x
      → ((record_evaluation repr now metrics digest policy actor run).1 ≡ run)
        × ((run.state ≢ evaluating) ⊎ (starts_with digest "sha256:" ≡ false))
  unfolding record_evaluation transition transitions in_states
  record_evaluation_refused h = ground arith

-- A new run can be released with no evaluation at all: for any second actor with a reason, the
-- transitions alone make a run in production that has no artifact and no metric.
pub unevaluated_release :
    (i m d c o now actor reason : String)
    → actor ≢ o
    → is_blank reason ≡ false
    → (run : ModelRun) × Reach (new_run i m d c o) run
      × (run.state ≡ production)
      × (run.artifact_digest ≡ none)
      × (run.metrics ≡ [])
unfolding transition transitions in_states
unevaluated_release i m d c o now actor reason other spoken = (
  _,
  moved now production actor reason (
      moved now canary actor reason (
        moved now deploying actor reason (
          moved now approved actor reason (
            moved now candidate actor reason
              (moved now evaluating actor reason (moved now training actor reason here)))))),
  ground (arith, eq_iff actor o),
  ground (arith, eq_iff actor o),
  ground (arith, eq_iff actor o),
)
