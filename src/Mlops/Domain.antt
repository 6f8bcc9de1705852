-- ===== src/Mlops/Domain.antt =====
-- platforms/mlops/domain.py: the states of a model run, its evaluation policy and its methods.
pub mod Lifecycle
pub mod Evaluation
pub mod Invariant
use openmodelops.Base.{
  ℕ, zero, suc, ◌+◌, ◌-◌, ◌*◌, ◌/◌, ◌%◌, ◌^◌, ◌≤◌, ◌<◌, String, ◌<>◌, ◌≡◌, refl, sym, ap, ◌∙◌,
  subst, ◌≢◌, ◌↔◌, ◌⊎◌, inl, inr, Bool, true, false, not, ◌&&◌, ◌||◌, false≢true, Option, none,
  some, List, [], ◌∷◌, ◌++◌, map, arith, str_eq, starts_with, eq_iff, ltb, leb, nat_eq, nat_eq_iff,
  if◌then◌else◌, Bool-cases, Option-cases, Eq, ◌==◌, eq_of_nat, eq_of_string, length, take,
  length-append, keep, any, all, All, All-append, contains, is_space, is_blank, is_empty, Error,
  value_error, runtime_error, key_error, permission_error, concurrency_error, policy_denied,
  safety_violation, guardrail_unavailable, integrity_error, http_error, Result, ok, err, ◌>>=◌,
  ◌>>◌, raise_if, is_ok,
}
use openmodelops.Base.Dict.{
  Dict, keys, values, lookup, insert, has_key, lookup-nil, lookup-insert, has_key_lem,
}
use openmodelops.Base.Floats.{Float, nan, neg_inf, pos_inf, fin, ℤ, lt_float}
use openmodelops.Base.Audit.{Entry, Chain, Chain-append, length-audit}

pub data RunState : Type 0 where
  created training evaluating rejected candidate approved deploying canary production : RunState
  rolled_back retired : RunState

unfoldable pub value : RunState → String
value created = "created"
value training = "training"
value evaluating = "evaluating"
value rejected = "rejected"
value candidate = "candidate"
value approved = "approved"
value deploying = "deploying"
value canary = "canary"
value production = "production"
value rolled_back = "rolled_back"
value retired = "retired"

-- `_TRANSITIONS`
unfoldable pub transitions : RunState → List RunState
transitions created = training ∷ []
transitions training = evaluating ∷ []
transitions evaluating = rejected ∷ candidate ∷ []
transitions candidate = approved ∷ rejected ∷ []
transitions approved = deploying ∷ []
transitions deploying = canary ∷ rolled_back ∷ []
transitions canary = production ∷ rolled_back ∷ []
transitions production = rolled_back ∷ retired ∷ []
transitions rolled_back = retired ∷ []
transitions rejected = []
transitions retired = []

-- How far a state is from the first, along the longest way.
abbrev pub rank : RunState → ℕ
rank created = 0
rank training = 1
rank evaluating = 2
rank candidate = 3
rank approved = 4
rank deploying = 5
rank canary = 6
rank production = 7
rank rolled_back = 8
rank retired = 9
rank rejected = 10

-- Two states are one exactly if their ranks are.
unfoldable pub in_states : List RunState → RunState → Bool
in_states [] s = false
in_states (t ∷ ts) s = nat_eq (rank t) (rank s) || in_states ts s

pub record EvaluationPolicy : Type 0 where
  pub minimum_metrics : Dict String Float
  pub maximum_metrics : Dict String Float

-- `metrics.get(name, default)`
unfoldable pub get_metric : Dict String Float → String → Float → Float
get_metric metrics name default = elim (lookup name metrics) [ none ↦ default | some v ↦ v ]

-- `f"{v!r}"`, where `repr` prints a float
abbrev pub show_metric : (Float → String) → Option Float → String
show_metric repr none = "None"
show_metric repr (some v) = repr v

-- The two comprehensions of `EvaluationPolicy.evaluate`.
unfoldable pub below : (Float → String) → Dict String Float → Dict String Float → List String
unfolding get_metric
below repr metrics [] = []
below repr metrics ((name, threshold) ∷ rest) =
    let others = below repr metrics rest in
    if lt_float (get_metric metrics name neg_inf) threshold
    then (name <> "=" <> show_metric repr (lookup name metrics) <> " below " <> repr threshold)
      ∷ others
    else others

unfoldable pub above : (Float → String) → Dict String Float → Dict String Float → List String
unfolding get_metric
above repr metrics [] = []
above repr metrics ((name, threshold) ∷ rest) =
    let others = above repr metrics rest in
    if lt_float threshold (get_metric metrics name pos_inf)
    then (name <> "=" <> show_metric repr (lookup name metrics) <> " above " <> repr threshold)
      ∷ others
    else others

abbrev pub no_failures : List String → Bool
no_failures [] = true
no_failures (f ∷ fs) = false

unfoldable pub evaluate :
    (Float → String) → EvaluationPolicy → Dict String Float → Bool × List String
unfolding below above
evaluate repr policy metrics =
    let failures =
      below repr metrics policy.minimum_metrics ++ above repr metrics policy.maximum_metrics in
    (no_failures failures, failures)

pub record ModelRun : Type 0 where
  pub run_id : String
  pub model_name : String
  pub dataset_digest : String
  pub code_revision : String
  pub owner : String
  pub state : RunState
  pub artifact_digest : Option String
  pub metrics : Dict String Float
  pub approver : Option String
  pub history : List Entry

-- `ModelRun(run_id, ...)`
abbrev pub new_run : String → String → String → String → String → ModelRun
new_run run_id model_name dataset_digest code_revision owner = record {
  run_id = run_id;
  model_name = model_name;
  dataset_digest = dataset_digest;
  code_revision = code_revision;
  owner = owner;
  state = created;
  artifact_digest = none;
  metrics = [];
  approver = none;
  history = [];
}

-- The end of `transition`: `now` is the clock's reading.
abbrev pub move : String → RunState → String → String → ModelRun → ModelRun
move now target actor reason run = record run {
  history =
      run.history
      ++ (record {
        from = value run.state;
        to = value target;
        actor = actor;
        reason = reason;
        at = now;
      })
        ∷ [];
  state = target;
}

abbrev pub is_approved : RunState → Bool
is_approved approved = true
is_approved _ = false

unfoldable pub transition :
    String → RunState → String → String → ModelRun → Result (Unit {0}) × ModelRun
transition now target actor reason run =
    if not (in_states (transitions run.state) target)
    then (
      err (value_error ("invalid transition " <> value run.state <> " -> " <> value target)),
      run,
    )
    else if is_approved target
    then (if actor == run.owner
        then (
          err (value_error "separation of duties: run owner cannot approve their own model"),
          run,
        )
        else if is_blank reason
        then (err (value_error "approval requires a reason"), run)
        else (ok tt, move now target actor reason (record run { approver = some actor })))
    else (ok tt, move now target actor reason run)

-- `"; ".join(failures)`
unfoldable pub join : String → List String → String
join sep [] = ""
join sep (s ∷ []) = s
join sep (s ∷ t ∷ rest) = s <> sep <> join sep (t ∷ rest)

abbrev pub is_evaluating : RunState → Bool
is_evaluating evaluating = true
is_evaluating _ = false

-- The last two statements of `record_evaluation`: `passed` goes back unless `transition` raised.
abbrev pub after : Bool → Result (Unit {0}) × ModelRun → Result Bool × ModelRun
after passed (ok u, run) = (ok passed, run)
after passed (err e, run) = (err e, run)

unfoldable pub record_evaluation :
    (Float → String)
    → String
    → Dict String Float
    → String
    → EvaluationPolicy
    → String
    → ModelRun
    → Result Bool × ModelRun
record_evaluation repr now metrics artifact_digest policy actor run =
    if not (is_evaluating run.state)
    then (err (value_error "evaluation results can only be recorded in evaluating state"), run)
    else if not (starts_with artifact_digest "sha256:")
    then (err (value_error "artifact must use a sha256 digest"), run)
    else (let (passed, failures) = evaluate repr policy metrics in
        let run' = record run { metrics = metrics; artifact_digest = some artifact_digest } in
        after passed (
          transition now (if passed then candidate else rejected) actor
            (if passed then "quality gates passed" else join "; " failures) run'))
