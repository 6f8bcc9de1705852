-- ===== src/Mlops/Tests.antt =====
-- Runs of the MLOps control plane, and its theorems at concrete inputs.
use openmodelops.Base.{
  String, ◌≡◌, refl, ◌≢◌, true, none, some, List, [], ◌∷◌, arith, eq_iff, eq_of_nat, eq_of_string,
  is_blank, runtime_error, http_error, ok, err,
}
use openmodelops.Base.Dict.{Dict, lookup, insert}
use openmodelops.Base.Floats.{Float, nan, fin, ℤ}
use openmodelops.Base.Audit.{Chain}
use openmodelops.Mlops.Domain.{
  training, evaluating, approved, production, value, transitions, in_states, EvaluationPolicy,
  evaluate, below, above, ModelRun, new_run, transition, record_evaluation,
}
use openmodelops.Mlops.Domain.Invariant.{Reach, BehindApproval, WellApproved}
use openmodelops.Mlops.Domain.Evaluation.{evaluate_nan, unevaluated_release}
use openmodelops.Mlops.Store.{RunStore, save, get, encode, decode}
use openmodelops.Mlops.Store.Concurrency.{late_save, lost_update}
use openmodelops.Mlops.Api.{Request, create, transit, handle, serve, create_run, transition_run}
use openmodelops.Mlops.Api.Safety.{served_reviewed, handle_refused}

abbrev fresh : ModelRun
fresh = new_run "r1" "churn" "sha256:aa" "abc1234" "ana"

abbrev half : Float
half = fin (ℤ.pos 5)

abbrev bounds : EvaluationPolicy
bounds = record { minimum_metrics = ("auc", half) ∷ []; maximum_metrics = ("loss", half) ∷ [] }

abbrev good : Dict String Float
good = ("auc", fin (ℤ.pos 7)) ∷ ("loss", fin (ℤ.pos 2)) ∷ []

abbrev print : Float → String
print f = "x"

good_passes : evaluate print bounds good ≡ (true, [])
unfolding evaluate below above lookup
good_passes = refl

missing_fails : (evaluate print bounds []).1 ≡ "auc=None below x" ∷ "loss=None above x" ∷ []
unfolding evaluate below above lookup
missing_fails = refl

abbrev trained : ModelRun
trained = (transition "t" training "ana" "" fresh).1

abbrev scoring : ModelRun
scoring = (transition "t" evaluating "ana" "" trained).1

abbrev scored_run : ModelRun
scored_run = (record_evaluation print "t" good "sha256:bb" bounds "ana" scoring).1

abbrev approved_run : ModelRun
approved_run = (transition "t" approved "ben" "fine" scored_run).1

approved_run_state : approved_run.state ≡ approved
unfolding record_evaluation evaluate below above transition transitions in_states lookup is_blank
approved_run_state = refl

abbrev broken : Dict String Float
broken = ("auc", nan) ∷ ("loss", nan) ∷ []

evaluate_nan_example : (evaluate print bounds broken).0 ≡ true
unfolding lookup
evaluate_nan_example = evaluate_nan print bounds broken (refl, tt) (refl, tt)

scoring_state : scoring.state ≡ evaluating
unfolding transition transitions in_states
scoring_state = refl

unevaluated_release_example :
    (run : ModelRun) × Reach fresh run
    × (run.state ≡ production)
    × (run.artifact_digest ≡ none)
    × (run.metrics ≡ [])
unfolding is_blank
unevaluated_release_example =
    unevaluated_release "r1" "churn" "sha256:aa" "abc1234" "ana" "t" "ben" "ship it"
      (ground (arith, eq_iff "ben" "ana")) refl

abbrev table : RunStore
table = (save fresh none []).1

fresh_saved : (save fresh none []).0 ≡ ok 1
unfolding save lookup
fresh_saved = refl

fresh_row : lookup "r1" table ≡ some (record { payload = encode fresh; revision = 1 })
unfolding save lookup insert
fresh_row = refl

-- Two runs that two writers made of the stored one
abbrev mine : ModelRun
mine = record fresh { artifact_digest = some "sha256:bb" }

abbrev theirs : ModelRun
theirs = record fresh { artifact_digest = some "sha256:cc" }

lost_update_example :
    let t = (save mine (some 1) table).1 in
    let late = late_save mine theirs 1 table (encode fresh) refl fresh_row in
    ((save mine (some 1) table).0 ≡ ok 2)
    × (save theirs (some 1) t ≡ (err (runtime_error "concurrent update detected"), t))
    × (late.0 ≡ ok 2)
    × (get "r1" late.1 ≡ ok (theirs, 2))
    × ((j : String) → "r1" ≢ j → get j late.1 ≡ get j table)
lost_update_example = lost_update mine theirs 1 table (encode fresh) refl fresh_row

abbrev requests : List Request
requests =
    create "r1" "churn" "sha256:aa" "abc1234" "ana" ∷ transit "t" "r1" training "ana" "" 1 ∷ []

served : get "r1" (serve requests []) ≡ ok (trained, 2)
unfolding get decode serve handle create_run transition_run save encode lookup insert transition
    transitions in_states value
served = refl

served_reviewed_example :
    (BehindApproval trained.state → WellApproved trained.approver trained.owner trained.history)
    × Chain "created" trained.history (value trained.state)
served_reviewed_example = served_reviewed requests "r1" trained 2 served

stale_answer :
    (handle (transit "t" "r1" training "ana" "" 4) table).0 ≡ err (http_error 409 "stale revision")
unfolding handle transition_run get decode save encode lookup insert value
stale_answer = refl

handle_refused_example : (handle (transit "t" "r1" training "ana" "" 4) table).1 ≡ table
handle_refused_example = handle_refused (transit "t" "r1" training "ana" "" 4) table stale_answer
