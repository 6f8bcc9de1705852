-- ===== src/Mlops/Api.antt =====
-- platforms/mlops/api.py: the handlers that change state, over the store. A request has passed the
-- checks of its pydantic model; the id of a new run and the clock's reading are arguments.
pub mod Safety
use openmodelops.Base.{
  ℕ, zero, suc, ◌+◌, ◌-◌, ◌*◌, ◌/◌, ◌%◌, ◌^◌, ◌≤◌, ◌<◌, String, ◌<>◌, ◌≡◌, refl, sym, ap, ◌∙◌,
  subst, ◌≢◌, ◌↔◌, ◌⊎◌, inl, inr, Bool, true, false, not, ◌&&◌, ◌||◌, false≢true, Option, none,
  some, List, [], ◌∷◌, ◌++◌, map, arith, str_eq, starts_with, eq_iff, ltb, leb, nat_eq, nat_eq_iff,
  if◌then◌else◌, Bool-cases, Option-cases, Eq, ◌==◌, eq_of_nat, eq_of_string, length, take,
  length-append, keep, any, any-append, all, All, All-append, contains, is_space, is_blank,
  is_empty, Error, value_error, runtime_error, key_error, permission_error, concurrency_error,
  policy_denied, safety_violation, guardrail_unavailable, integrity_error, http_error, Result, ok,
  err, ◌>>=◌, ◌>>◌, raise_if, is_ok, Result-cases,
}
use openmodelops.Base.Dict.{
  Dict, keys, values, lookup, insert, has_key, lookup-nil, lookup-insert, lookup-insert_self,
  lookup-insert_ne, has_key_lem,
}
use openmodelops.Base.Floats.{Float, nan, neg_inf, pos_inf, fin, ℤ, lt_float}
use openmodelops.Base.Audit.{Entry, Chain, Chain-append, length-audit}
use openmodelops.Mlops.Domain.{
  RunState, EvaluationPolicy, ModelRun, new_run, transition, record_evaluation,
}
use openmodelops.Mlops.Store.{RunStore, save, get}

-- `except KeyError` and `except ValueError`; another exception goes through.
abbrev pub as_http : Error → Error
as_http (key_error message) = http_error 404 "run not found"
as_http (value_error message) = http_error 422 message
as_http e = e

-- `_serialize(run, store.save(run, ...))`: the answer is the run with its revision.
abbrev pub reply : ModelRun → Result ℕ × RunStore → Result (ModelRun × ℕ) × RunStore
reply run (ok revision, store) = (ok (run, revision), store)
reply run (err e, store) = (err (as_http e), store)

unfoldable pub create_run :
    String → String → String → String → String → RunStore → Result (ModelRun × ℕ) × RunStore
create_run uuid model_name dataset_digest code_revision owner store =
    let run = new_run uuid model_name dataset_digest code_revision owner in
    reply run (save run none store)

unfoldable pub get_run : String → RunStore → Result (ModelRun × ℕ)
get_run run_id store = elim (get run_id store) [ ok answer ↦ ok answer | err e ↦ err (as_http e) ]

-- What both handlers do after the method: save the run at the revision that was read, or answer the error.
finish {ℓ} : {A : Type ℓ} → Result A × ModelRun → ℕ → RunStore → Result (ModelRun × ℕ) × RunStore
finish (ok a, run) revision store = reply run (save run (some revision) store)
finish (err e, run) revision store = (err (as_http e), store)

-- What both handlers do before the method: read the run, and compare `If-Match`.
with_run {ℓ} :
    {A : Type ℓ}
    → (ModelRun → Result A × ModelRun)
    → ℕ
    → Result (ModelRun × ℕ)
    → RunStore
    → Result (ModelRun × ℕ) × RunStore
with_run method if_match (err e) store = (err (as_http e), store)
with_run method if_match (ok (run, revision)) store =
    if nat_eq revision if_match
    then finish (method run) revision store
    else (err (http_error 409 "stale revision"), store)

unfoldable pub transition_run :
    String → String → RunState → String → String → ℕ → RunStore → Result (ModelRun × ℕ) × RunStore
unfolding with_run finish
transition_run now run_id target actor reason if_match store =
    with_run (transition now target actor reason) if_match (get run_id store) store

unfoldable pub record_evaluation_run :
    (Float → String)
    → String
    → String
    → Dict String Float
    → String
    → String
    → Dict String Float
    → Dict String Float
    → ℕ
    → RunStore
    → Result (ModelRun × ℕ) × RunStore
unfolding with_run finish
record_evaluation_run repr now run_id metrics digest actor minimum maximum if_match store =
    let policy : EvaluationPolicy = record {
      minimum_metrics = minimum;
      maximum_metrics = maximum;
    } in
    with_run (record_evaluation repr now metrics digest policy actor) if_match (get run_id store)
      store

-- What a client can ask for, as it reaches the handlers.
pub data Request : Type 0 where
  create : String → String → String → String → String → Request
  transit : String → String → RunState → String → String → ℕ → Request
  score :
      (Float → String)
      → String
      → String
      → Dict String Float
      → String
      → String
      → Dict String Float
      → Dict String Float
      → ℕ
      → Request

unfoldable pub handle : Request → RunStore → Result (ModelRun × ℕ) × RunStore
handle (create uuid m d c o) store = create_run uuid m d c o store
handle (transit now run_id target actor reason if_match) store =
    transition_run now run_id target actor reason if_match store
handle (score repr now run_id metrics digest actor minimum maximum if_match) store =
    record_evaluation_run repr now run_id metrics digest actor minimum maximum if_match store

unfoldable pub serve : List Request → RunStore → RunStore
serve [] store = store
serve (r ∷ rs) store = serve rs (handle r store).1
