-- ===== src/Mlops/Store.antt =====
-- platforms/mlops/store.py: the table of runs with their revisions. A payload is the JSON document
-- that `json.dumps` writes and `json.loads` reads back; the state stands in it by its value.
pub mod Concurrency
use openmodelops.Base.{
  ℕ, zero, suc, ◌+◌, ◌-◌, ◌*◌, ◌/◌, ◌%◌, ◌^◌, ◌≤◌, ◌<◌, String, ◌<>◌, ◌≡◌, refl, sym, ap, ◌∙◌,
  subst, ◌≢◌, ◌↔◌, ◌⊎◌, inl, inr, Bool, true, false, not, ◌&&◌, ◌||◌, false≢true, Option, none,
  some, List, [], ◌∷◌, ◌++◌, map, arith, str_eq, starts_with, eq_iff, ltb, leb, nat_eq, nat_eq_iff,
  if◌then◌else◌, Bool-cases, Option-cases, Eq, ◌==◌, eq_of_nat, eq_of_string, length, take,
  length-append, keep, any, any-append, all, All, All-append, contains, is_space, is_blank,
  is_empty, Error, value_error, runtime_error, key_error, permission_error, concurrency_error,
  policy_denied, safety_violation, guardrail_unavailable, integrity_error, http_error, Result, ok,
  err, ◌>>=◌, ◌>>◌, raise_if, is_ok, Result-cases,
}
use openmodelops.Base.Dict.{
  Dict, keys, values, lookup, insert, has_key, lookup-nil, lookup-insert, has_key_lem,
}
use openmodelops.Base.Floats.{Float, nan, neg_inf, pos_inf, fin, ℤ, lt_float}
use openmodelops.Base.Audit.{Entry, Chain, Chain-append, length-audit}
use openmodelops.Mlops.Domain.{
  RunState, created, training, evaluating, rejected, candidate, approved, deploying, canary,
  production, rolled_back, retired, value, ModelRun,
}

-- `RunState(text)`
unfoldable pub of_value : String → Option RunState
of_value s =
    if str_eq s "created"
    then some created
    else if str_eq s "training"
    then some training
    else if str_eq s "evaluating"
    then some evaluating
    else if str_eq s "rejected"
    then some rejected
    else if str_eq s "candidate"
    then some candidate
    else if str_eq s "approved"
    then some approved
    else if str_eq s "deploying"
    then some deploying
    else if str_eq s "canary"
    then some canary
    else if str_eq s "production"
    then some production
    else if str_eq s "rolled_back"
    then some rolled_back
    else if str_eq s "retired"
    then some retired
    else none

pub record Payload : Type 0 where
  pub run_id : String
  pub model_name : String
  pub dataset_digest : String
  pub code_revision : String
  pub owner : String
  pub state : String
  pub artifact_digest : Option String
  pub metrics : Dict String Float
  pub approver : Option String
  pub history : List Entry

-- `{**run.__dict__, "state": run.state.value}`
unfoldable pub encode : ModelRun → Payload
encode run = record {
  run_id = run.run_id;
  model_name = run.model_name;
  dataset_digest = run.dataset_digest;
  code_revision = run.code_revision;
  owner = run.owner;
  state = value run.state;
  artifact_digest = run.artifact_digest;
  metrics = run.metrics;
  approver = run.approver;
  history = run.history;
}

with_state : Payload → Option RunState → Result ModelRun
with_state p none = err (value_error "not a valid RunState")
with_state p (some s) = ok (record {
  run_id = p.run_id;
  model_name = p.model_name;
  dataset_digest = p.dataset_digest;
  code_revision = p.code_revision;
  owner = p.owner;
  state = s;
  artifact_digest = p.artifact_digest;
  metrics = p.metrics;
  approver = p.approver;
  history = p.history;
})

-- `data["state"] = RunState(data["state"]); ModelRun(**data)`
unfoldable pub decode : Payload → Result ModelRun
unfolding with_state of_value
decode p = with_state p (of_value p.state)

pub record Row : Type 0 where
  pub payload : Payload
  pub revision : ℕ

-- The table `model_runs`, by its primary key.
abbrev pub RunStore : Type 0
RunStore = Dict String Row

-- `expected_revision not in (None, 0)`
abbrev pub expects_row : Option ℕ → Bool
expects_row none = false
expects_row (some zero) = false
expects_row (some (suc n)) = true

abbrev pub is_stale : Option ℕ → ℕ → Bool
is_stale none revision = false
is_stale (some n) revision = not (nat_eq revision n)

-- `SELECT revision`
unfoldable pub select_row : String → RunStore → Option Row
select_row run_id store = lookup run_id store

-- `INSERT`, which raises where the primary key is taken
abbrev pub insert_row : ModelRun → RunStore → Result ℕ × RunStore
insert_row run store = elim (lookup run.run_id store) [
  | none ↦ (ok 1, insert run.run_id (record { payload = encode run; revision = 1 }) store)
  | some row ↦ (err (integrity_error "UNIQUE constraint failed: model_runs.run_id"), store)
]

-- What follows the `SELECT`, on the row that it gave and the table as it is by then. No row is ever
-- deleted, so `UPDATE` finds the row, whatever its revision is by then.
unfoldable pub write_row : ModelRun → Option ℕ → Option Row → RunStore → Result ℕ × RunStore
write_row run expected none store =
    if expects_row expected
    then (err (runtime_error "concurrent update detected"), store)
    else insert_row run store
write_row run expected (some row) store =
    if is_stale expected row.revision
    then (err (runtime_error "concurrent update detected"), store)
    else (
      ok (row.revision + 1),
      insert run.run_id (record { payload = encode run; revision = row.revision + 1 }) store,
    )

-- A save that no other writer comes into: the `SELECT` opens no transaction, so another may.
unfoldable pub save : ModelRun → Option ℕ → RunStore → Result ℕ × RunStore
unfolding write_row select_row
save run expected store = write_row run expected (select_row run.run_id store) store

get_row : String → Option Row → Result (ModelRun × ℕ)
get_row run_id none = err (key_error run_id)
get_row run_id (some row) = do run ← decode row.payload; ok (run, row.revision)

unfoldable pub get : String → RunStore → Result (ModelRun × ℕ)
unfolding get_row
get run_id store = get_row run_id (lookup run_id store)
