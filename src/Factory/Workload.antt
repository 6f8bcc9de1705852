-- ===== src/Factory/Workload.antt =====
-- platforms/factory/domain.py: a workload, its gates and its lifecycle. A method returns its result
-- and the object as it leaves it; `now` is the reading of the clock.
pub mod Gates
pub mod Invariant
use openmodelops.Base.{
  ℕ, zero, suc, ◌+◌, ◌-◌, ◌*◌, ◌/◌, ◌%◌, ◌^◌, ◌≤◌, ◌<◌, String, ◌<>◌, ◌≡◌, refl, sym, ap, ◌∙◌,
  subst, ◌≢◌, ◌↔◌, ◌⊎◌, inl, inr, Bool, true, false, not, ◌&&◌, ◌||◌, false≢true, Option, none,
  some, List, [], ◌∷◌, ◌++◌, map, arith, str_eq, starts_with, eq_iff, ltb, leb, nat_eq, nat_eq_iff,
  if◌then◌else◌, Bool-cases, Option-cases, Eq, ◌==◌, eq_of_nat, eq_of_string, length, take,
  length-append, keep, any, any-append, all, All, All-append, contains, is_space, is_blank,
  is_empty, codes, is_lower, is_digit, name_tail, is_name, repr_items, repr_list, Error,
  value_error, runtime_error, key_error, permission_error, concurrency_error, policy_denied,
  safety_violation, guardrail_unavailable, integrity_error, http_error, Result, ok, err, ◌>>=◌,
  ◌>>◌, raise_if, is_ok, Result-cases,
}
use openmodelops.Base.Dict.{
  Dict, keys, values, lookup, insert, has_key, lookup-nil, lookup-insert, lookup-insert_self,
  lookup-insert_ne, has_key_lem,
}
use openmodelops.Base.Floats.{
  Float, nan, neg_inf, pos_inf, fin, ℤ, lt_float, le_float, double, ltb_ℤ,
}
use openmodelops.Base.Audit.{Entry, Chain, Chain-append, length-audit}
use openmodelops.Factory.Spec.{FactorySpec, GateResult, GateStatus, pass, fail}

pub data WorkloadStage : Type 0 where
  draft validated approved provisioned released suspended retired : WorkloadStage

unfoldable pub value : WorkloadStage → String
value draft = "draft"
value validated = "validated"
value approved = "approved"
value provisioned = "provisioned"
value released = "released"
value suspended = "suspended"
value retired = "retired"

-- `REQUIRED_GATES`, in the order in which `sorted` lists them.
abbrev pub required_gates : List String
required_gates = "cost" ∷ "observability" ∷ "quality" ∷ "reliability" ∷ "rollback" ∷ "security" ∷ []

pub record FactoryWorkload : Type 0 where
  pub spec : FactorySpec
  pub workload_id : String
  pub stage : WorkloadStage
  pub gates : Dict String GateResult
  pub approved_by : Option String
  pub policy_digest : Option String
  pub history : List Entry

-- `FactoryWorkload(spec)`: `uuid` is the fresh id.
abbrev pub new_workload : String → FactorySpec → FactoryWorkload
new_workload uuid spec = record {
  spec = spec;
  workload_id = uuid;
  stage = draft;
  gates = [];
  approved_by = none;
  policy_digest = none;
  history = [];
}

abbrev pub Method : Type 0
Method = FactoryWorkload → Result (Unit {0}) × FactoryWorkload

-- `_move`
abbrev pub move : String → WorkloadStage → String → String → FactoryWorkload → FactoryWorkload
move now target actor reason w = record w {
  history =
      w.history
      ++ (record {
        from = value w.stage;
        to = value target;
        actor = actor;
        reason = reason;
        at = now;
      })
        ∷ [];
  stage = target;
}

-- `self.stage in {WorkloadStage.DRAFT, WorkloadStage.VALIDATED}`
abbrev pub takes_gates : WorkloadStage → Bool
takes_gates draft = true
takes_gates validated = true
takes_gates _ = false

unfoldable pub record_gate : GateResult → Method
record_gate result w =
    if not (takes_gates w.stage)
    then (err (value_error "gates are immutable after approval"), w)
    else if not (contains required_gates result.gate)
    then (err (value_error ("unsupported release gate: " <> result.gate)), w)
    else (ok tt, record w { gates = insert result.gate result w.gates; stage = validated })

-- `gate not in self.gates or self.gates[gate].status != GateStatus.PASS`
abbrev pub is_blocking : Option GateResult → Bool
is_blocking none = true
is_blocking (some r) = elim r.status [ pass ↦ false | fail ↦ true ]

unfoldable pub missing_or_failed_gates : FactoryWorkload → List String
missing_or_failed_gates w = keep (λ gate. is_blocking (lookup gate w.gates)) required_gates

abbrev pub is_validated : WorkloadStage → Bool
is_validated validated = true
is_validated _ = false

abbrev pub is_nil {ℓ} : {A : Type ℓ} → List A → Bool
is_nil [] = true
is_nil (x ∷ xs) = false

-- `actor in {result.evaluator for result in self.gates.values()}`
unfoldable pub is_evaluator : String → Dict String GateResult → Bool
is_evaluator actor [] = false
is_evaluator actor ((g, r) ∷ gates) = actor == r.evaluator || is_evaluator actor gates

-- `policy_digest or None`
abbrev pub or_none : String → Option String
or_none s = if is_empty s then none else some s

abbrev pub approval_reason : String → String
approval_reason policy_digest =
    if is_empty policy_digest
    then "all required gates passed"
    else ("all required gates passed" <> "; policy=" <> policy_digest)

unfoldable pub approve : String → String → String → Method
approve now actor policy_digest w =
    let failures = missing_or_failed_gates w in
    if not (is_validated w.stage) || not (is_nil failures)
    then (err (value_error ("release gates not satisfied: " <> repr_list failures)), w)
    else if actor == w.spec.owner || is_evaluator actor w.gates
    then (err (value_error "owner or gate evaluator cannot approve the release"), w)
    else (
      ok tt,
      move now approved actor (approval_reason policy_digest)
          (record w { approved_by = some actor; policy_digest = or_none policy_digest }),
    )

abbrev pub is_approved : WorkloadStage → Bool
is_approved approved = true
is_approved _ = false

unfoldable pub provision : String → String → Method
provision now actor w =
    if not (is_approved w.stage)
    then (err (value_error "only approved workloads may be provisioned"), w)
    else (ok tt, move now provisioned actor "platform resources provisioned" w)

abbrev pub is_provisioned : WorkloadStage → Bool
is_provisioned provisioned = true
is_provisioned _ = false

unfoldable pub release : String → String → Method
release now actor w =
    if not (is_provisioned w.stage)
    then (err (value_error "workload must be provisioned before release"), w)
    else (ok tt, move now released actor "workload released" w)

abbrev pub is_released : WorkloadStage → Bool
is_released released = true
is_released _ = false

unfoldable pub suspend : String → String → String → Method
suspend now actor reason w =
    if not (is_released w.stage) || is_blank reason
    then (err (value_error "a released workload and reason are required"), w)
    else (ok tt, move now suspended actor reason w)

-- `self.stage in {WorkloadStage.RELEASED, WorkloadStage.SUSPENDED}`
abbrev pub is_live : WorkloadStage → Bool
is_live released = true
is_live suspended = true
is_live _ = false

unfoldable pub retire : String → String → String → Method
retire now actor reason w =
    if not (is_live w.stage) || is_blank reason
    then (err (value_error "a released or suspended workload and reason are required"), w)
    else (ok tt, move now retired actor reason w)

pub record Scorecard : Type 0 where
  pub required : ℕ
  pub passing : ℕ
  pub percentage : ℕ
  pub blocking_gates : List String

-- `round(100 * passing / required)`: `passing` is at most 6, and no quotient lies half way between
-- two numbers, so the nearest number is the one that Python's `round` gives.
unfoldable pub scorecard : FactoryWorkload → Scorecard
scorecard w =
    let passing = length required_gates - length (missing_or_failed_gates w) in
    record {
      required = length required_gates;
      passing = passing;
      percentage = (200 * passing + length required_gates) / (2 * length required_gates);
      blocking_gates = missing_or_failed_gates w;
    }

-- The calls of the methods that change a workload.
pub data Op : Type 0 where
  gate : GateResult → Op
  approval : String → String → Op
  provisioning : String → Op
  releasing : String → Op
  suspension retirement : String → String → Op

unfoldable pub run : String → Op → Method
run now (gate result) w = record_gate result w
run now (approval actor policy_digest) w = approve now actor policy_digest w
run now (provisioning actor) w = provision now actor w
run now (releasing actor) w = release now actor w
run now (suspension actor reason) w = suspend now actor reason w
run now (retirement actor reason) w = retire now actor reason w
