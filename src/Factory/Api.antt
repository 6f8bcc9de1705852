-- ===== src/Factory/Api.antt =====
-- platforms/factory/api.py: the handlers that change workloads, for an identity that is already known.
-- The clock, the id of a new workload, SHA-256 and the signature check are arguments.
pub mod Soundness
pub mod Methods
pub mod Evidence
pub mod Safety
use openmodelops.Base.{
  ℕ, zero, suc, ◌+◌, ◌-◌, ◌*◌, ◌/◌, ◌%◌, ◌^◌, ◌≤◌, ◌<◌, String, ◌<>◌, ◌≡◌, refl, sym, ap, ◌∙◌,
  subst, ◌≢◌, ◌↔◌, ◌⊎◌, inl, inr, Bool, true, false, not, ◌&&◌, ◌||◌, false≢true, Option, none,
  some, List, [], ◌∷◌, ◌++◌, map, arith, str_eq, starts_with, eq_iff, ltb, leb, nat_eq, nat_eq_iff,
  if◌then◌else◌, Bool-cases, Option-cases, Eq, ◌==◌, eq_of_nat, eq_of_string, length, take,
  length-append, keep, length-keep, any, any-append, all, All, All-append, contains, is_space,
  is_blank, is_empty, codes, is_lower, is_digit, name_tail, is_name, repr_items, repr_list, Error,
  value_error, runtime_error, key_error, permission_error, concurrency_error, policy_denied,
  safety_violation, guardrail_unavailable, integrity_error, http_error, Result, ok, err, ◌>>=◌,
  ◌>>◌, raise_if, is_ok, Result-cases,
}
use openmodelops.Base.Dict.{
  Dict, keys, values, lookup, insert, has_key, lookup-nil, lookup-insert, lookup-insert_self,
  lookup-insert_ne, has_key_lem,
}
use openmodelops.Base.Floats.{
  Float, nan, neg_inf, pos_inf, fin, ℤ, lt_float, le_float, double, ltb_ℤ,
}
use openmodelops.Base.Audit.{Entry, Chain, Chain-append, length-audit}
use openmodelops.Security.{Identity, authorize}
use openmodelops.Factory.Spec.{
  Slo, GateStatus, pass, fail, FactorySpec, make_slo, check_spec, GateResult, check_gate_result,
  WorkloadKind,
}
use openmodelops.Factory.Workload
use openmodelops.Factory.Workload.{
  FactoryWorkload, new_workload, record_gate, approve, provision, release, suspend, retire,
}
use openmodelops.Factory.Governance
use openmodelops.Factory.Governance.{EvidenceStatement, check_statement}
use openmodelops.Factory.Store
use openmodelops.Factory.Store.{FactoryStore}

-- What the handlers take from outside.
pub record Outside : Type 0 where
  pub sha256 : String → String
  pub accepts : String → String → EvidenceStatement → Bool
  pub public_keys : Dict String String
  pub production : Bool

pub record GateRequest : Type 0 where
  pub gate : String
  pub passed : Bool
  pub evidence : String
  pub evidence_digest : String
  pub signing_key_id : String
  pub signature : String

abbrev pub Answer : Type 0
Answer = Result (FactoryWorkload × ℕ) × FactoryStore

-- `except ConcurrencyError` and `except ValueError` around the calls of the object and of the store.
abbrev pub as_conflict : Error → Error
as_conflict (concurrency_error message) = http_error 409 message
as_conflict (value_error message) = http_error 409 message
as_conflict e = e

-- `except ValueError` around a constructor or a verification.
abbrev pub as_invalid : Error → Error
as_invalid (value_error message) = http_error 422 message
as_invalid e = e

abbrev pub catch {ℓ} : {A : Type ℓ} → (Error → Error) → Result A → Result A
catch f (ok a) = ok a
catch f (err e) = err (f e)

-- `get_workload`
unfoldable pub get_workload : String → String → FactoryStore → Result (FactoryWorkload × ℕ)
get_workload workload_id tenant store = do
  found ← Store.get workload_id tenant store
  elim found [ none ↦ err (http_error 404 "workload not found") | some answer ↦ ok answer ]

unfoldable pub verify_gate_evidence : Outside → EvidenceStatement → GateRequest → Result (Unit {0})
verify_gate_evidence out statement request = do
  raise_if (out.production && (is_empty request.signing_key_id || is_empty request.signature))
      (http_error 422 "signed evidence is required in production")
  (if not (is_empty request.signing_key_id) || not (is_empty request.signature)
      then catch as_invalid (
          Governance.verify out.accepts out.public_keys statement request.signing_key_id
            request.signature)
      else ok tt)

-- `factory_store().save(workload, version)` and the answer with the workload.
unfoldable pub put : FactoryWorkload → Result ℕ × FactoryStore → Answer
put w (ok version, store) = (ok (w, version), store)
put w (err e, store) = (err (as_conflict e), store)

-- What a handler does once its method has run: save, or answer the error.
unfoldable pub finish : ℕ → FactoryStore → Result (Unit {0}) × FactoryWorkload → Answer
unfolding put
finish version store (ok u, w) = put w (Store.save w version store)
finish version store (err e, w) = (err (as_conflict e), store)

-- What comes before the store is changed may end the handler.
unfoldable pub after {ℓ} : {A : Type ℓ} → Result A → FactoryStore → (A → Answer) → Answer
after (err e) store k = (err e, store)
after (ok a) store k = k a

pub record WorkloadRequest : Type 0 where
  pub name : String
  pub kind : WorkloadKind
  pub owner : String
  pub environment : String
  pub artifact_digest : String
  pub data_classification : String
  pub availability_target : Float
  pub latency_p95_ms : ℤ
  pub error_rate_target : Float
  pub requires_gpu : Bool
  pub internet_egress : Bool

-- The specification that the request and the identity make.
abbrev pub spec_of : Identity → WorkloadRequest → Slo → FactorySpec
spec_of identity r slo = record {
  name = r.name;
  kind = r.kind;
  owner = r.owner;
  tenant = identity.tenant;
  environment = r.environment;
  artifact_digest = r.artifact_digest;
  data_classification = r.data_classification;
  slo = slo;
  requires_gpu = r.requires_gpu;
  internet_egress = r.internet_egress;
}

unfoldable pub build_workload : String → Identity → WorkloadRequest → Result FactoryWorkload
build_workload uuid identity r = do
  authorize identity "factory-admin"
  slo ← catch as_invalid (make_slo r.availability_target r.latency_p95_ms r.error_rate_target)
  spec ← catch as_invalid (check_spec (spec_of identity r slo))
  ok (new_workload uuid spec)

unfoldable pub create_workload : String → Identity → WorkloadRequest → FactoryStore → Answer
create_workload uuid identity request store =
    after (build_workload uuid identity request) store (λ w. put w (Store.create w store))

-- The result that the request and the identity make.
abbrev pub gate_result : String → Identity → GateRequest → GateResult
gate_result now identity request = record {
  gate = request.gate;
  status = if request.passed then pass else fail;
  evidence = request.evidence;
  evaluator = identity.subject;
  evidence_digest = request.evidence_digest;
  signing_key_id = request.signing_key_id;
  signature = request.signature;
  measured_at = now;
}

abbrev pub statement_of : String → Identity → GateRequest → EvidenceStatement
statement_of workload_id identity request = record {
  workload_id = workload_id;
  gate = request.gate;
  evidence_uri = request.evidence;
  evidence_digest = request.evidence_digest;
  evaluator = identity.subject;
}

-- `record_gate` before its `workload.record_gate`; the statement is built outside the `try`.
unfoldable pub ready_gate :
    Outside
    → String
    → String
    → GateRequest
    → Identity
    → FactoryStore
    → Result (FactoryWorkload × ℕ × GateResult)
ready_gate out now workload_id request identity store = do
  authorize identity "gate-evaluator"
  (w, version) ← get_workload workload_id identity.tenant store
  statement ← check_statement (statement_of workload_id identity request)
  verify_gate_evidence out statement request
  result ← catch as_conflict (check_gate_result (gate_result now identity request))
  ok (w, version, result)

unfoldable pub put_gate : Outside → String → String → GateRequest → Identity → FactoryStore → Answer
put_gate out now workload_id request identity store =
    after (ready_gate out now workload_id request identity store) store
      (λ (w, version, result). finish version store (record_gate result w))

abbrev pub role_of : String → String
role_of operation = if operation == "approve" then "release-approver" else "factory-admin"

-- The body of the `try` of `advance`, up to the save.
unfoldable pub advance_method :
    Outside
    → String
    → String
    → String
    → Identity
    → FactoryWorkload
    → Result (Unit {0}) × FactoryWorkload
advance_method out now operation reason identity w =
    if operation == "approve"
    then (let decision = Governance.evaluate out.sha256 w.spec in
        if not decision.allowed
        then (err (value_error ("policy denied release: " <> repr_list decision.reasons)), w)
        else approve now identity.subject decision.policy_digest w)
    else if operation == "provision"
    then provision now identity.subject w
    else if operation == "release"
    then release now identity.subject w
    else if operation == "suspend"
    then suspend now identity.subject reason w
    else if operation == "retire"
    then retire now identity.subject reason w
    else (err (http_error 404 "unknown operation"), w)

unfoldable pub ready_advance :
    String → String → Identity → FactoryStore → Result (FactoryWorkload × ℕ)
ready_advance workload_id operation identity store = do
  authorize identity (role_of operation)
  get_workload workload_id identity.tenant store

unfoldable pub advance :
    Outside → String → String → String → String → Identity → FactoryStore → Answer
advance out now workload_id operation reason identity store =
    after (ready_advance workload_id operation identity store) store
      (λ (w, version). finish version store (advance_method out now operation reason identity w))

-- What a client can ask for, as it reaches the handlers.
pub data Request : Type 0 where
  creation : String → Identity → WorkloadRequest → Request
  gating : String → String → GateRequest → Identity → Request
  advancing : String → String → String → String → Identity → Request

unfoldable pub handle : Outside → Request → FactoryStore → Answer
handle out (creation uuid identity request) store = create_workload uuid identity request store
handle out (gating now workload_id request identity) store =
    put_gate out now workload_id request identity store
handle out (advancing now workload_id operation reason identity) store =
    advance out now workload_id operation reason identity store

unfoldable pub serve : Outside → List Request → FactoryStore → FactoryStore
serve out [] store = store
serve out (r ∷ rs) store = serve out rs (handle out r store).1
