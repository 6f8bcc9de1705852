-- ===== src/Factory/Store.antt =====
-- platforms/factory/store.py: the table of workloads, with a tenant and a version to each row. A
-- document is the JSON that `_serialize` writes and `_deserialize` reads; a time stands in it as text.
pub mod Roundtrip
pub mod Versions
use openmodelops.Base.{
  ℕ, zero, suc, ◌+◌, ◌-◌, ◌*◌, ◌/◌, ◌%◌, ◌^◌, ◌≤◌, ◌<◌, String, ◌<>◌, ◌≡◌, refl, sym, ap, ◌∙◌,
  subst, ◌≢◌, ◌↔◌, ◌⊎◌, inl, inr, Bool, true, false, not, ◌&&◌, ◌||◌, false≢true, Option, none,
  some, List, [], ◌∷◌, ◌++◌, map, arith, str_eq, starts_with, eq_iff, ltb, leb, nat_eq, nat_eq_iff,
  if◌then◌else◌, Bool-cases, Option-cases, Eq, ◌==◌, eq_of_nat, eq_of_string, length, take,
  length-append, keep, length-keep, any, any-append, all, All, All-append, contains, is_space,
  is_blank, is_empty, codes, is_lower, is_digit, name_tail, is_name, repr_items, repr_list, Error,
  value_error, runtime_error, key_error, permission_error, concurrency_error, policy_denied,
  safety_violation, guardrail_unavailable, integrity_error, http_error, Result, ok, err, ◌>>=◌,
  ◌>>◌, raise_if, is_ok, Result-cases,
}
use openmodelops.Base.Dict.{
  Dict, keys, values, lookup, insert, has_key, lookup-nil, lookup-insert, lookup-insert_self,
  lookup-insert_ne, has_key_lem,
}
use openmodelops.Base.Floats.{
  Float, nan, neg_inf, pos_inf, fin, ℤ, lt_float, le_float, double, ltb_ℤ,
}
use openmodelops.Base.Audit.{Entry, Chain, Chain-append, length-audit}
use openmodelops.Factory.Spec.{
  WorkloadKind, model, llm, agent, rag, GateStatus, pass, fail, Slo, make_slo, FactorySpec,
  check_spec, GateResult, check_gate_result,
}
use openmodelops.Factory.Workload
use openmodelops.Factory.Workload.{
  WorkloadStage, draft, validated, approved, provisioned, released, suspended, retired,
  FactoryWorkload,
}

unfoldable pub kind_value : WorkloadKind → String
kind_value model = "model"
kind_value llm = "llm"
kind_value agent = "agent"
kind_value rag = "rag"

unfoldable pub status_value : GateStatus → String
status_value pass = "pass"
status_value fail = "fail"

-- `WorkloadKind(text)`, `GateStatus(text)`, `WorkloadStage(text)`
unfoldable pub kind_of : String → Result WorkloadKind
kind_of s =
    if str_eq s "model"
    then ok model
    else if str_eq s "llm"
    then ok llm
    else if str_eq s "agent"
    then ok agent
    else if str_eq s "rag"
    then ok rag
    else err (value_error "not a valid WorkloadKind")

unfoldable pub status_of : String → Result GateStatus
status_of s =
    if str_eq s "pass"
    then ok pass
    else if str_eq s "fail"
    then ok fail
    else err (value_error "not a valid GateStatus")

unfoldable pub stage_of : String → Result WorkloadStage
stage_of s =
    if str_eq s "draft"
    then ok draft
    else if str_eq s "validated"
    then ok validated
    else if str_eq s "approved"
    then ok approved
    else if str_eq s "provisioned"
    then ok provisioned
    else if str_eq s "released"
    then ok released
    else if str_eq s "suspended"
    then ok suspended
    else if str_eq s "retired"
    then ok retired
    else err (value_error "not a valid WorkloadStage")

pub record SpecDocument : Type 0 where
  pub name : String
  pub kind : String
  pub owner : String
  pub tenant : String
  pub environment : String
  pub artifact_digest : String
  pub data_classification : String
  pub slo : Slo
  pub requires_gpu : Bool
  pub internet_egress : Bool

pub record GateDocument : Type 0 where
  pub gate : String
  pub status : String
  pub evidence : String
  pub evaluator : String
  pub evidence_digest : String
  pub signing_key_id : String
  pub signature : String
  pub measured_at : String

pub record Document : Type 0 where
  pub spec : SpecDocument
  pub workload_id : String
  pub stage : String
  pub gates : Dict String GateDocument
  pub approved_by : Option String
  pub policy_digest : Option String
  pub history : List Entry

unfoldable pub spec_document : FactorySpec → SpecDocument
spec_document s = record {
  name = s.name;
  kind = kind_value s.kind;
  owner = s.owner;
  tenant = s.tenant;
  environment = s.environment;
  artifact_digest = s.artifact_digest;
  data_classification = s.data_classification;
  slo = s.slo;
  requires_gpu = s.requires_gpu;
  internet_egress = s.internet_egress;
}

unfoldable pub gate_document : GateResult → GateDocument
gate_document r = record {
  gate = r.gate;
  status = status_value r.status;
  evidence = r.evidence;
  evaluator = r.evaluator;
  evidence_digest = r.evidence_digest;
  signing_key_id = r.signing_key_id;
  signature = r.signature;
  measured_at = r.measured_at;
}

unfoldable pub gate_documents : Dict String GateResult → Dict String GateDocument
gate_documents [] = []
gate_documents ((name, r) ∷ gates) = (name, gate_document r) ∷ gate_documents gates

unfoldable pub serialize : FactoryWorkload → Document
serialize w = record {
  spec = spec_document w.spec;
  workload_id = w.workload_id;
  stage = Workload.value w.stage;
  gates = gate_documents w.gates;
  approved_by = w.approved_by;
  policy_digest = w.policy_digest;
  history = w.history;
}

unfoldable pub read_spec : SpecDocument → Result FactorySpec
read_spec d = do
  slo ← make_slo d.slo.availability_target d.slo.latency_p95_ms d.slo.error_rate_target
  kind ← kind_of d.kind
  check_spec (record {
    name = d.name;
    kind = kind;
    owner = d.owner;
    tenant = d.tenant;
    environment = d.environment;
    artifact_digest = d.artifact_digest;
    data_classification = d.data_classification;
    slo = slo;
    requires_gpu = d.requires_gpu;
    internet_egress = d.internet_egress;
  })

unfoldable pub read_gate : GateDocument → Result GateResult
read_gate d = do
  status ← status_of d.status
  check_gate_result (record {
    gate = d.gate;
    status = status;
    evidence = d.evidence;
    evaluator = d.evaluator;
    evidence_digest = d.evidence_digest;
    signing_key_id = d.signing_key_id;
    signature = d.signature;
    measured_at = d.measured_at;
  })

unfoldable pub read_gates : Dict String GateDocument → Result (Dict String GateResult)
read_gates [] = ok []
read_gates ((name, d) ∷ ds) = do r ← read_gate d; rest ← read_gates ds; ok ((name, r) ∷ rest)

-- The object is built with its stage before the gates are read.
unfoldable pub deserialize : Document → Result FactoryWorkload
deserialize d = do
  spec ← read_spec d.spec
  stage ← stage_of d.stage
  gates ← read_gates d.gates
  ok (record {
    spec = spec;
    workload_id = d.workload_id;
    stage = stage;
    gates = gates;
    approved_by = d.approved_by;
    policy_digest = d.policy_digest;
    history = d.history;
  })

pub record Row : Type 0 where
  pub tenant : String
  pub version : ℕ
  pub document : Document

abbrev pub FactoryStore : Type 0
FactoryStore = Dict String Row

-- An `INSERT` on a primary key that is there raises.
unfoldable pub create : FactoryWorkload → FactoryStore → Result ℕ × FactoryStore
create w store =
    if has_key w.workload_id store
    then (err (integrity_error "UNIQUE constraint failed: factory_workloads.workload_id"), store)
    else (
      ok 1,
      insert w.workload_id (record { tenant = w.spec.tenant; version = 1; document = serialize w })
          store,
    )

-- The rows that the `WHERE` clause on id and tenant leaves: at most one, since the id is the key.
unfoldable pub select_row : String → Option Row → Option Row
select_row tenant none = none
select_row tenant (some row) = if row.tenant == tenant then some row else none

unfoldable pub read_row : Option Row → Result (Option (FactoryWorkload × ℕ))
read_row none = ok none
read_row (some row) = do w ← deserialize row.document; ok (some (w, row.version))

unfoldable pub get : String → String → FactoryStore → Result (Option (FactoryWorkload × ℕ))
get workload_id tenant store = read_row (select_row tenant (lookup workload_id store))

-- `UPDATE ... WHERE workload_id = ? AND tenant = ? AND version = ?`
abbrev pub matches : String → ℕ → Option Row → Bool
matches tenant version none = false
matches tenant version (some row) = row.tenant == tenant && nat_eq row.version version

unfoldable pub save : FactoryWorkload → ℕ → FactoryStore → Result ℕ × FactoryStore
save w expected_version store =
    if matches w.spec.tenant expected_version (lookup w.workload_id store)
    then (
      ok (expected_version + 1),
      insert w.workload_id
          (record {
            tenant = w.spec.tenant;
            version = expected_version + 1;
            document = serialize w;
          })
          store,
    )
    else (err (concurrency_error "workload changed concurrently"), store)
