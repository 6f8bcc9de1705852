-- ===== src/Factory/Tests.antt =====
-- Workloads of the factory, and its theorems at concrete inputs.
use openmodelops.Base.{
  ℕ, String, ◌≡◌, refl, ◌≢◌, ◌↔◌, true, false, ◌&&◌, Option, none, some, List, [], ◌∷◌, ◌++◌,
  str_eq, starts_with, eq_of_nat, eq_of_string, keep, any, all, contains, is_blank, is_empty, codes,
  value_error, concurrency_error, ok, err,
}
use openmodelops.Base.Dict.{keys, lookup, insert, has_key}
use openmodelops.Base.Floats.{fin, ℤ, double}
use openmodelops.Base.Audit.{Chain}
use openmodelops.Factory.Catalog.{
  Component, exhausted, visit, validate_acyclic, by_id, check_known, make_catalog,
}
use openmodelops.Factory.Catalog.Fuel.{Distinct}
use openmodelops.Factory.Catalog.Exact.{ids, AreKnown, Descends}
use openmodelops.Factory.Catalog.Whole.{catalog_of, catalog_exact}
use openmodelops.Security.{
  Identity, AuthEnvironment, current_identity, production_identity, has_roles, getenv, bearer_token,
  authorize,
}
use openmodelops.Factory.Spec.{
  Slo, FactorySpec, GateResult, pass, agent, make_slo, check_spec, check_gate_result,
}
use openmodelops.Factory.Workload.{
  validated, provisioned, value, required_gates, FactoryWorkload, new_workload, record_gate,
  missing_or_failed_gates, is_evaluator, approve, provision, release, Op, gate, approval,
  provisioning, releasing, run,
}
use openmodelops.Factory.Workload.Gates.{AllPass, NoEvaluator, approve_exact}
use openmodelops.Factory.Workload.Invariant.{PastApproval, Independent, run_all, run_all_reviewed}
use openmodelops.Factory.Governance.{check_statement, verify, schemes}
use openmodelops.Factory.Store
use openmodelops.Factory.Store.{FactoryStore, serialize, deserialize}
use openmodelops.Factory.Store.Roundtrip.{IsWellFormed, deserialize-serialize}
use openmodelops.Factory.Store.Versions.{stale_save_refused}
use openmodelops.Factory.Api.{
  Outside, GateRequest, Request, creation, WorkloadRequest, serve, put_gate, statement_of, handle,
  create_workload, build_workload, put, after, finish, ready_gate, get_workload,
  verify_gate_evidence,
}
use openmodelops.Factory.Api.Evidence.{IsSigned, production_gate}
use openmodelops.Factory.Api.Safety.{served_cleared}

abbrev slo : Slo
slo = record {
  availability_target = double 15 1070;
  latency_p95_ms = ℤ.pos 200;
  error_rate_target = fin (ℤ.pos 0);
}

abbrev spec : FactorySpec
spec = record {
  name = "helper";
  kind = agent;
  owner = "ana";
  tenant = "acme";
  environment = "production";
  artifact_digest = "sha256:aa";
  data_classification = "internal";
  slo = slo;
  requires_gpu = false;
  internet_egress = false;
}

abbrev result : String → GateResult
result name = record {
  gate = name;
  status = pass;
  evidence = "https://e";
  evaluator = "eve";
  evidence_digest = "sha256:bb";
  signing_key_id = "k";
  signature = "s";
  measured_at = "t";
}

abbrev gate_calls : List String → List (String × Op)
gate_calls [] = []
gate_calls (g ∷ gs) = ("t", gate (result g)) ∷ gate_calls gs

abbrev fresh : FactoryWorkload
fresh = new_workload "w1" spec

abbrev ready : FactoryWorkload
ready = run_all (gate_calls required_gates) fresh

abbrev calls : List (String × Op)
calls = gate_calls required_gates ++ ("t", approval "ben" "p") ∷ ("t", provisioning "ben") ∷ []

abbrev live : FactoryWorkload
live = run_all calls fresh

live_stage : live.stage ≡ provisioned
unfolding run_all run record_gate approve provision missing_or_failed_gates is_evaluator insert
    lookup keep contains
live_stage = refl

approve_exact_example : ((approve "t" "ben" "p" ready).0 ≡ ok tt) ↔ (
    (ready.stage ≡ validated)
    × AllPass ready.gates
    × ("ben" ≢ ready.spec.owner)
    × NoEvaluator "ben" ready.gates)
approve_exact_example = approve_exact "t" "ben" "p" ready

run_all_reviewed_example :
    AllPass live.gates
    × Independent live.approved_by live.spec.owner live.gates
    × Chain "validated" live.history (value live.stage)
unfolding run_all run record_gate approve provision missing_or_failed_gates is_evaluator insert
    lookup keep contains
run_all_reviewed_example = run_all_reviewed "w1" spec calls tt

early_release :
    (run "t" (releasing "ben") fresh).0
    ≡ err (value_error "workload must be provisioned before release")
unfolding run release
early_release = refl

fresh-IsWellFormed : IsWellFormed fresh
unfolding make_slo check_spec codes contains
fresh-IsWellFormed = record { slo_checked = refl; spec_checked = refl; gates_checked = tt }

deserialize-serialize_example : deserialize (serialize fresh) ≡ ok fresh
deserialize-serialize_example = deserialize-serialize fresh fresh-IsWellFormed

abbrev table : FactoryStore
table = (Store.create fresh []).1

fresh_saved : (Store.save fresh 1 table).0 ≡ ok 2
unfolding Store.save Store.create lookup insert has_key
fresh_saved = refl

stale_save_refused_example :
    let t = (Store.save fresh 1 table).1 in
    Store.save ready 1 t ≡ (err (concurrency_error "workload changed concurrently"), t)
unfolding run_all run record_gate contains
stale_save_refused_example = stale_save_refused fresh ready 1 table refl fresh_saved

abbrev sha : String → String
sha message = "00"

abbrev outside : Outside
outside = record {
  sha256 = sha;
  accepts = λ key signature statement. str_eq key "pk" && str_eq signature "s";
  public_keys = ("k", "pk") ∷ [];
  production = true;
}

abbrev admin : Identity
admin = record { subject = "eve"; roles = "factory-admin" ∷ "gate-evaluator" ∷ []; tenant = "acme" }

abbrev wanted : WorkloadRequest
wanted = record {
  name = "helper";
  kind = agent;
  owner = "ana";
  environment = "production";
  artifact_digest = "sha256:aa";
  data_classification = "internal";
  availability_target = double 15 1070;
  latency_p95_ms = ℤ.pos 200;
  error_rate_target = fin (ℤ.pos 0);
  requires_gpu = false;
  internet_egress = false;
}

abbrev requests : List Request
requests = creation "w1" admin wanted ∷ []

served : Store.get "w1" "acme" (serve outside requests []) ≡ ok (some (fresh, 1))
unfolding Store.get serve handle create_workload build_workload put after Store.create lookup insert
    has_key make_slo check_spec codes contains authorize has_roles all serialize deserialize
    Store.read_row Store.select_row Store.read_spec Store.spec_document Store.kind_of
    Store.kind_value Store.stage_of value Store.read_gates Store.gate_documents
served = refl

served_cleared_example :
    (fresh.workload_id ≡ "w1")
    × (fresh.spec.tenant ≡ "acme")
    × (PastApproval fresh.stage
        → AllPass fresh.gates
          × Independent fresh.approved_by fresh.spec.owner fresh.gates
          × Chain "validated" fresh.history (value fresh.stage))
served_cleared_example = served_cleared outside requests "w1" "acme" fresh 1 served

abbrev cost_request : GateRequest
cost_request = record {
  gate = "cost";
  passed = true;
  evidence = "https://e";
  evidence_digest = "sha256:bb";
  signing_key_id = "k";
  signature = "s";
}

gate_recorded :
    (put_gate outside "t" "w1" cost_request admin table).0
    ≡ ok (record fresh { gates = ("cost", result "cost") ∷ []; stage = validated }, 2)
unfolding put_gate ready_gate put after finish Store.create Store.save lookup insert has_key
    make_slo check_spec codes contains authorize has_roles all record_gate get_workload Store.get
    check_statement any verify_gate_evidence verify check_gate_result is_empty is_blank serialize
    deserialize Store.read_row Store.select_row Store.read_spec Store.spec_document Store.kind_of
    Store.kind_value Store.stage_of value Store.read_gates Store.gate_documents
gate_recorded = refl

production_gate_example :
    (has_roles ("gate-evaluator" ∷ []) admin ≡ true)
    × (any (starts_with "https://e") schemes ≡ true)
    × (starts_with "sha256:bb" "sha256:" ≡ true)
    × IsSigned outside (statement_of "w1" admin cost_request) cost_request
production_gate_example =
    production_gate outside "t" "w1" cost_request admin table refl gate_recorded

abbrev production_env : AuthEnvironment
production_env = record {
  auth_mode = some "oidc";
  factory_env = some "production";
  dev_actor = none;
  dev_tenant = none;
  oidc_issuer = some "https://id";
  oidc_audience = some "factory";
}

abbrev accept_all : String → String → String → Option Identity
accept_all issuer audience token = some admin

token_accepted : current_identity accept_all production_env (some "Bearer x") ≡ ok admin
unfolding current_identity is_empty
token_accepted = refl

production_identity_example :
    (production_env.auth_mode ≡ some "oidc")
    × (accept_all "https://id" "factory" (bearer_token (some "Bearer x")) ≡ some admin)
    × (starts_with (getenv (some "Bearer x") "") "Bearer " ≡ true)
production_identity_example =
    production_identity accept_all production_env (some "Bearer x") refl token_accepted

abbrev component : String → List String → Component
component id dependencies = record {
  component_id = id;
  name = id;
  domain = "shared";
  owner = "ana";
  source = "https://github.com/o/r";
  maturity = "verified";
  interface_version = "v1";
  health_endpoint = "/";
  capabilities = "c" ∷ [];
  evidence = "e" ∷ [];
  dependencies = dependencies;
}

abbrev two_components : List Component
two_components = component "api" ("store" ∷ []) ∷ component "store" [] ∷ []

two_accepted : make_catalog two_components ≡ ok (catalog_of two_components)
unfolding make_catalog by_id insert check_known validate_acyclic visit keys has_key keep contains
    lookup
two_accepted = refl

abbrev a_circle : List Component
a_circle = component "api" ("store" ∷ []) ∷ component "store" ("api" ∷ []) ∷ []

circle_refused : make_catalog a_circle ≡ err (value_error "dependency cycle detected at api")
unfolding make_catalog by_id insert check_known validate_acyclic visit keys has_key keep contains
    lookup
circle_refused = refl

catalog_exact_example :
    (validate_acyclic (catalog_of two_components) ≢ exhausted)
    × ((make_catalog two_components ≡ ok (catalog_of two_components)) ↔ (
        Distinct (ids two_components)
        × AreKnown (catalog_of two_components) two_components
        × ((height : String → ℕ) × Descends (catalog_of two_components) height)))
catalog_exact_example = catalog_exact two_components
