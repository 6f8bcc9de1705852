-- ===== src/Factory/Store/Roundtrip.antt =====
-- Reading a document back, and the table with its versions.
use openmodelops.Base.{String, ◌≡◌, refl, [], ◌∷◌, eq_of_nat, eq_of_string, All, ok}
use openmodelops.Base.Dict.{Dict}
use openmodelops.Factory.Spec.{
  WorkloadKind, model, GateStatus, pass, fail, make_slo, FactorySpec, check_spec, GateResult,
  check_gate_result,
}
use openmodelops.Factory.Workload.{WorkloadStage, draft, FactoryWorkload, value}
use openmodelops.Factory.Store.{
  kind_value, status_value, kind_of, status_of, stage_of, serialize, deserialize, read_gates,
  read_gate, read_spec, gate_document, gate_documents, spec_document,
}

kind_of-value : (k : WorkloadKind) → kind_of (kind_value k) ≡ ok k
unfolding kind_of kind_value
kind_of-value model = refl
kind_of-value _ = refl

status_of-value : (s : GateStatus) → status_of (status_value s) ≡ ok s
unfolding status_of status_value
status_of-value pass = refl
status_of-value fail = refl

stage_of-value : (s : WorkloadStage) → stage_of (value s) ≡ ok s
unfolding stage_of value
stage_of-value draft = refl
stage_of-value _ = refl

-- What the constructors of a workload's parts have checked.
pub record IsWellFormed (w : FactoryWorkload) : Type 0 where
  pub slo_checked :
      make_slo w.spec.slo.availability_target w.spec.slo.latency_p95_ms w.spec.slo.error_rate_target
      ≡ ok w.spec.slo
  pub spec_checked : check_spec w.spec ≡ ok w.spec
  pub gates_checked : All (λ (name, r). check_gate_result r ≡ ok r) w.gates

read_gate-document :
    (r : GateResult) → check_gate_result r ≡ ok r → read_gate (gate_document r) ≡ ok r
unfolding read_gate gate_document
read_gate-document r h = rw status_of-value h

read_gates-documents :
    (gates : Dict String GateResult)
    → All (λ (name, r). check_gate_result r ≡ ok r) gates
    → read_gates (gate_documents gates) ≡ ok gates
unfolding read_gates gate_documents
read_gates-documents [] h = refl
read_gates-documents ((name, r) ∷ gates) h =
    rw (read_gate-document r h.0) (rw (read_gates-documents gates h.1))

read_spec-document :
    (s : FactorySpec)
    → make_slo s.slo.availability_target s.slo.latency_p95_ms s.slo.error_rate_target ≡ ok s.slo
    → check_spec s ≡ ok s
    → read_spec (spec_document s) ≡ ok s
unfolding read_spec spec_document
read_spec-document s h k = rw h (rw kind_of-value k)

-- A well-formed workload is read back from its document as it was.
pub deserialize-serialize :
    (w : FactoryWorkload) → IsWellFormed w → deserialize (serialize w) ≡ ok w
unfolding deserialize serialize
deserialize-serialize w h =
    rw (read_spec-document w.spec h.slo_checked h.spec_checked)
      (rw stage_of-value (rw (read_gates-documents w.gates h.gates_checked)))
