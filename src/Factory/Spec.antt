-- ===== src/Factory/Spec.antt =====
-- platforms/factory/domain.py: the specification of a workload and the result of a gate, with the
-- checks of their `__post_init__`, which stand in the order of the source.
use openmodelops.Base.{
  String, Bool, not, ◌&&◌, List, [], ◌∷◌, starts_with, eq_of_nat, eq_of_string, contains, is_blank,
  codes, is_name, value_error, Result, ok, ◌>>◌, raise_if,
}
use openmodelops.Base.Floats.{Float, fin, ℤ, lt_float, le_float, double, ltb_ℤ}

pub data WorkloadKind : Type 0 where
  model llm agent rag : WorkloadKind

pub data GateStatus : Type 0 where
  pass fail : GateStatus

pub record Slo : Type 0 where
  pub availability_target : Float
  pub latency_p95_ms : ℤ
  pub error_rate_target : Float

-- `SLO(...)`
unfoldable pub make_slo : Float → ℤ → Float → Result Slo
make_slo availability latency error_rate = do
  raise_if
      (not (
        le_float (double 8106479329266893 1021) availability
        && lt_float availability (double 1 1074)))
      (value_error "availability_target must be between 0.9 and 1")
  raise_if (not (ltb_ℤ (ℤ.pos 0) latency)) (value_error "latency_p95_ms must be positive")
  raise_if
      (not
        (le_float (fin (ℤ.pos 0)) error_rate && le_float error_rate (double 3602879701896397 1019)))
      (value_error "error_rate_target must be between 0 and 0.1")
  ok (record {
    availability_target = availability;
    latency_p95_ms = latency;
    error_rate_target = error_rate;
  })

pub record FactorySpec : Type 0 where
  pub name : String
  pub kind : WorkloadKind
  pub owner : String
  pub tenant : String
  pub environment : String
  pub artifact_digest : String
  pub data_classification : String
  pub slo : Slo
  pub requires_gpu : Bool
  pub internet_egress : Bool

abbrev pub environments : List String
environments = "development" ∷ "test" ∷ "production" ∷ []

abbrev pub classifications : List String
classifications = "public" ∷ "internal" ∷ "confidential" ∷ "restricted" ∷ []

-- `FactorySpec.__post_init__`
unfoldable pub check_spec : FactorySpec → Result FactorySpec
check_spec spec = do
  raise_if (not (is_name (codes spec.name)))
      (value_error "name must be a lowercase DNS-compatible identifier")
  raise_if (not (contains environments spec.environment)) (value_error "unsupported environment")
  raise_if (not (contains classifications spec.data_classification))
      (value_error "unsupported data classification")
  raise_if (not (starts_with spec.artifact_digest "sha256:"))
      (value_error "artifact must use an immutable sha256 digest")
  ok spec

pub record GateResult : Type 0 where
  pub gate : String
  pub status : GateStatus
  pub evidence : String
  pub evaluator : String
  pub evidence_digest : String
  pub signing_key_id : String
  pub signature : String
  pub measured_at : String

-- `GateResult.__post_init__`
unfoldable pub check_gate_result : GateResult → Result GateResult
check_gate_result result = do
  raise_if (is_blank result.evidence) (value_error "gate evidence is required")
  ok result
