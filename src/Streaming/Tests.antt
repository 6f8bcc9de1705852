-- ===== src/Streaming/Tests.antt =====
-- Concrete inputs for platforms/streaming.
use openmodelops.Base.{
  ℕ, ◌≤◌, ◌<◌, String, ◌≡◌, refl, ◌↔◌, false, none, some, [], ◌∷◌, map, eq_of_nat, eq_of_string,
  All, ok,
}
use openmodelops.Base.Floats.{Float, double, whole_float, signed_ratio, round_ratio, bit_length}
use openmodelops.Streaming.Slo.{StreamingSnapshot, SloAssessment, Rounding, assess_slo, assessed}
use openmodelops.Streaming.Diagnosis.{
  info, critical, findings_of, later_findings, add_when, worst, severity_rank, StreamingAssessment,
  diagnose,
}
use openmodelops.Streaming.Diagnosis.Severe.{severity_exact}

abbrev identity_rounding : Rounding
identity_rounding n x = x

abbrev constant_digest : StreamingSnapshot → String
constant_digest s = "0123456789abcdef0123456789abcdef"

abbrev snapshot : ℕ → ℕ → StreamingSnapshot
snapshot offline lag = record {
  cluster = "local-redpanda";
  workload_id = "streaming-reference";
  topic = none;
  consumer_group = none;
  observed_at = "2026-07-01T00:00:00Z";
  produced_total = 100;
  consumed_total = 100;
  eligible_events_total = some 100;
  completed_within_objective_total = some 90;
  consumer_lag = lag;
  partition_lag = [];
  rebalances_5m = 7;
  under_replicated_partitions = 0;
  offline_partitions = offline;
  schema_errors_5m = 0;
  duplicate_rate = whole_float 0;
  dlq_rate = whole_float 0;
  disk_used_percent = whole_float 10;
  p99_latency_ms = whole_float 100;
}

-- The double nearest to 0.999
abbrev goal : Float
goal = double 8998192055486251 1021

abbrev slo_report : SloAssessment
slo_report = assessed identity_rounding goal (some 90) (some 100)

abbrev assessment : StreamingAssessment
assessment = record {
  incident_id = "stream-0123456789abcdef";
  cluster = "local-redpanda";
  workload_id = "streaming-reference";
  observed_at = "2026-07-01T00:00:00Z";
  severity = critical;
  findings = findings_of identity_rounding (snapshot 1 20000) slo_report;
  slo = slo_report;
  evidence_digest = "sha256:0123456789abcdef0123456789abcdef";
  automatic_remediation = false;
}

codes_of :
    map (λ f. f.code) assessment.findings
    ≡ ("OFFLINE_PARTITIONS" ∷ "CONSUMER_LAG" ∷ "REBALANCE_STORM" ∷ "ERROR_BUDGET_EXHAUSTED" ∷ [])
unfolding findings_of later_findings add_when signed_ratio round_ratio bit_length
codes_of = refl

assessed_now : diagnose identity_rounding constant_digest (snapshot 1 20000) goal ≡ ok assessment
unfolding diagnose assess_slo worst findings_of later_findings add_when signed_ratio round_ratio
    bit_length
assessed_now = refl

severity_exact_example :
    All (λ f. severity_rank f.severity ≤ 4) assessment.findings
    × ((critical ≡ critical) ↔ (0 < 1))
    × ((critical ≡ info) ↔ (assessment.findings ≡ []))
severity_exact_example =
    severity_exact identity_rounding constant_digest (snapshot 1 20000) goal assessment assessed_now
