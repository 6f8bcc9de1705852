-- ===== src/Streaming/Diagnosis.antt =====
-- platforms/streaming/reliability.py: the findings in a snapshot. The digest of the evidence is an
-- argument, and the drafts that only print an assessment are left out.
pub mod Severe
use openmodelops.Base.{
  ℕ, zero, suc, ◌+◌, ◌-◌, ◌*◌, ◌/◌, ◌%◌, ◌^◌, ◌≤◌, ◌<◌, String, ◌<>◌, ◌≡◌, refl, sym, ap, ◌∙◌,
  subst, ◌≢◌, ◌↔◌, ◌⊎◌, inl, inr, Bool, true, false, not, ◌&&◌, ◌||◌, false≢true, Option, none,
  some, List, [], ◌∷◌, ◌++◌, map, arith, str_eq, starts_with, eq_iff, ltb, leb, nat_eq, nat_eq_iff,
  if◌then◌else◌, Bool-cases, Option-cases, Eq, ◌==◌, eq_of_nat, eq_of_string, length, take,
  length-append, keep, length-keep, any, any-append, all, All, All-append, All-take, All-keep,
  All-every, All-map, length-take, contains, is_space, is_blank, is_empty, ends_with, text_leb,
  codes, is_lower, is_digit, name_tail, is_name, repr_items, repr_list, sorted_set, upper,
  same_codes, is_part, lower_char, type_error, attribute_error, integration_error, index_error,
  Error, value_error, runtime_error, key_error, permission_error, concurrency_error, policy_denied,
  safety_violation, guardrail_unavailable, integrity_error, http_error, Result, ok, err, ◌>>=◌,
  ◌>>◌, raise_if, is_ok, >>=-eq-ok, Result-cases,
}
use openmodelops.Base.Decimal.{decimal, parse_decimal, parse-decimal}
use openmodelops.Base.Json.{
  Json, null, boolean, number, text, array, object, Items, no_items, item, Fields, no_fields, field,
  to_list, get_field, or_default, truthy, or_else, fields_of,
}
use openmodelops.Base.Dict.{
  Dict, keys, values, lookup, insert, has_key, lookup-nil, lookup-insert, lookup-insert_self,
  lookup-insert_ne, lookup-insert_inv, has_key_lem,
}
use openmodelops.Base.Floats.{
  Float, nan, neg_inf, pos_inf, fin, ℤ, lt_float, le_float, double, ltb_ℤ, add_float, sub_float,
  half_float, div_float, div_whole, times_whole, whole_float,
}
use openmodelops.Base.Audit.{Entry, Chain, Chain-append, length-audit}
use Prim.Native.String.{slice}
use openmodelops.Streaming.Slo.{StreamingSnapshot, SloAssessment, Rounding, assess_slo}

pub data Severity : Type 0 where
  info low medium high critical : Severity

-- What a finding rests on
pub data Evidence : Type 0 where
  count : ℕ → Evidence
  amount : Float → Evidence
  partition : String → Evidence
  reported : Option Float → Evidence

pub record Finding : Type 0 where
  pub code : String
  pub severity : Severity
  pub summary : String
  pub evidence : Dict String Evidence
  pub safe_actions : List String

-- `SEVERITY_RANK`
abbrev pub severity_rank : Severity → ℕ
severity_rank info = 0
severity_rank low = 1
severity_rank medium = 2
severity_rank high = 3
severity_rank critical = 4

-- `if test: add(...)`
unfoldable pub add_when : Bool → Finding → List Finding → List Finding
add_when true f fs = f ∷ fs
add_when false f fs = fs

abbrev pub finding : String → Severity → String → Dict String Evidence → List String → Finding
finding code severity summary evidence actions = record {
  code = code;
  severity = severity;
  summary = summary;
  evidence = evidence;
  safe_actions = actions;
}

abbrev pub magnitude : ℤ → ℕ
magnitude (ℤ.pos n) = n
magnitude (ℤ.negsuc n) = 0

-- `max(partition_lag, key=partition_lag.get)`: of equal lags the first.
unfoldable pub hottest : String × ℕ → Dict String ℤ → String × ℕ
hottest best [] = best
hottest (b, n) ((k, v) ∷ d) = hottest (if ltb n (magnitude v) then (k, magnitude v) else (b, n)) d

unfoldable pub total : Dict String ℤ → ℕ
total [] = 0
total ((k, v) ∷ d) = magnitude v + total d

abbrev pub at_least_one : Float → Float
at_least_one x = if lt_float x (whole_float 1) then whole_float 1 else x

abbrev pub hot_of : Dict String ℤ → String × ℕ
hot_of [] = ("", 0)
hot_of ((k, v) ∷ d) = hottest (k, magnitude v) d

abbrev pub mean_of : Dict String ℤ → Float
mean_of d = div_whole (total d) (length d)

-- `lags and max(lags) >= 1_000 and max(lags) > 2 * max(sum(lags) / len(lags), 1)`
abbrev pub is_hot : Dict String ℤ → Bool
is_hot [] = false
is_hot (e ∷ d) =
    let top = (hot_of (e ∷ d)).1 in
    leb 1000 top && lt_float (times_whole (at_least_one (mean_of (e ∷ d))) 2) (whole_float top)

abbrev pub offline_finding : StreamingSnapshot → Finding
offline_finding s =
    finding "OFFLINE_PARTITIONS" critical "Partitions are unavailable."
      (("offline_partitions", count s.offline_partitions) ∷ [])
      ("Page the streaming incident commander" ∷ "Inspect broker and quorum health"
        ∷ "Pause unsafe releases" ∷ [])

pub record StreamingAssessment : Type 0 where
  pub incident_id : String
  pub cluster : String
  pub workload_id : String
  pub observed_at : String
  pub severity : Severity
  pub findings : List Finding
  pub slo : SloAssessment
  pub evidence_digest : String
  pub automatic_remediation : Bool

module _ (round : Rounding) where
  -- The findings after the first
  unfoldable pub later_findings : StreamingSnapshot → SloAssessment → List Finding
  later_findings s slo =
      add_when (ltb 0 s.under_replicated_partitions)
        (finding "UNDER_REPLICATED_PARTITIONS" high "Replication durability is degraded."
          (("under_replicated_partitions", count s.under_replicated_partitions) ∷ [])
          ("Inspect broker health and disk pressure"
            ∷ "Confirm replica recovery before changing replication" ∷ []))
        (add_when (leb 10000 s.consumer_lag)
          (finding "CONSUMER_LAG" high "Consumer processing is materially behind production."
            (("consumer_lag", count s.consumer_lag) ∷ [])
            ("Inspect consumer errors and saturation"
              ∷ "Scale only after confirming partition parallelism" ∷ []))
          (add_when (is_hot s.partition_lag)
            (finding "HOT_PARTITION" high "One partition carries disproportionate lag."
              (("partition", partition (hot_of s.partition_lag).0)
                ∷ ("lag", count (hot_of s.partition_lag).1)
                ∷ ("mean_lag", amount (round 2 (mean_of s.partition_lag)))
                ∷ [])
              ("Inspect key cardinality and partition assignment"
                ∷ "Plan a compatible repartitioning migration" ∷ []))
            (add_when (leb 5 s.rebalances_5m)
              (finding "REBALANCE_STORM" medium "The consumer group is repeatedly rebalancing."
                (("rebalances_5m", count s.rebalances_5m) ∷ [])
                ("Inspect membership churn and heartbeat timeouts"
                  ∷ "Stabilize deployments before scaling" ∷ []))
              (add_when (ltb 0 s.schema_errors_5m)
                (finding "SCHEMA_INCOMPATIBILITY" high "Messages are failing schema validation."
                  (("schema_errors_5m", count s.schema_errors_5m) ∷ [])
                  ("Stop the incompatible producer rollout"
                    ∷ "Validate compatibility and replay quarantined records" ∷ []))
                (add_when (lt_float (double 1152921504606847 1014) s.duplicate_rate)
                  (finding "DUPLICATE_PROCESSING" high
                    "Observed duplicates exceed the idempotency SLO."
                    (("duplicate_rate", amount s.duplicate_rate) ∷ [])
                    ("Verify idempotency keys and transaction boundaries"
                      ∷ "Reconcile downstream side effects" ∷ []))
                  (add_when (lt_float (double 5764607523034235 1015) s.dlq_rate)
                    (finding "POISON_MESSAGES" medium
                      "Dead-letter traffic exceeds the operating threshold."
                      (("dlq_rate", amount s.dlq_rate) ∷ [])
                      ("Sample redacted DLQ records" ∷ "Fix parser safely before controlled replay"
                        ∷ []))
                    (add_when (le_float (whole_float 85) s.disk_used_percent)
                      (finding "DISK_PRESSURE" high
                        "Broker disk utilization threatens retention and availability."
                        (("disk_used_percent", amount s.disk_used_percent) ∷ [])
                        ("Page storage owner" ∷ "Verify retention and tiered-storage health"
                          ∷ "Add capacity through an approved change" ∷ []))
                      (add_when (le_float (whole_float 1000) s.p99_latency_ms)
                        (finding "LATENCY_SLO" medium
                          "End-to-end event latency is outside the service objective."
                          (("p99_latency_ms", amount s.p99_latency_ms) ∷ [])
                          ("Inspect broker, network, and consumer latency spans"
                            ∷ "Correlate with deploy and saturation events" ∷ []))
                        (add_when (slo.status == "exhausted")
                          (finding "ERROR_BUDGET_EXHAUSTED" high
                            "The on-time event completion budget is exhausted."
                            (("burn_rate", reported slo.burn_rate)
                              ∷ ("completion_ratio", reported slo.completion_ratio)
                              ∷ ("target", amount slo.target)
                              ∷ [])
                            ("Freeze non-remediation changes"
                              ∷ "Open a reliability review with accountable owners" ∷ []))
                          [])))))))))

  unfoldable pub findings_of : StreamingSnapshot → SloAssessment → List Finding
  unfolding later_findings
  findings_of s slo =
      add_when (ltb 0 s.offline_partitions) (offline_finding s) (later_findings s slo)

  -- `max(..., key=SEVERITY_RANK.get, default=INFO)`
  unfoldable pub worst : Severity → List Finding → Severity
  worst best [] = best
  worst best (f ∷ fs) =
      worst (if ltb (severity_rank best) (severity_rank f.severity) then f.severity else best) fs

  abbrev pub severity_of : List Finding → Severity
  severity_of [] = info
  severity_of (f ∷ fs) = worst f.severity fs

  -- The assessment that a digest and an objective give
  abbrev pub report_of : String → StreamingSnapshot → SloAssessment → StreamingAssessment
  report_of digest s slo = record {
    incident_id = "stream-" <> slice digest 0 16;
    cluster = s.cluster;
    workload_id = s.workload_id;
    observed_at = s.observed_at;
    severity = severity_of (findings_of s slo);
    findings = findings_of s slo;
    slo = slo;
    evidence_digest = "sha256:" <> digest;
    automatic_remediation = false;
  }

  unfoldable pub diagnose :
      (StreamingSnapshot → String) → StreamingSnapshot → Float → Result StreamingAssessment
  diagnose sha256 s target = assess_slo round s target >>= λ slo. ok (report_of (sha256 s) s slo)
