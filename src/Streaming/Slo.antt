-- ===== src/Streaming/Slo.antt =====
-- platforms/streaming/reliability.py: a snapshot of a stream and its service level objective. The rounding
-- of the numbers that are only reported is an argument.
use openmodelops.Base.{
  ℕ, zero, suc, String, Bool, true, false, not, ◌&&◌, ◌||◌, Option, none, some, ltb, if◌then◌else◌,
  eq_of_nat, eq_of_string, any, value_error, Result, ok, err,
}
use openmodelops.Base.Dict.{Dict, values}
use openmodelops.Base.Floats.{
  Float, ℤ, lt_float, le_float, ltb_ℤ, sub_float, div_float, div_whole, times_whole, whole_float,
}

pub record StreamingSnapshot : Type 0 where
  pub cluster : String
  pub workload_id : String
  pub topic : Option String
  pub consumer_group : Option String
  pub observed_at : String
  pub produced_total : ℕ
  pub consumed_total : ℕ
  pub eligible_events_total : Option ℕ
  pub completed_within_objective_total : Option ℕ
  pub consumer_lag : ℕ
  pub partition_lag : Dict String ℤ
  pub rebalances_5m : ℕ
  pub under_replicated_partitions : ℕ
  pub offline_partitions : ℕ
  pub schema_errors_5m : ℕ
  pub duplicate_rate : Float
  pub dlq_rate : Float
  pub disk_used_percent : Float
  pub p99_latency_ms : Float

abbrev pub is_between : Float → Float → Float → Bool
is_between least most x = le_float least x && le_float x most

abbrev pub is_given : Option ℕ → Bool
is_given none = false
is_given (some n) = true

abbrev pub exceeds : Option ℕ → Option ℕ → Bool
exceeds (some m) (some n) = ltb n m
exceeds _ _ = false

-- The limits of the fields, then `validate_partition_lag`
unfoldable pub check_snapshot : StreamingSnapshot → Result StreamingSnapshot
check_snapshot s =
    if not (
      is_between (whole_float 0) (whole_float 1) s.duplicate_rate
      && is_between (whole_float 0) (whole_float 1) s.dlq_rate
      && is_between (whole_float 0) (whole_float 100) s.disk_used_percent
      && le_float (whole_float 0) s.p99_latency_ms)
    then err (value_error "a field is out of its range")
    else if any (λ n. ltb_ℤ n (ℤ.pos 0)) (values s.partition_lag)
    then err (value_error "partition lag cannot be negative")
    else if (not (is_given s.eligible_events_total) && is_given s.completed_within_objective_total)
        || (is_given s.eligible_events_total && not (is_given s.completed_within_objective_total))
    then err (value_error "both on-time cohort counters are required together")
    else if exceeds s.completed_within_objective_total s.eligible_events_total
    then err (value_error "on-time completions cannot exceed eligible events")
    else ok s

pub record SloAssessment : Type 0 where
  pub target : Float
  pub completion_ratio : Option Float
  pub error_budget_fraction : Float
  pub budget_consumed_percent : Option Float
  pub burn_rate : Option Float
  pub status : String

-- `max(0.0, x)`
abbrev pub at_least_zero : Float → Float
at_least_zero x = if lt_float (whole_float 0) x then x else whole_float 0

abbrev pub status_of : Float → String
status_of consumed =
    if le_float (whole_float 100) consumed
    then "exhausted"
    else if le_float (whole_float 50) consumed
    then "at-risk"
    else "healthy"

-- `observed_error`
abbrev pub observed_error : ℕ → ℕ → Float
observed_error completed eligible = sub_float (whole_float 1) (div_whole completed eligible)

-- `consumed`
abbrev pub consumed_percent : Float → Float → Float
consumed_percent observed allowed = at_least_zero (times_whole (div_float observed allowed) 100)

-- `round(x, places)`
abbrev pub Rounding : Type 0
Rounding = ℕ → Float → Float

abbrev pub without_data : Rounding → Float → SloAssessment
without_data round target = record {
  target = target;
  completion_ratio = none;
  error_budget_fraction = round 6 (sub_float (whole_float 1) target);
  budget_consumed_percent = none;
  burn_rate = none;
  status = "insufficient-data";
}

abbrev pub with_data : Rounding → Float → ℕ → ℕ → SloAssessment
with_data round target completed eligible =
    let allowed = sub_float (whole_float 1) target in
    let observed = observed_error completed eligible in
    let consumed = consumed_percent observed allowed in
    record {
      target = target;
      completion_ratio = some (round 6 (div_whole completed eligible));
      error_budget_fraction = round 6 allowed;
      budget_consumed_percent = some (round 2 consumed);
      burn_rate = some (round 2 (div_float observed allowed));
      status = status_of consumed;
    }

abbrev pub assessed : Rounding → Float → Option ℕ → Option ℕ → SloAssessment
assessed round target completed none = without_data round target
assessed round target completed (some zero) = without_data round target
assessed round target none (some (suc n)) = without_data round target
assessed round target (some m) (some (suc n)) = with_data round target m (suc n)

-- A snapshot that passed its check has both counters or none.
unfoldable pub assess_slo : Rounding → StreamingSnapshot → Float → Result SloAssessment
assess_slo round s target =
    if not (lt_float (whole_float 0) target && lt_float target (whole_float 1))
    then err (value_error "SLO target must be between zero and one")
    else ok (assessed round target s.completed_within_objective_total s.eligible_events_total)
