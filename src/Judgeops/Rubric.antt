-- ===== src/Judgeops/Rubric.antt =====
-- platforms/judgeops/contracts.py: rubrics, samples and the results of judges.
use openmodelops.Base.{
  ℕ, String, Bool, false, not, ◌&&◌, ◌||◌, Option, List, [], ◌∷◌, leb, nat_eq, if◌then◌else◌, ◌==◌,
  eq_of_nat, eq_of_string, length, any, all, codes, is_lower, is_digit, value_error, Result, ok,
  err,
}
use openmodelops.Base.Dict.{Dict, values}
use openmodelops.Base.Floats.{Float, fin, ℤ, lt_float, le_float, double}
use openmodelops.Judgeops.Annotation.{Verdict}

pub record RubricDimension : Type 0 where
  pub name : String
  pub description : String
  pub threshold : Float
  pub weight : Float

pub record Rubric : Type 0 where
  pub rubric_id : String
  pub version : String
  pub dimensions : List RubricDimension
  pub minimum_confidence : Float

abbrev pub has_length : ℕ → ℕ → String → Bool
has_length least most s = leb least (length (codes s)) && leb (length (codes s)) most

abbrev pub is_name_char : ℕ → Bool
is_name_char c = is_lower c || is_digit c || nat_eq c b'_'

-- `^[a-z][a-z0-9_]{1,63}$`
abbrev pub is_dimension_name : List ℕ → Bool
is_dimension_name [] = false
is_dimension_name (c ∷ cs) =
    is_lower c && leb 1 (length cs) && leb (length cs) 63 && all is_name_char cs

-- `^[a-z0-9][a-z0-9_.-]{2,79}$`
abbrev pub is_rubric_id : List ℕ → Bool
is_rubric_id [] = false
is_rubric_id (c ∷ cs) =
    (is_lower c || is_digit c)
    && leb 2 (length cs)
    && leb (length cs) 79
    && all (λ d. is_name_char d || nat_eq d b'.' || nat_eq d b'-') cs

abbrev pub is_unit : Float → Bool
is_unit x = le_float (fin (ℤ.pos 0)) x && le_float x (double 1 1074)

abbrev pub is_dimension : RubricDimension → Bool
is_dimension d =
    is_dimension_name (codes d.name)
    && has_length 10 1000 d.description
    && is_unit d.threshold
    && (lt_float (fin (ℤ.pos 0)) d.weight && le_float d.weight (double 10 1074))

unfoldable pub has_twins : List RubricDimension → Bool
has_twins [] = false
has_twins (d ∷ ds) = any (λ e. e.name == d.name) ds || has_twins ds

unfoldable pub check_rubric : Rubric → Result Rubric
unfolding has_twins
check_rubric r =
    if not (
      is_rubric_id (codes r.rubric_id)
      && has_length 1 40 r.version
      && (leb 1 (length r.dimensions) && leb (length r.dimensions) 20)
      && all is_dimension r.dimensions
      && is_unit r.minimum_confidence)
    then err (value_error "a field is out of its range")
    else if has_twins r.dimensions
    then err (value_error "rubric dimension names must be unique")
    else ok r

pub record JudgeSample : Type 0 where
  pub sample_id : String
  pub question : String
  pub candidate_answer : String
  pub reference_answer : Option String
  pub contexts : List String
  pub expected_tools : List String
  pub risk_tier : String

pub record ClaimAssessment : Type 0 where
  pub claim : String
  pub supported : Bool
  pub evidence : String

pub record JudgeResult : Type 0 where
  pub sample_id : String
  pub judge_id : String
  pub judge_revision : String
  pub rubric_id : String
  pub rubric_digest : String
  pub sample_digest : String
  pub verdict : Verdict
  pub scores : Dict String Float
  pub confidence : Float
  pub rationale : String
  pub claims : List ClaimAssessment
  pub injection_detected : Bool

-- `scores_are_probabilities`
unfoldable pub check_result : JudgeResult → Result JudgeResult
check_result r =
    if any (λ x. not (is_unit x)) (values r.scores)
    then err (value_error "judge scores must be between zero and one")
    else ok r
