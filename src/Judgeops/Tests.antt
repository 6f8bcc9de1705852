-- ===== src/Judgeops/Tests.antt =====
-- Runs of the ledger of labels, and its theorems at concrete inputs.
use openmodelops.Base.{
  String, ◌≡◌, refl, false, none, some, List, [], ◌∷◌, eq_of_nat, eq_of_string, keep, any, all,
  contains, is_space, is_blank, text_leb, codes, runtime_error, ok, err,
}
use openmodelops.Base.Dict.{lookup, insert}
use openmodelops.Base.Floats.{Float, nan, double, signed_ratio, round_ratio, bit_length}
use openmodelops.Judgeops.Annotation.{Verdict, pass, fail, is_review}
use openmodelops.Judgeops.Rubric.{
  RubricDimension, Rubric, JudgeSample, JudgeResult, has_twins, check_rubric,
}
use openmodelops.Judgeops.Ensemble.{
  make_ensemble, has_twin_judges, EnsembleResult, JudgeProvider, EnsembleJudge, Reporting, median,
  sort_floats, place_float, max_float, min_float, each, tally, evaluate_ensemble,
}
use openmodelops.Judgeops.Ensemble.Passing.{Passed, passing_verdict}
use openmodelops.Judgeops.Store.{Resolution, JudgeStore, resolve_rows, count_pending, resolve}
use openmodelops.Judgeops.Store.Resolved.{resolving, run_steps, InTable, resolved_final}
use openmodelops.Judgeops.Shadow.{Evaluator, run_shadow, report_active, shadow_apart}
use openmodelops.Judgeops.Pairwise.{PairwiseComparator, test_order_bias}
use openmodelops.Judgeops.Annotation.{
  Verdict, pass, fail, label, status, labels_of, order_by_reviewer, place, verdicts_of,
  stripped_length,
}
use openmodelops.Judgeops.Annotation.Consensus.{label_all, TwoPeople, consensus-TwoPeople}

abbrev reason : String
reason = " matches the manual "

abbrev calls : List (String × String × Verdict × String)
calls =
    ("s1", "zoe", pass, reason)
    ∷ ("s1", "zoe", fail, reason)
    ∷ ("s1", "ana", pass, "too short")
    ∷ ("s1", "ben", pass, reason)
    ∷ []

first_label : (label "s1" "zoe" pass reason []).0 ≡ ok tt
unfolding label is_blank stripped_length codes any
first_label = refl

in_consensus : (status "s1" (label_all calls [])).status ≡ "consensus"
unfolding status label_all labels_of order_by_reviewer keep label is_blank stripped_length codes any
    place text_leb verdicts_of
in_consensus = refl

consensus-TwoPeople_example : TwoPeople (status "s1" (label_all calls [])).labels
consensus-TwoPeople_example = consensus-TwoPeople calls "s1" in_consensus

-- A comparator that prefers what it reads first.
abbrev biased : PairwiseComparator
biased question first_id first second_id second = record { winner = first_id; rationale = "" }

bias_found :
    test_order_bias biased "q" "x" "y"
    ≡ ok (record {
      stable = false;
      winner = "unstable";
      forward = record { winner = "a"; rationale = "" };
      reversed = record { winner = "b"; rationale = "" };
    })
unfolding test_order_bias contains
bias_found = refl

abbrev accuracy : RubricDimension
accuracy = record {
  name = "accuracy";
  description = "The answer is right.";
  threshold = double 1 1073;
  weight = double 1 1074;
}

abbrev rubric : Rubric
rubric = record {
  rubric_id = "answers";
  version = "1";
  dimensions = accuracy ∷ [];
  minimum_confidence = double 1 1073;
}

rubric_allowed : check_rubric rubric ≡ ok rubric
unfolding check_rubric has_twins codes all any
rubric_allowed = refl

abbrev sample : JudgeSample
sample = record {
  sample_id = "s1";
  question = "q";
  candidate_answer = "a";
  reference_answer = none;
  contexts = [];
  expected_tools = [];
  risk_tier = "standard";
}

abbrev opinion : Float → JudgeResult
opinion x = record {
  sample_id = "s1";
  judge_id = "j";
  judge_revision = "1";
  rubric_id = "answers";
  rubric_digest = "d";
  sample_digest = "d";
  verdict = pass;
  scores = ("accuracy", x) ∷ [];
  confidence = double 1 1074;
  rationale = "r";
  claims = [];
  injection_detected = false;
}

abbrev judge : String → Float → JudgeProvider
judge id x = record { judge_id = id; judge_revision = "1"; evaluate = λ s r. ok (opinion x) }

abbrev two_judges : EnsembleJudge
two_judges = record {
  judges = judge "a" (double 3 1072) ∷ judge "b" (double 1 1074) ∷ [];
  maximum_disagreement = double 1 1072;
}

abbrev plainly : Reporting
plainly = record { weigh = λ scores r. nan; round_six = λ x. x }

abbrev agreed : EnsembleResult
agreed = record {
  sample_id = "s1";
  verdict = pass;
  scores = ("accuracy", double 7 1071) ∷ [];
  weighted_score = nan;
  confidence = double 1 1074;
  maximum_disagreement = double 1 1072;
  judge_results = opinion (double 3 1072) ∷ opinion (double 1 1074) ∷ [];
  reason = "all rubric thresholds passed";
}

agreed_so : evaluate_ensemble plainly two_judges sample rubric ≡ ok agreed
unfolding evaluate_ensemble tally each median sort_floats place_float max_float min_float insert
    lookup any all signed_ratio round_ratio bit_length
agreed_so = refl

made_of_two : make_ensemble two_judges.judges (double 1 1072) ≡ ok two_judges
unfolding make_ensemble has_twin_judges any
made_of_two = refl

passing_verdict_example : Passed plainly two_judges sample rubric agreed
passing_verdict_example =
    passing_verdict plainly two_judges sample rubric two_judges.judges (double 1 1072) made_of_two
      agreed_so refl

abbrev waiting : JudgeStore
waiting = record {
  evaluations = [];
  reviews = (record { evaluation_id = "e1"; resolution = none }) ∷ [];
}

abbrev ruling : Resolution
ruling = record { human_verdict = fail; reviewer = "ana"; reason = "wrong"; resolved_at = "t1" }

ruled : (resolve "t1" "e1" "ana" fail "wrong" waiting).0 ≡ ok ruling
unfolding resolve resolve_rows count_pending is_blank is_space
ruled = refl

resolved_final_example :
    (is_review fail ≡ false)
    × (is_blank "ana" ≡ false)
    × (is_blank "wrong" ≡ false)
    × (count_pending "e1" waiting.reviews ≡ 1)
    × InTable
        (record { evaluation_id = "e1"; resolution = some ruling })
        (run_steps
          (resolving "t2" "e1" "ben" pass "right" ∷ [])
          (resolve "t1" "e1" "ana" fail "wrong" waiting).1).reviews
resolved_final_example =
    resolved_final "t1" "e1" "ana" fail "wrong" waiting
      (resolving "t2" "e1" "ben" pass "right" ∷ []) ruled

abbrev active : Evaluator
active s r = ok agreed

abbrev broken : Evaluator
broken s r = err (runtime_error "unreachable")

shadow_apart_example :
    report_active (run_shadow active active (sample ∷ []) rubric)
    ≡ report_active (run_shadow active broken (sample ∷ []) rubric)
shadow_apart_example = shadow_apart active active broken (sample ∷ []) rubric
