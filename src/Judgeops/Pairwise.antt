-- ===== src/Judgeops/Pairwise.antt =====
-- platforms/judgeops/pairwise.py: does a comparison depend on the order of the candidates?
use openmodelops.Base.{
  String, Bool, not, ◌||◌, List, [], ◌∷◌, if◌then◌else◌, ◌==◌, eq_of_nat, eq_of_string, contains,
  value_error, Result, ok, err,
}

pub record PairwiseDecision : Type 0 where
  pub winner : String
  pub rationale : String

pub record OrderBiasReport : Type 0 where
  pub stable : Bool
  pub winner : String
  pub forward : PairwiseDecision
  pub reversed : PairwiseDecision

-- `compare(question, first_id, first, second_id, second)`
abbrev pub PairwiseComparator : Type 0
PairwiseComparator = String → String → String → String → String → PairwiseDecision

abbrev pub winners : List String
winners = "a" ∷ "b" ∷ "tie" ∷ []

unfoldable pub test_order_bias :
    PairwiseComparator → String → String → String → Result OrderBiasReport
test_order_bias compare question candidate_a candidate_b =
    let forward = compare question "a" candidate_a "b" candidate_b in
    let reversed = compare question "b" candidate_b "a" candidate_a in
    let stable = forward.winner == reversed.winner in
    if not (contains winners forward.winner) || not (contains winners reversed.winner)
    then err (value_error "pairwise comparator returned an invalid winner")
    else ok (record {
      stable = stable;
      winner = if stable then forward.winner else "unstable";
      forward = forward;
      reversed = reversed;
    })
