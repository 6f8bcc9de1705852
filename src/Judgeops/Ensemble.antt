-- ===== src/Judgeops/Ensemble.antt =====
-- platforms/judgeops/ensemble.py: the verdict of several judges. The weighted score, which is only
-- reported, and the rounding of what is reported are arguments.
pub mod Median
pub mod Spread
pub mod Passing
use openmodelops.Base.{
  ℕ, zero, suc, ◌+◌, ◌-◌, ◌*◌, ◌/◌, ◌%◌, ◌^◌, ◌≤◌, ◌<◌, String, ◌<>◌, ◌≡◌, refl, sym, ap, ◌∙◌,
  subst, ◌≢◌, ◌↔◌, ◌⊎◌, inl, inr, Bool, true, false, not, ◌&&◌, ◌||◌, false≢true, Option, none,
  some, List, [], ◌∷◌, ◌++◌, map, arith, str_eq, starts_with, eq_iff, ltb, leb, nat_eq, nat_eq_iff,
  if◌then◌else◌, Bool-cases, Option-cases, Eq, ◌==◌, eq_of_nat, eq_of_string, length, take,
  length-append, keep, length-keep, any, any-append, all, All, All-append, All-take, All-keep,
  All-every, All-map, length-take, contains, is_space, is_blank, is_empty, ends_with, text_leb,
  codes, is_lower, is_digit, name_tail, is_name, repr_items, repr_list, sorted_set, upper,
  same_codes, is_part, lower_char, type_error, attribute_error, integration_error, Error,
  value_error, runtime_error, key_error, permission_error, concurrency_error, policy_denied,
  safety_violation, guardrail_unavailable, integrity_error, http_error, Result, ok, err, ◌>>=◌,
  ◌>>◌, raise_if, is_ok, >>=-eq-ok, Result-cases,
}
use openmodelops.Base.Decimal.{decimal, parse_decimal, parse-decimal}
use openmodelops.Base.Json.{
  Json, null, boolean, number, text, array, object, Items, no_items, item, Fields, no_fields, field,
  to_list, get_field, or_default, truthy, or_else, fields_of,
}
use openmodelops.Base.Dict.{
  Dict, keys, values, lookup, insert, has_key, lookup-nil, lookup-insert, lookup-insert_self,
  lookup-insert_ne, lookup-insert_inv, has_key_lem,
}
use openmodelops.Base.Floats.{
  Float, nan, neg_inf, pos_inf, fin, ℤ, lt_float, le_float, double, ltb_ℤ, add_float, sub_float,
  half_float,
}
use openmodelops.Base.Audit.{Entry, Chain, Chain-append, length-audit}
use openmodelops.Judgeops.Annotation.{Verdict, pass, fail, review}
use openmodelops.Judgeops.Rubric.{RubricDimension, Rubric, JudgeSample, JudgeResult}

pub record EnsembleResult : Type 0 where
  pub sample_id : String
  pub verdict : Verdict
  pub scores : Dict String Float
  pub weighted_score : Float
  pub confidence : Float
  pub maximum_disagreement : Float
  pub judge_results : List JudgeResult
  pub reason : String

pub record JudgeProvider : Type 0 where
  pub judge_id : String
  pub judge_revision : String
  pub evaluate : JudgeSample → Rubric → Result JudgeResult

pub record EnsembleJudge : Type 0 where
  pub judges : List JudgeProvider
  pub maximum_disagreement : Float

abbrev pub is_same_judge : JudgeProvider → JudgeProvider → Bool
is_same_judge a b = b.judge_id == a.judge_id && b.judge_revision == a.judge_revision

unfoldable pub has_twin_judges : List JudgeProvider → Bool
has_twin_judges [] = false
has_twin_judges (j ∷ js) = any (is_same_judge j) js || has_twin_judges js

unfoldable pub make_ensemble : List JudgeProvider → Float → Result EnsembleJudge
unfolding has_twin_judges
make_ensemble judges maximum_disagreement =
    if nat_eq (length judges) 0
    then err (value_error "at least one judge is required")
    else if has_twin_judges judges
    then err (value_error "ensemble judges must have unique identities")
    else ok (record { judges = judges; maximum_disagreement = maximum_disagreement })

-- `sorted(values)`
unfoldable pub place_float : Float → List Float → List Float
place_float x [] = x ∷ []
place_float x (y ∷ ys) =
    let rest = place_float x ys in if lt_float y x then y ∷ rest else x ∷ y ∷ ys

unfoldable pub sort_floats : List Float → List Float
unfolding place_float
sort_floats [] = []
sort_floats (x ∷ xs) = place_float x (sort_floats xs)

abbrev pub at_index : ℕ → List Float → Float
at_index n [] = nan
at_index zero (x ∷ xs) = x
at_index (suc n) (x ∷ xs) = at_index n xs

-- `statistics.median(values)` of one value or more
unfoldable pub median : List Float → Float
unfolding sort_floats
median xs =
    let sorted = sort_floats xs in
    let n = length xs in
    if nat_eq (n % 2) 1
    then at_index (n / 2) sorted
    else half_float (add_float (at_index (n / 2 - 1) sorted) (at_index (n / 2) sorted))

-- `max(values)` and `min(values)`, from the first of them on
unfoldable pub max_float : Float → List Float → Float
max_float best [] = best
max_float best (x ∷ xs) = max_float (if lt_float best x then x else best) xs

unfoldable pub min_float : Float → List Float → Float
min_float best [] = best
min_float best (x ∷ xs) = min_float (if lt_float x best then x else best) xs

abbrev pub spread : List Float → Float
spread [] = nan
spread (x ∷ xs) = sub_float (max_float x xs) (min_float x xs)

-- `[f(x) for x in xs]`, where a call may raise
unfoldable pub each {ℓ κ} : {A : Type ℓ} {B : Type κ} → (A → Result B) → List A → Result (List B)
each f [] = ok []
each f (x ∷ xs) = f x >>= λ y. each f xs >>= λ ys. ok (y ∷ ys)

-- `result.scores[dimension.name]`
abbrev pub score_of : String → JudgeResult → Result Float
score_of name r = elim (lookup name r.scores) [ none ↦ err (key_error name) | some x ↦ ok x ]

-- What the loop over the dimensions has put together
pub record Tally : Type 0 where
  pub scores : Dict String Float
  pub disagreement : Float

unfoldable pub tally : List JudgeResult → List RubricDimension → Tally → Result Tally
unfolding each
tally results [] t = ok t
tally results (d ∷ ds) t = each (score_of d.name) results >>= λ xs. tally results ds (record {
  scores = insert d.name (median xs) t.scores;
  disagreement = if lt_float t.disagreement (spread xs) then spread xs else t.disagreement;
})

-- `scores[dimension.name] >= dimension.threshold`
abbrev pub is_reached : Dict String Float → RubricDimension → Bool
is_reached scores d = elim (lookup d.name scores) [ none ↦ false | some x ↦ le_float d.threshold x ]

abbrev pub verdict_of : Bool → Bool → Bool → Bool → Verdict × String
verdict_of injection disagreed unsure thresholds_pass =
    if injection
    then (review, "judge-targeting prompt injection detected")
    else if disagreed
    then (review, "judge disagreement exceeded policy")
    else if unsure
    then (review, "ensemble confidence below rubric policy")
    else if thresholds_pass
    then (pass, "all rubric thresholds passed")
    else (fail, "one or more rubric thresholds failed")

abbrev pub no_tally : Tally
no_tally = record { scores = []; disagreement = fin (ℤ.pos 0) }

-- What is only reported: the weighted mean and the rounding to six places
pub record Reporting : Type 0 where
  pub weigh : Dict String Float → Rubric → Float
  pub round_six : Float → Float

abbrev pub is_injected : JudgeResult → Bool
is_injected r = r.injection_detected

module _ (reporting : Reporting) where
  abbrev pub conclude : JudgeSample → Rubric → Float → List JudgeResult → Tally → EnsembleResult
  conclude sample rubric allowed results t =
      let confidence = median (map (λ (r : JudgeResult). r.confidence) results) in
      let (verdict, reason) =
        verdict_of (any is_injected results) (lt_float allowed t.disagreement)
          (lt_float confidence rubric.minimum_confidence)
          (all (is_reached t.scores) rubric.dimensions) in
      record {
        sample_id = sample.sample_id;
        verdict = verdict;
        scores = t.scores;
        weighted_score = reporting.round_six (reporting.weigh t.scores rubric);
        confidence = confidence;
        maximum_disagreement = reporting.round_six t.disagreement;
        judge_results = results;
        reason = reason;
      }

  unfoldable pub evaluate_ensemble : EnsembleJudge → JudgeSample → Rubric → Result EnsembleResult
  unfolding tally each
  evaluate_ensemble ensemble sample rubric =
      each (λ (j : JudgeProvider). j.evaluate sample rubric) ensemble.judges >>= λ results.
      tally results rubric.dimensions no_tally >>= λ t.
      ok (conclude sample rubric ensemble.maximum_disagreement results t)
