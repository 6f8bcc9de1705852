-- ===== src/Judgeops/Ensemble/Passing.antt =====
-- platforms/judgeops/ensemble.py: what a passing verdict rests on.
use openmodelops.Base.{
  All-map, suc, ◌≤◌, String, ◌≡◌, refl, sym, ap, ◌∙◌, subst, inl, inr, Bool, true, false,
  false≢true, some, List, [], ◌∷◌, map, arith, Bool-cases, Option-cases, eq_of_nat, eq_of_string,
  length, any, all, All, Result, ok, >>=-eq-ok,
}
use openmodelops.Base.Dict.{Dict, lookup, insert, lookup-insert_inv}
use openmodelops.Base.Floats.{Float, lt_float, le_float}
use openmodelops.Judgeops.Annotation.{pass}
use openmodelops.Judgeops.Rubric.{RubricDimension, Rubric, JudgeSample, JudgeResult}
use openmodelops.Judgeops.Ensemble.{
  EnsembleResult, JudgeProvider, EnsembleJudge, has_twin_judges, make_ensemble, median, spread,
  each, score_of, Tally, tally, no_tally, is_reached, verdict_of, Reporting, is_injected, conclude,
  evaluate_ensemble,
}
use openmodelops.Judgeops.Ensemble.Median.{IsMedian, median-IsMedian}
use openmodelops.Judgeops.Ensemble.Spread.{
  is_nan, lt_float_trans, lt_float_below, IsSpread, spread-IsSpread,
}

number_above : (a b : Float) → lt_float a b ≡ true → is_nan b ≡ false
number_above a b h = ground arith

module _ (results : List JudgeResult) (allowed : Float) where
  -- Every judge scored the dimension, and the scores are no further apart than is allowed.
  abbrev WithinSpread : RubricDimension → Type 0
  WithinSpread d =
      (xs : List Float) × (each (score_of d.name) results ≡ ok xs)
      × (lt_float allowed (spread xs) ≡ false)

  tally-WithinSpread :
      (ds : List RubricDimension) (t : Tally) {t' : Tally}
      → is_nan t.disagreement ≡ false
      → tally results ds t ≡ ok t'
      → lt_float allowed t'.disagreement ≡ false
      → All WithinSpread ds × (lt_float allowed t.disagreement ≡ false)
  unfolding tally
  tally-WithinSpread [] t {t'} n h a = (tt, ground arith)
  tally-WithinSpread (d ∷ ds) t {t'} n h a =
      let (xs, e, k) = >>=-eq-ok (each (score_of d.name) results) _ h in
      let s = spread xs in
      elim (Bool-cases (lt_float t.disagreement s)) [
        | inl b ↦
            let (rest, c) =
              tally-WithinSpread ds _ {t' = t'} (number_above t.disagreement s b) (rw b at k) a in
            (
              ((xs, e, c), rest),
              (elim (Bool-cases (lt_float allowed t.disagreement)) [
                | inl p ↦ absurd (false≢true (sym c ∙ lt_float_trans allowed t.disagreement s p b))
                | inr p ↦ p
              ]),
            )
        | inr b ↦
            let (rest, c) = tally-WithinSpread ds _ {t' = t'} n (rw b at k) a in
            (
              (
                (
                  xs,
                  e,
                  (elim (Bool-cases (lt_float allowed s)) [
                    | inl p ↦
                        absurd (false≢true (sym c ∙ lt_float_below allowed t.disagreement s n p b))
                    | inr p ↦ p
                  ]),
                ),
                rest,
              ),
              c,
            )
      ]

-- Every judge scored the dimension, and the greatest score is no further from the least than is
-- allowed.
abbrev pub IsClose : List JudgeResult → Float → RubricDimension → Type 0
IsClose results allowed d =
    (xs : List Float) × (s : Float) × (each (score_of d.name) results ≡ ok xs)
    × IsSpread xs s
    × (lt_float allowed s ≡ false)

ok_same {ℓ} : {A : Type ℓ} {a b : A} → ok a ≡ ok b → a ≡ b
ok_same h = cc

length-each :
    {A B : Type 0} (f : A → Result B) (xs : List A) {ys : List B}
    → each f xs ≡ ok ys
    → length ys ≡ length xs
unfolding each
length-each f [] {ys} h = ap length (sym (ok_same h))
length-each f (x ∷ xs) {ys} h =
    let (y, e, k) = >>=-eq-ok (f x) _ h in
    let (zs, g, l) = >>=-eq-ok (each f xs) _ k in
    ap length (sym (ok_same l)) ∙ ap suc (length-each f xs g)

module _ (results : List JudgeResult) where
  -- A score is the median of the judges' scores of its dimension.
  abbrev pub IsMedianScore : String → Float → Type 0
  IsMedianScore name x = (xs : List Float) × (each (score_of name) results ≡ ok xs) × IsMedian xs x

  -- The median of the judges' scores of a dimension reaches its threshold.
  abbrev pub IsReached : Dict String Float → RubricDimension → Type 0
  IsReached scores d =
      (x : Float) × (lookup d.name scores ≡ some x)
      × IsMedianScore d.name x
      × (le_float d.threshold x ≡ true)

  abbrev AreMedians : Dict String Float → Type 0
  AreMedians scores =
      (name : String) (x : Float) → lookup name scores ≡ some x → IsMedianScore name x

  insert-AreMedians :
      (some_result : 1 ≤ length results) (name : String) (xs : List Float)
      (scores : Dict String Float)
      → each (score_of name) results ≡ ok xs
      → AreMedians scores
      → AreMedians (insert name (median xs) scores)
  insert-AreMedians some_result name xs scores e h other x l =
      let m =
        median-IsMedian xs (omega (arith, length-each (score_of name) results e, some_result)) in
      elim (lookup-insert_inv name other (median xs) scores l) [
        | inr k ↦ h other x k
        | inl (same, value) ↦
            subst (λ n. IsMedianScore n x) same (subst (IsMedianScore name) value (xs, e, m))
      ]

  tally-AreMedians :
      (some_result : 1 ≤ length results) (ds : List RubricDimension) (t : Tally) {t' : Tally}
      → AreMedians t.scores
      → tally results ds t ≡ ok t'
      → AreMedians t'.scores
  unfolding tally
  tally-AreMedians some_result [] t {t'} h e =
      subst (λ (u : Tally). AreMedians u.scores) (ok_same e) h
  tally-AreMedians some_result (d ∷ ds) t {t'} h e =
      let (xs, f, k) = >>=-eq-ok (each (score_of d.name) results) _ e in
      tally-AreMedians some_result ds _ {t' = t'}
        (insert-AreMedians some_result d.name xs t.scores f h) k

  all-IsReached :
      (scores : Dict String Float) (ds : List RubricDimension)
      → AreMedians scores
      → all (is_reached scores) ds ≡ true
      → All (IsReached scores) ds
  unfolding all
  all-IsReached scores [] h e = tt
  all-IsReached scores (d ∷ ds) h e = elim (Option-cases (lookup d.name scores)) [
    | inl n ↦ absurd (ground (arith, n, e))
    | inr (x, l) ↦
        ((x, l, h d.name x l, ground (arith, l, e)), all-IsReached scores ds h (ground (arith, e)))
  ]

WithinSpread-IsClose :
    (results : List JudgeResult) (allowed : Float) (d : RubricDimension)
    → 1 ≤ length results
    → WithinSpread results allowed d
    → IsClose results allowed d
WithinSpread-IsClose results allowed d l (xs, e, h) =
    let scored : 1 ≤ length xs = omega (arith, l, length-each (score_of d.name) results e) in
    (xs, spread xs, e, spread-IsSpread xs scored, h)

made_some :
    (judges : List JudgeProvider) (allowed : Float) (ensemble : EnsembleJudge)
    → make_ensemble judges allowed ≡ ok ensemble
    → 1 ≤ length ensemble.judges
unfolding make_ensemble
made_some [] allowed ensemble h = absurd (ground arith)
made_some (j ∷ js) allowed ensemble h = elim (Bool-cases (has_twin_judges (j ∷ js))) [
  | inl t ↦ absurd (ground (arith, t, h))
  | inr f ↦
      subst (λ (e : EnsembleJudge). 1 ≤ length e.judges)
        {x = record { judges = j ∷ js; maximum_disagreement = allowed }} {y = ensemble}
        (ground (arith, f, h)) (omega arith)
]

verdict-passes :
    (i d u t : Bool)
    → (verdict_of i d u t).0 ≡ pass
    → (i ≡ false) × (d ≡ false) × (u ≡ false) × (t ≡ true)
verdict-passes i d u t h = ground arith

abbrev pub confidences : List JudgeResult → List Float
confidences results = map (λ (r : JudgeResult). r.confidence) results

length-confidences : (results : List JudgeResult) → length (confidences results) ≡ length results
length-confidences [] = refl
length-confidences (r ∷ results) = ap suc (length-confidences results)

module _ (reporting : Reporting) (ensemble : EnsembleJudge) (sample : JudgeSample)
    (rubric : Rubric) where
  -- The grounds of a passing verdict
  pub record Passed (x : EnsembleResult) : Type 0 where
    pub answers :
        each (λ (j : JudgeProvider). j.evaluate sample rubric) ensemble.judges ≡ ok x.judge_results
    pub untouched : any is_injected x.judge_results ≡ false
    pub close : All (IsClose x.judge_results ensemble.maximum_disagreement) rubric.dimensions
    pub middle_confidence : IsMedian (confidences x.judge_results) x.confidence
    pub confident : lt_float x.confidence rubric.minimum_confidence ≡ false
    pub reached : All (IsReached x.judge_results x.scores) rubric.dimensions

  concluded-Passed :
      (results : List JudgeResult) (t : Tally)
      → 1 ≤ length results
      → each (λ (j : JudgeProvider). j.evaluate sample rubric) ensemble.judges ≡ ok results
      → tally results rubric.dimensions no_tally ≡ ok t
      → (conclude reporting sample rubric ensemble.maximum_disagreement results t).verdict ≡ pass
      → Passed (conclude reporting sample rubric ensemble.maximum_disagreement results t)
  unfolding lookup
  concluded-Passed results t l a e h =
      let (i, d, u, r) =
        verdict-passes (any is_injected results)
          (lt_float ensemble.maximum_disagreement t.disagreement)
          (lt_float (median (confidences results)) rubric.minimum_confidence)
          (all (is_reached t.scores) rubric.dimensions) h in
      let medians =
        tally-AreMedians results l rubric.dimensions no_tally (λ name x k. absurd (ground arith))
          e in
      record {
        answers = a;
        untouched = i;
        close =
            All-map (λ d w. WithinSpread-IsClose results ensemble.maximum_disagreement d l w)
              rubric.dimensions
              (tally-WithinSpread results ensemble.maximum_disagreement rubric.dimensions no_tally
                refl e d).0;
        middle_confidence =
            median-IsMedian (confidences results) (omega (arith, l, length-confidences results));
        confident = u;
        reached = all-IsReached results t.scores rubric.dimensions medians r;
      }

  -- An ensemble passes a sample only if no judge's answer reports an injection, the greatest of the
  -- judges' scores of each dimension is no further from the least than the policy allows, the median
  -- of their confidences, which is the reported one, is not below the rubric's minimum, and for each
  -- dimension the median of their scores, which is the reported one, reaches its threshold. The median
  -- is the value in the middle of the values in ascending order, or half the sum of the two there.
  pub passing_verdict :
      (judges : List JudgeProvider) (allowed : Float) {x : EnsembleResult}
      → make_ensemble judges allowed ≡ ok ensemble
      → evaluate_ensemble reporting ensemble sample rubric ≡ ok x
      → x.verdict ≡ pass
      → Passed x
  unfolding evaluate_ensemble
  passing_verdict judges allowed {x} m h v =
      let (results, e, k) =
        >>=-eq-ok (each (λ (j : JudgeProvider). j.evaluate sample rubric) ensemble.judges) _ h in
      let (t, f, l) = >>=-eq-ok (tally results rubric.dimensions no_tally) _ k in
      let c = conclude reporting sample rubric ensemble.maximum_disagreement results t in
      let some_result : 1 ≤ length results = omega (
        arith,
        made_some judges allowed ensemble m,
        length-each (λ (j : JudgeProvider). j.evaluate sample rubric) ensemble.judges e,
      ) in
      subst (λ (y : EnsembleResult). y.verdict ≡ pass → Passed y) {x = c} {y = x} (ok_same l)
        (concluded-Passed results t some_result e f) v
