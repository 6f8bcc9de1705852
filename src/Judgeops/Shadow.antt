-- ===== src/Judgeops/Shadow.antt =====
-- platforms/judgeops/shadow.py: a candidate ensemble beside the active one.
use openmodelops.Base.{
  ℕ, suc, String, ◌≡◌, refl, sym, ap, ◌∙◌, inl, inr, Bool, false, Option, none, some, List, [], ◌∷◌,
  map, nat_eq, if◌then◌else◌, Bool-cases, eq_of_nat, eq_of_string, length, Error, value_error,
  Result, ok, err, ◌>>=◌, Result-cases,
}
use openmodelops.Base.Floats.{Float, fin, ℤ}
use openmodelops.Judgeops.Annotation.{Verdict, pass, fail, review, verdict_rank}
use openmodelops.Judgeops.Rubric.{Rubric, JudgeSample}
use openmodelops.Judgeops.Ensemble.{EnsembleResult}

pub record ShadowComparison : Type 0 where
  pub sample_id : String
  pub active_verdict : String
  pub candidate_verdict : String
  pub agreed : Bool
  pub candidate_confidence : Float
  pub candidate_error : Option Error

-- `verdict.value`
abbrev pub verdict_value : Verdict → String
verdict_value pass = "pass"
verdict_value fail = "fail"
verdict_value review = "human_review"

-- `EnsembleJudge.evaluate` of either ensemble
abbrev pub Evaluator : Type 0
Evaluator = JudgeSample → Rubric → Result EnsembleResult

abbrev pub compare_with : String → EnsembleResult → Result EnsembleResult → ShadowComparison
compare_with sample_id active (ok candidate) = record {
  sample_id = sample_id;
  active_verdict = verdict_value active.verdict;
  candidate_verdict = verdict_value candidate.verdict;
  agreed = nat_eq (verdict_rank active.verdict) (verdict_rank candidate.verdict);
  candidate_confidence = candidate.confidence;
  candidate_error = none;
}
compare_with sample_id active (err e) = record {
  sample_id = sample_id;
  active_verdict = verdict_value active.verdict;
  candidate_verdict = "provider_error";
  agreed = false;
  candidate_confidence = fin (ℤ.pos 0);
  candidate_error = some e;
}

-- The loop over the samples: the active ensemble's exception ends it, the candidate's is noted.
unfoldable pub compare_all :
    Evaluator → Evaluator → Rubric → List JudgeSample → Result (List ShadowComparison)
compare_all active candidate rubric [] = ok []
compare_all active candidate rubric (s ∷ ss) = active s rubric >>= λ result.
    compare_all active candidate rubric ss >>= λ rest.
    ok (compare_with s.sample_id result (candidate s rubric) ∷ rest)

-- `sum(item.agreed for item in comparisons)`
unfoldable pub count_agreed : List ShadowComparison → ℕ
count_agreed [] = 0
count_agreed (c ∷ cs) = let rest = count_agreed cs in if c.agreed then suc rest else rest

pub record ShadowReport : Type 0 where
  pub comparisons : List ShadowComparison
  -- the rate as a fraction, which the code divides and rounds to six places
  pub agreed : ℕ
  pub compared : ℕ

unfoldable pub run_shadow : Evaluator → Evaluator → List JudgeSample → Rubric → Result ShadowReport
unfolding compare_all count_agreed
run_shadow active candidate samples rubric =
    if nat_eq (length samples) 0
    then err (value_error "shadow evaluation requires samples")
    else compare_all active candidate rubric samples >>= λ comparisons. ok (record {
      comparisons = comparisons;
      agreed = count_agreed comparisons;
      compared = length comparisons;
    })

abbrev pub active_verdicts : List ShadowComparison → List String
active_verdicts cs = map (λ (c : ShadowComparison). c.active_verdict) cs

-- What the caller learns of the active ensemble, its exception included
abbrev pub active_only : Result (List ShadowComparison) → Result (List String)
active_only (ok cs) = ok (active_verdicts cs)
active_only (err e) = err e

abbrev before_all : String → Result (List String) → Result (List String)
before_all v (ok vs) = ok (v ∷ vs)
before_all v (err e) = err e

one_more :
    (id : String) (r : EnsembleResult) (u : Result EnsembleResult)
    (x : Result (List ShadowComparison))
    → active_only (x >>= λ rest. ok (compare_with id r u ∷ rest))
      ≡ before_all (verdict_value r.verdict) (active_only x)
one_more id r u (err e) = refl
one_more id r (ok c) (ok cs) = refl
one_more id r (err e) (ok cs) = refl

compare_all-active :
    (active c d : Evaluator) (rubric : Rubric) (ss : List JudgeSample)
    → active_only (compare_all active c rubric ss) ≡ active_only (compare_all active d rubric ss)
unfolding compare_all
compare_all-active active c d rubric [] = refl
compare_all-active active c d rubric (s ∷ ss) = elim (Result-cases (active s rubric)) [
  | inr (e, k) ↦ rw (compare_all, k) refl
  | inl (r, k) ↦
      rw (compare_all, k)
        (one_more s.sample_id r (c s rubric) (compare_all active c rubric ss)
          ∙ ap (before_all (verdict_value r.verdict)) (compare_all-active active c d rubric ss)
          ∙ sym (one_more s.sample_id r (d s rubric) (compare_all active d rubric ss)))
]

abbrev pub report_active : Result ShadowReport → Result (List String)
report_active (ok x) = ok (active_verdicts x.comparisons)
report_active (err e) = err e

report_of : (x : Result (List ShadowComparison)) → Result ShadowReport
unfolding count_agreed
report_of x = x >>= λ comparisons. ok (record {
  comparisons = comparisons;
  agreed = count_agreed comparisons;
  compared = length comparisons;
})

report_of-active :
    (x : Result (List ShadowComparison)) → report_active (report_of x) ≡ active_only x
unfolding report_of
report_of-active (ok cs) = refl
report_of-active (err e) = refl

-- A shadow run tells the same of the active ensemble whichever candidate runs beside it, one that fails
-- on every sample included: the same verdicts in the same order, or the same exception.
pub shadow_apart :
    (active c d : Evaluator) (samples : List JudgeSample) (rubric : Rubric)
    → report_active (run_shadow active c samples rubric)
      ≡ report_active (run_shadow active d samples rubric)
unfolding run_shadow report_of
shadow_apart active c d samples rubric = elim (Bool-cases (nat_eq (length samples) 0)) [
  | inl e ↦ rw (run_shadow, e) refl
  | inr e ↦
      rw (run_shadow, e)
        (report_of-active (compare_all active c rubric samples)
          ∙ compare_all-active active c d rubric samples
          ∙ sym (report_of-active (compare_all active d rubric samples)))
]
