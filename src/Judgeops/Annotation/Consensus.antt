-- ===== src/Judgeops/Annotation/Consensus.antt =====
-- platforms/judgeops/annotation.py: a consensus takes two people.
use openmodelops.Base.{
  ℕ, ◌≤◌, String, ◌≡◌, refl, sym, ◌∙◌, ◌≢◌, inl, inr, true, false, List, [], ◌∷◌, arith, eq_iff,
  nat_eq, Bool-cases, ◌==◌, eq_of_nat, eq_of_string, length, any, All, All-keep, All-every, All-map,
  ok, is_ok,
}
use openmodelops.Judgeops.Annotation.Rows.{
  IsLedger, any-last, label-IsLedger, keep-IsLedger, order-IsLedger, order-All,
}
use openmodelops.Judgeops.Annotation.{
  Verdict, Annotation, AnnotationLedger, is_review, has_key_of, label, labels_of, verdict_rank,
  verdicts_of, status_of, status,
}

rank-injective : (v w : Verdict) → verdict_rank v ≡ verdict_rank w → v ≡ w
rank-injective v w h = ground arith

verdicts-nil : (xs : List Annotation) → verdicts_of xs ≡ [] → xs ≡ []
unfolding verdicts_of any
verdicts-nil [] h = refl
verdicts-nil (a ∷ xs) h = ground arith

verdicts-same :
    (xs : List Annotation) (v : Verdict) → verdicts_of xs ≡ v ∷ [] → All (λ a. a.verdict ≡ v) xs
unfolding verdicts_of any
verdicts-same [] v = λ h. tt
verdicts-same (a ∷ xs) v =
    elim (Bool-cases
      (any (λ w. nat_eq (verdict_rank w) (verdict_rank a.verdict)) (verdicts_of xs))) [
        | inl t ↦ rw t (λ h. (rank-injective a.verdict v (ground (arith, h)), verdicts-same xs v h))
        | inr t ↦ rw t (λ h. (ground arith, rw (verdicts-nil xs (ground arith)) tt))
      ]

-- The calls of `label` that a ledger has had; one that raises is caught.
unfoldable pub label_all :
    List (String × String × Verdict × String) → AnnotationLedger → AnnotationLedger
label_all [] ledger = ledger
label_all ((sample_id, reviewer, verdict, rationale) ∷ calls) ledger =
    label_all calls (label sample_id reviewer verdict rationale ledger).1

label_all-IsLedger :
    (calls : List (String × String × Verdict × String)) (xs : AnnotationLedger)
    → IsLedger xs
    → IsLedger (label_all calls xs)
unfolding label_all
label_all-IsLedger [] xs h = h
label_all-IsLedger ((sample_id, reviewer, verdict, rationale) ∷ calls) xs h =
    label_all-IsLedger calls _ (label-IsLedger sample_id reviewer verdict rationale xs h)

-- Two people: the labels begin with those of two reviewers, and all have one verdict, which is no
-- open one.
abbrev pub TwoPeople : List Annotation → Type 0
TwoPeople [] = ⊥
TwoPeople (a ∷ []) = ⊥
TwoPeople (a ∷ b ∷ xs) =
    (a.reviewer ≢ b.reviewer)
    × (is_review a.verdict ≡ false)
    × All (λ c. c.verdict ≡ a.verdict) (b ∷ xs)

consensus_counts : (n m : ℕ) → status_of n m ≡ "consensus" → (2 ≤ n) × (m ≡ 1)
consensus_counts n m h = ground (arith, eq_iff "conflict" "consensus", eq_iff "pending" "consensus")

one_verdict : (vs : List Verdict) → length vs ≡ 1 → (v : Verdict) × (vs ≡ v ∷ [])
one_verdict [] h = ground arith
one_verdict (v ∷ []) h = (v, refl)
one_verdict (v ∷ w ∷ vs) h = ground arith

labels-TwoPeople :
    (sample_id : String) (xs : List Annotation)
    → IsLedger xs
    → All (λ a. a.sample_id ≡ sample_id) xs
    → status_of (length xs) (length (verdicts_of xs)) ≡ "consensus"
    → TwoPeople xs
unfolding any
labels-TwoPeople sample_id [] l s h = ground (arith, consensus_counts 0 (length (verdicts_of [])) h)
labels-TwoPeople sample_id (a ∷ []) l s h =
    ground (arith, consensus_counts 1 (length (verdicts_of (a ∷ []))) h)
labels-TwoPeople sample_id (a ∷ b ∷ xs) (k, r, l) s h =
    let (v, e) = one_verdict (verdicts_of (a ∷ b ∷ xs)) (consensus_counts _ _ h).1 in
    let same = verdicts-same (a ∷ b ∷ xs) v e in
    (
      ground (arith, eq_iff b.sample_id a.sample_id, eq_iff b.reviewer a.reviewer, s.0, s.1.0),
      r,
      All-map (λ c q. q ∙ sym same.0) (b ∷ xs) same.1,
    )

-- Whatever labels reviewers tried to give, a sample is in consensus only if two different people
-- labelled it, and everybody who did gave one verdict, pass or fail.
pub consensus-TwoPeople :
    (calls : List (String × String × Verdict × String)) (sample_id : String)
    → let state = status sample_id (label_all calls []) in
      state.status ≡ "consensus" → TwoPeople state.labels
unfolding status labels_of
consensus-TwoPeople calls sample_id h =
    let ledger = label_all calls [] in
    let l = label_all-IsLedger calls [] tt in
    labels-TwoPeople sample_id (labels_of sample_id ledger)
      (order-IsLedger _ (keep-IsLedger (λ a. a.sample_id == sample_id) ledger l))
      (order-All (λ a. a.sample_id ≡ sample_id) _
        (All-keep (λ a. a.sample_id ≡ sample_id) (λ a. a.sample_id == sample_id) ledger
          (All-every _ (λ a e. ground (arith, eq_iff a.sample_id sample_id)) ledger)))
      h

labelled :
    (sample_id reviewer : String) (verdict : Verdict) (rationale : String)
    (ledger : AnnotationLedger)
    → (label sample_id reviewer verdict rationale ledger).0 ≡ ok tt
    → any (has_key_of sample_id reviewer) (label sample_id reviewer verdict rationale ledger).1
      ≡ true
unfolding label
labelled sample_id reviewer verdict rationale ledger h = ground (
  arith,
  any-last (has_key_of sample_id reviewer) ledger (record {
    sample_id = sample_id;
    reviewer = reviewer;
    verdict = verdict;
    rationale = rationale;
  }),
  eq_iff sample_id sample_id,
  eq_iff reviewer reviewer,
)

known_label :
    (sample_id reviewer : String) (verdict : Verdict) (rationale : String)
    (ledger : AnnotationLedger)
    → any (has_key_of sample_id reviewer) ledger ≡ true
    → (is_ok (label sample_id reviewer verdict rationale ledger).0 ≡ false)
      × ((label sample_id reviewer verdict rationale ledger).1 ≡ ledger)
unfolding label
known_label sample_id reviewer verdict rationale ledger k = ground arith

-- A reviewer's label of a sample is final: once it is given, another call for the same sample and
-- reviewer fails and changes nothing, whatever it says.
pub label_final :
    (sample_id reviewer : String) (verdict verdict' : Verdict) (rationale rationale' : String)
    (ledger : AnnotationLedger)
    → (label sample_id reviewer verdict rationale ledger).0 ≡ ok tt
    → let after = (label sample_id reviewer verdict rationale ledger).1 in
      (is_ok (label sample_id reviewer verdict' rationale' after).0 ≡ false)
      × ((label sample_id reviewer verdict' rationale' after).1 ≡ after)
label_final sample_id reviewer verdict verdict' rationale rationale' ledger h =
    known_label sample_id reviewer verdict' rationale' _
      (labelled sample_id reviewer verdict rationale ledger h)
