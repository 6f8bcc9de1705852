-- ===== src/Reviewer/Domain/Decision.antt =====
-- platforms/reviewer/domain.py: which review decides about a pull request.
use openmodelops.Base.{
  ◌≤◌, ◌<◌, String, ◌≡◌, refl, sym, subst, ◌⊎◌, inl, inr, Bool, true, false, ◌||◌, List, [], ◌∷◌,
  arith, eq_iff, ltb, Bool-cases, ◌==◌, eq_of_nat, eq_of_string, keep, All, All-map,
}
use openmodelops.Reviewer.Domain.{
  ready, ReviewSummary, PullRequestReview, latest_of, says, decide, decide_latest, decision,
}

abbrev pub In : ReviewSummary → List ReviewSummary → Type 0
In x [] = ⊥
In x (y ∷ ys) = (x ≡ y) ⊎ In x ys

-- No review of the list is newer than `x`.
abbrev pub NewestOf : ReviewSummary → List ReviewSummary → Type 0
NewestOf x rs = All (λ (s : ReviewSummary). s.review_id ≤ x.review_id) rs

latest_step :
    (b r : ReviewSummary) (rs : List ReviewSummary)
    → ((b.review_id < r.review_id) × (latest_of b (r ∷ rs) ≡ latest_of r rs))
      ⊎ ((r.review_id ≤ b.review_id) × (latest_of b (r ∷ rs) ≡ latest_of b rs))
unfolding latest_of
latest_step b r rs = elim (Bool-cases (ltb b.review_id r.review_id)) [
  | inl e ↦ inl (ground arith, rw (latest_of, e) refl)
  | inr e ↦ inr (ground arith, rw (latest_of, e) refl)
]

latest-In : (b : ReviewSummary) (rs : List ReviewSummary) → In (latest_of b rs) (b ∷ rs)
unfolding latest_of
latest-In b [] = inl refl
latest-In b (r ∷ rs) = elim (latest_step b r rs) [
  | inl (h, e) ↦ subst (λ x. In x (b ∷ r ∷ rs)) (sym e) (inr (latest-In r rs))
  | inr (h, e) ↦
      subst (λ x. In x (b ∷ r ∷ rs)) (sym e)
        (elim (latest-In b rs) [ inl p ↦ inl p | inr q ↦ inr (inr q) ])
]

latest-NewestOf : (b : ReviewSummary) (rs : List ReviewSummary) → NewestOf (latest_of b rs) (b ∷ rs)
unfolding latest_of
latest-NewestOf b [] = (omega arith, tt)
latest-NewestOf b (r ∷ rs) = elim (latest_step b r rs) [
  | inl (h, e) ↦
      subst (λ x. NewestOf x (b ∷ r ∷ rs)) (sym e)
        (ground (arith, (latest-NewestOf r rs).0), latest-NewestOf r rs)
  | inr (h, e) ↦
      subst (λ x. NewestOf x (b ∷ r ∷ rs)) (sym e)
        (
          (latest-NewestOf b rs).0,
          (ground (arith, (latest-NewestOf b rs).0), (latest-NewestOf b rs).1),
        )
]

keep-true :
    (p : ReviewSummary → Bool) (r : ReviewSummary) (rs : List ReviewSummary)
    → p r ≡ true
    → keep p (r ∷ rs) ≡ r ∷ keep p rs
unfolding keep
keep-true p r rs e = rw (keep, e) refl

keep-false :
    (p : ReviewSummary → Bool) (r : ReviewSummary) (rs : List ReviewSummary)
    → p r ≡ false
    → keep p (r ∷ rs) ≡ keep p rs
unfolding keep
keep-false p r rs e = rw (keep, e) refl

In-keep :
    (p : ReviewSummary → Bool) (x : ReviewSummary) (rs : List ReviewSummary)
    → In x (keep p rs)
    → (p x ≡ true) × In x rs
unfolding keep
In-keep p x [] h = absurd h
In-keep p x (r ∷ rs) h = elim (Bool-cases (p r)) [
  | inl e ↦
      let k : In x (r ∷ keep p rs) = subst (In x) (keep-true p r rs e) h in
      elim k [
        | inl q ↦ (subst (λ y. p y ≡ true) (sym q) e, inl q)
        | inr q ↦ ((In-keep p x rs q).0, inr (In-keep p x rs q).1)
      ]
  | inr e ↦ let q = In-keep p x rs (subst (In x) (keep-false p r rs e) h) in (q.0, inr q.1)
]

All-unkeep :
    (P : ReviewSummary → Type 0) (p : ReviewSummary → Bool) (rs : List ReviewSummary)
    → All P (keep p rs)
    → All (λ x. p x ≡ true → P x) rs
unfolding keep
All-unkeep P p [] h = tt
All-unkeep P p (r ∷ rs) h = elim (Bool-cases (p r)) [
  | inl e ↦
      let k : All P (r ∷ keep p rs) = subst (All P) (keep-true p r rs e) h in
      (λ t. k.0, All-unkeep P p rs k.1)
  | inr e ↦ (λ t. absurd (ground arith), All-unkeep P p rs (subst (All P) (keep-false p r rs e) h))
]

-- The configured reviewer's newest review, which approves or comments
pub record Decisive (login : String) (rs : List ReviewSummary) (x : ReviewSummary) : Type 0 where
  pub fetched : In x rs
  pub by_reviewer : x.reviewer ≡ login
  pub newest : All (λ (s : ReviewSummary). s.reviewer ≡ login → s.review_id ≤ x.review_id) rs
  pub positive : (says "APPROVED" x || says "COMMENTED" x) ≡ true

decide-ready :
    (request_changes : Bool) (x : ReviewSummary)
    → decide request_changes x ≡ ready
    → (says "APPROVED" x || says "COMMENTED" x) ≡ true
decide-ready request_changes x h = ground arith

latest-Decisive :
    (login : String) (request_changes : Bool) (rs kept : List ReviewSummary)
    → kept ≡ keep (λ (s : ReviewSummary). s.reviewer == login) rs
    → decide_latest request_changes kept ≡ ready
    → (x : ReviewSummary) × Decisive login rs x
latest-Decisive login request_changes rs [] k h = absurd (ground arith)
latest-Decisive login request_changes rs (b ∷ bs) k h =
    let x = latest_of b bs in
    let by : ReviewSummary → Bool = λ (s : ReviewSummary). s.reviewer == login in
    let (p, i) = In-keep by x rs (subst (In x) k (latest-In b bs)) in
    (
      x,
      record {
        fetched = i;
        by_reviewer = (eq_iff x.reviewer login).0 p;
        newest =
            All-map {Q = λ (s : ReviewSummary). s.reviewer ≡ login → s.review_id ≤ x.review_id}
              (λ (s : ReviewSummary) f e. f ((eq_iff s.reviewer login).1 e)) rs
              (All-unkeep (λ (s : ReviewSummary). s.review_id ≤ x.review_id) by rs
                (subst (NewestOf x) k (latest-NewestOf b bs)));
        positive = decide-ready request_changes x h;
      },
    )

-- A pull request is ready only if it was eligible when it was opened, and the newest of the configured
-- reviewer's reviews approves it or comments on it.
pub ready_by_newest :
    (login : String) (request_changes : Bool) (r : PullRequestReview)
    → decision login request_changes r ≡ ready
    → (r.eligible_at_open ≡ true) × ((x : ReviewSummary) × Decisive login r.summaries x)
unfolding decision
ready_by_newest login request_changes r h = elim (Bool-cases r.eligible_at_open) [
  | inr e ↦ absurd (ground arith)
  | inl e ↦ (e, latest-Decisive login request_changes r.summaries _ refl (ground arith))
]
