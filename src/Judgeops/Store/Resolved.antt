-- ===== src/Judgeops/Store/Resolved.antt =====
-- platforms/judgeops/store.py: a review is resolved once, by a named reviewer.
use openmodelops.Base.{
  ◌≤◌, String, ◌≡◌, refl, sym, ap, subst, ◌⊎◌, inl, inr, Bool, true, false, ◌||◌, Option, some,
  List, [], ◌∷◌, ◌++◌, arith, eq_iff, nat_eq, Bool-cases, eq_of_nat, eq_of_string, any, is_blank,
  ok,
}
use openmodelops.Judgeops.Annotation.{Verdict, is_review}
use openmodelops.Judgeops.Ensemble.{EnsembleResult}
use openmodelops.Judgeops.Store.{
  Resolution, Review, JudgeStore, is_queued, has_first, has_evaluation, record_result, is_pending,
  resolve_rows, count_pending, resolve,
}

pub data Step : Type 0 where
  recording : String → String → EnsembleResult → Option Bool → Step
  resolving : String → String → String → Verdict → String → Step

abbrev pub run_step : Step → JudgeStore → JudgeStore
run_step (recording uuid now result queue_review) store =
    (record_result uuid now result queue_review store).1
run_step (resolving now id reviewer verdict reason) store =
    (resolve now id reviewer verdict reason store).1

-- The calls of the store, one after the other
unfoldable pub run_steps : List Step → JudgeStore → JudgeStore
run_steps [] store = store
run_steps (s ∷ ss) store = run_steps ss (run_step s store)

-- The row stands in the table.
abbrev pub InTable : Review → List Review → Type 0
InTable r [] = ⊥
InTable r (x ∷ xs) = (r ≡ x) ⊎ InTable r xs

InTable-append : (r : Review) (xs ys : List Review) → InTable r xs → InTable r (xs ++ ys)
InTable-append r [] ys h = absurd h
InTable-append r (x ∷ xs) ys h = elim h [ inl e ↦ inl e | inr i ↦ inr (InTable-append r xs ys i) ]

settled-apart :
    (id : String) (r : Review) (x : Resolution) → r.resolution ≡ some x → is_pending id r ≡ false
settled-apart id r x e = ground arith

-- A row that is resolved is not touched by a resolution.
resolve_rows-InTable :
    (id : String) (x : Resolution) (r : Review) (y : Resolution) (rs : List Review)
    → r.resolution ≡ some y
    → InTable r rs
    → InTable r (resolve_rows id x rs)
unfolding resolve_rows
resolve_rows-InTable id x r y [] e h = absurd h
resolve_rows-InTable id x r y (s ∷ rs) e h = elim (Bool-cases (is_pending id s)) [
  | inl b ↦ rw b (elim h [
    | inl q ↦
        absurd
          (ground (arith, settled-apart id r y e, subst (λ z. is_pending id z ≡ true) (sym q) b))
    | inr i ↦ inr (resolve_rows-InTable id x r y rs e i)
  ])
  | inr b ↦ rw b (elim h [ inl q ↦ inl q | inr i ↦ inr (resolve_rows-InTable id x r y rs e i) ])
]

-- What a resolution leaves, which `resolve` accepted
resolved_rows :
    (id : String) (x : Resolution) (rs : List Review)
    → 1 ≤ count_pending id rs
    → InTable (record { evaluation_id = id; resolution = some x }) (resolve_rows id x rs)
unfolding resolve_rows count_pending
resolved_rows id x [] h = ground arith
resolved_rows id x (r ∷ rs) h = elim (Bool-cases (is_pending id r)) [
  | inl b ↦ rw b (
      inl (
        ap (λ (i : String). record { evaluation_id = i; resolution = some x }) {x = id}
          {y = r.evaluation_id} (ground (arith, eq_iff r.evaluation_id id))))
  | inr b ↦ rw b (inr (resolved_rows id x rs (ground arith)))
]

recorded-InTable :
    (uuid now : String) (result : EnsembleResult) (queue_review : Option Bool) (store : JudgeStore)
    (r : Review)
    → InTable r store.reviews
    → InTable r (record_result uuid now result queue_review store).1.reviews
unfolding record_result
recorded-InTable uuid now result queue_review store r h =
    elim (Bool-cases (has_first result.judge_results)) [
      | inr a ↦ rw (record_result, a) h
      | inl a ↦ elim (Bool-cases (any (has_evaluation uuid) store.evaluations)) [
        | inl b ↦ rw (record_result, a, b) h
        | inr b ↦ elim (Bool-cases (is_queued queue_review result)) [
          | inl c ↦ rw (record_result, a, b, c) (InTable-append r store.reviews _ h)
          | inr c ↦ rw (record_result, a, b, c) h
        ]
      ]
    ]

resolve-InTable :
    (now id reviewer : String) (verdict : Verdict) (reason : String) (store : JudgeStore)
    (r : Review) (y : Resolution)
    → r.resolution ≡ some y
    → InTable r store.reviews
    → InTable r (resolve now id reviewer verdict reason store).1.reviews
unfolding resolve
resolve-InTable now id reviewer verdict reason store r y e h =
    elim (Bool-cases (is_review verdict)) [
      | inl a ↦ rw (resolve, a) h
      | inr a ↦ elim (Bool-cases (is_blank reviewer || is_blank reason)) [
        | inl b ↦ rw (resolve, a, b) h
        | inr b ↦ elim (Bool-cases (nat_eq (count_pending id store.reviews) 1)) [
          | inr c ↦ rw (resolve, a, b, c) h
          | inl c ↦ rw (resolve, a, b, c) (resolve_rows-InTable id _ r y store.reviews e h)
        ]
      ]
    ]

step-InTable :
    (s : Step) (store : JudgeStore) (r : Review) (y : Resolution)
    → r.resolution ≡ some y
    → InTable r store.reviews
    → InTable r (run_step s store).reviews
unfolding record_result resolve
step-InTable (recording uuid now result queue_review) store r y e h =
    recorded-InTable uuid now result queue_review store r h
step-InTable (resolving now id reviewer verdict reason) store r y e h =
    resolve-InTable now id reviewer verdict reason store r y e h

steps-InTable :
    (ss : List Step) (store : JudgeStore) (r : Review) (y : Resolution)
    → r.resolution ≡ some y
    → InTable r store.reviews
    → InTable r (run_steps ss store).reviews
unfolding run_steps
steps-InTable [] store r y e h = h
steps-InTable (s ∷ ss) store r y e h =
    steps-InTable ss (run_step s store) r y e (step-InTable s store r y e h)

-- A review that `resolve` accepted has a verdict of pass or fail, a reviewer and a reason that are not
-- blank, and was pending; and whatever calls of the store follow, its row stays in the table with
-- just that resolution.
pub resolved_final :
    (now id reviewer : String) (verdict : Verdict) (reason : String) (store : JudgeStore)
    (later : List Step) {x : Resolution}
    → (resolve now id reviewer verdict reason store).0 ≡ ok x
    → (is_review x.human_verdict ≡ false)
      × (is_blank x.reviewer ≡ false)
      × (is_blank x.reason ≡ false)
      × (count_pending id store.reviews ≡ 1)
      × InTable
          (record { evaluation_id = id; resolution = some x })
          (run_steps later (resolve now id reviewer verdict reason store).1).reviews
unfolding resolve
resolved_final now id reviewer verdict reason store later {x} h =
    let y : Resolution = record {
      human_verdict = verdict;
      reviewer = reviewer;
      reason = reason;
      resolved_at = now;
    } in
    elim (Bool-cases (is_review verdict)) [
      | inl a ↦ absurd (ground arith)
      | inr a ↦ elim (Bool-cases (is_blank reviewer || is_blank reason)) [
        | inl b ↦ absurd (ground arith)
        | inr b ↦ elim (Bool-cases (nat_eq (count_pending id store.reviews) 1)) [
          | inr c ↦ absurd (ground arith)
          | inl c ↦
              subst
                (λ (w : Resolution).
                  (is_review w.human_verdict ≡ false)
                  × (is_blank w.reviewer ≡ false)
                  × (is_blank w.reason ≡ false)
                  × (count_pending id store.reviews ≡ 1)
                  × InTable (record { evaluation_id = id; resolution = some w })
                      (run_steps later (resolve now id reviewer verdict reason store).1).reviews)
                {x = y} {y = x} (ground arith)
                (
                  a,
                  ground arith,
                  ground arith,
                  ground arith,
                  steps-InTable later _ _ y refl
                      (rw (resolve, a, b, c) (resolved_rows id y store.reviews (ground arith))),
                )
        ]
      ]
    ]
