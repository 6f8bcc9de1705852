-- ===== src/Mlops/Domain/Invariant.antt =====
-- What holds of every run that the methods of `ModelRun` make.
use openmodelops.Base.{
  ℕ, ◌≤◌, ◌<◌, String, ◌≡◌, refl, ap, ◌∙◌, ◌≢◌, ◌⊎◌, inl, inr, Bool, true, not, ◌&&◌, ◌||◌, Option,
  none, some, List, [], ◌∷◌, ◌++◌, arith, str_eq, starts_with, eq_iff, if◌then◌else◌, Bool-cases,
  eq_of_nat, eq_of_string, length, any, any-append, is_blank, Result, ok, err, Result-cases,
}
use openmodelops.Base.Dict.{Dict}
use openmodelops.Base.Floats.{Float}
use openmodelops.Base.Audit.{Entry, Chain, Chain-append, length-audit}
use openmodelops.Mlops.Domain.{
  RunState, created, rejected, approved, deploying, canary, production, rolled_back, retired, value,
  rank, EvaluationPolicy, ModelRun, new_run, move, is_approved, transition, record_evaluation,
  is_evaluating, after,
}
use openmodelops.Mlops.Domain.Lifecycle.{
  ◌⟶◌, train, score, fail, pass, accept, refuse, MayEnter, transition_refused, transition_moves,
  transition_exact,
}

-- The approver is another than the owner, and the history has the approval, with its reason.
abbrev pub is_approval : String → Entry → Bool
is_approval a e = str_eq e.to "approved" && (str_eq e.actor a && not (is_blank e.reason))

abbrev pub WellApproved : Option String → String → List Entry → Type 0
WellApproved none owner history = ⊥
WellApproved (some a) owner history = (a ≢ owner) × (any (is_approval a) history ≡ true)

-- The states that lie behind an approval.
abbrev pub BehindApproval : RunState → Type 0
BehindApproval approved = Unit
BehindApproval deploying = Unit
BehindApproval canary = Unit
BehindApproval production = Unit
BehindApproval rolled_back = Unit
BehindApproval retired = Unit
BehindApproval _ = ⊥

-- The longest way to a state.
abbrev pub depth : RunState → ℕ
depth rejected = 4
depth s = rank s

depth-le : (s : RunState) → depth s ≤ 9
depth-le created = omega arith
depth-le _ = omega arith

pub record Inv (run : ModelRun) : Type 0 where
  pub reviewed : BehindApproval run.state → WellApproved run.approver run.owner run.history
  pub chained : Chain "created" run.history (value run.state)
  pub bounded : length run.history ≤ depth run.state

pub new_run-Inv : (i m d c o : String) → Inv (new_run i m d c o)
unfolding value
new_run-Inv i m d c o = record { reviewed = λ h. absurd h; chained = refl; bounded = omega arith }

WellApproved-append :
    (a : Option String) (o : String) (es : List Entry) (e : Entry)
    → WellApproved a o es
    → WellApproved a o (es ++ e ∷ [])
WellApproved-append (some a) o es e h =
    (h.0, any-append (is_approval a) es (e ∷ []) ∙ ap (λ b. b || any (is_approval a) (e ∷ [])) h.1)
WellApproved-append none o es e h = h

-- Behind an approval there is no edge from before it but the approval itself.
⟶-BehindApproval : {s t : RunState} → s ⟶ t → BehindApproval t → (BehindApproval s) ⊎ (t ≡ approved)
⟶-BehindApproval accept b = inr refl
⟶-BehindApproval train b = absurd b
⟶-BehindApproval score b = absurd b
⟶-BehindApproval fail b = absurd b
⟶-BehindApproval pass b = absurd b
⟶-BehindApproval refuse b = absurd b
⟶-BehindApproval _ b = inl tt

⟶-depth : {s t : RunState} → s ⟶ t → depth s < depth t
⟶-depth train = omega arith
⟶-depth _ = omega arith

module _ (now : String) (target : RunState) (actor reason : String) (run : ModelRun) where
  move_chained :
      Chain "created" run.history (value run.state)
      → Chain "created" (move now target actor reason run).history (value target)
  move_chained h = Chain-append "created" (value run.state) run.history _ h refl

  move_bounded :
      run.state ⟶ target
      → length run.history ≤ depth run.state
      → length (move now target actor reason run).history ≤ depth target
  move_bounded e h = omega (arith, ⟶-depth e, length-audit run.history _)

move-approved :
    (now actor reason : String) (run : ModelRun)
    → MayEnter approved run.owner actor reason
    → WellApproved
        (some actor)
        run.owner
        (move now approved actor reason (record run { approver = some actor })).history
unfolding any value
move-approved now actor reason run m = (
  m.0,
  ground (
    arith,
    any-append (is_approval actor) run.history (
        (record {
          from = value run.state;
          to = value approved;
          actor = actor;
          reason = reason;
          at = now;
        })
        ∷ []),
    eq_iff actor actor,
  ),
)

-- One accepted move along an edge.
step-Inv :
    (now : String) (target : RunState) (actor reason : String) (run : ModelRun)
    → run.state ⟶ target
    → MayEnter target run.owner actor reason
    → Inv run
    → Inv (
        move now target actor reason
          (if is_approved target then record run { approver = some actor } else run))
step-Inv now approved actor reason run e m h = record {
  reviewed = λ _. move-approved now actor reason run m;
  chained = move_chained now approved actor reason (record run { approver = some actor }) h.chained;
  bounded =
      move_bounded now approved actor reason (record run { approver = some actor }) e h.bounded;
}
step-Inv now target actor reason run e m h = record {
  reviewed = λ b. elim (⟶-BehindApproval e b) [
    | inl c ↦ WellApproved-append run.approver run.owner run.history _ (h.reviewed c)
    | inr p ↦ cc
  ];
  chained = move_chained now _ actor reason run h.chained;
  bounded = move_bounded now _ actor reason run e h.bounded;
}

pub transition-Inv :
    (now : String) (target : RunState) (actor reason : String) (run : ModelRun)
    → Inv run
    → Inv (transition now target actor reason run).1
transition-Inv now target actor reason run h =
    elim (Result-cases (transition now target actor reason run).0) [
      | inl (u, e) ↦
          let (edge, may) = (transition_exact now target actor reason run).0 e in
          rw (transition_moves now target actor reason run e)
            (step-Inv now target actor reason run edge may h)
      | inr (x, e) ↦ rw (transition_refused now target actor reason run e) h
    ]

-- Writing the results of an evaluation touches nothing that the invariant reads.
with_results-Inv :
    (metrics : Dict String Float) (digest : Option String) (run : ModelRun)
    → Inv run
    → Inv (record run { metrics = metrics; artifact_digest = digest })
with_results-Inv metrics digest run h = record {
  reviewed = h.reviewed;
  chained = h.chained;
  bounded = h.bounded;
}

after-run : (passed : Bool) (r : Result (Unit {0}) × ModelRun) → (after passed r).1 ≡ r.1
after-run passed (ok u, run) = refl
after-run passed (err e, run) = refl

module _ (repr : Float → String) (now : String) (metrics : Dict String Float)
    (digest : String) where
  pub record_evaluation-Inv :
      (policy : EvaluationPolicy) (actor : String) (run : ModelRun)
      → Inv run
      → Inv (record_evaluation repr now metrics digest policy actor run).1
  unfolding record_evaluation
  record_evaluation-Inv policy actor run h = elim (Bool-cases (is_evaluating run.state)) [
    | inl e ↦ rw e (elim (Bool-cases (starts_with digest "sha256:")) [
      | inl d ↦ rw d (
          rw after-run
            (transition-Inv now _ actor _ _ (with_results-Inv metrics (some digest) run h)))
      | inr d ↦ rw d h
    ])
    | inr e ↦ rw e h
  ]

-- The runs that the two methods can make of a new one, whatever the callers give.
pub data Reach (r : ModelRun) : ModelRun → Type 0 where
  here : Reach r r
  moved :
      (now : String) (target : RunState) (actor reason : String) {s : ModelRun}
      → Reach r s
      → Reach r (transition now target actor reason s).1
  scored :
      (repr : Float → String) (now : String) (metrics : Dict String Float) (digest : String)
      (policy : EvaluationPolicy) (actor : String) {s : ModelRun}
      → Reach r s
      → Reach r (record_evaluation repr now metrics digest policy actor s).1

pub Reach-Inv : {r s : ModelRun} → Inv r → Reach r s → Inv s
Reach-Inv h here = h
Reach-Inv h (moved now target actor reason p) =
    transition-Inv now target actor reason _ (Reach-Inv h p)
Reach-Inv h (scored repr now metrics digest policy actor p) =
    record_evaluation-Inv repr now metrics digest policy actor _ (Reach-Inv h p)

module _ (i m d c o : String) {run : ModelRun} (made : Reach (new_run i m d c o) run) where
  -- Of a new run the methods make approved, deployed or released runs only with an approver who is
  -- not the owner and whose approval, with a reason, stands in the history.
  pub reach_reviewed : BehindApproval run.state → WellApproved run.approver run.owner run.history
  reach_reviewed = (Reach-Inv (new_run-Inv i m d c o) made).reviewed

  -- The history of every such run leads without a gap from `created` to its state, in at most nine
  -- transitions.
  pub reach_history : Chain "created" run.history (value run.state) × (length run.history ≤ 9)
  reach_history =
      let inv = Reach-Inv (new_run-Inv i m d c o) made in
      (inv.chained, omega (arith, inv.bounded, depth-le run.state))
