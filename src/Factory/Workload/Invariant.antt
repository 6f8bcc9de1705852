-- ===== src/Factory/Workload/Invariant.antt =====
-- What holds of every workload that the methods make, in whatever order they are called.
use openmodelops.Base.{
  String, ◌≡◌, refl, ap, ◌≢◌, inl, inr, Bool, true, false, not, false≢true, Option, none, some,
  List, [], ◌∷◌, arith, if◌then◌else◌, Bool-cases, eq_of_nat, eq_of_string, contains, Error, Result,
  ok, err, is_ok, Result-cases,
}
use openmodelops.Base.Dict.{Dict}
use openmodelops.Base.Audit.{Chain, Chain-append}
use openmodelops.Factory.Spec.{FactorySpec, GateResult}
use openmodelops.Factory.Workload.{
  WorkloadStage, draft, validated, approved, provisioned, released, suspended, retired, value,
  required_gates, FactoryWorkload, new_workload, move, takes_gates, record_gate, or_none,
  approval_reason, approve, is_approved, provision, release, suspend, retire, Op, gate, approval,
  provisioning, releasing, suspension, retirement, run,
}
use openmodelops.Factory.Workload.Gates.{AllPass, NoEvaluator, approve_exact}

-- The stages that lie behind an approval.
abbrev pub PastApproval : WorkloadStage → Type 0
PastApproval draft = ⊥
PastApproval validated = ⊥
PastApproval _ = Unit

-- Someone approved who neither owns the workload nor evaluated one of its gates.
abbrev pub Independent : Option String → String → Dict String GateResult → Type 0
Independent none owner gates = ⊥
Independent (some a) owner gates = (a ≢ owner) × NoEvaluator a gates

pub record Inv (w : FactoryWorkload) : Type 0 where
  pub cleared : PastApproval w.stage → AllPass w.gates
  pub reviewed : PastApproval w.stage → Independent w.approved_by w.spec.owner w.gates
  pub trail : PastApproval w.stage → Chain "validated" w.history (value w.stage)
  pub untouched : takes_gates w.stage ≡ true → w.history ≡ []

pub new_workload-Inv : (uuid : String) (spec : FactorySpec) → Inv (new_workload uuid spec)
new_workload-Inv uuid spec = record {
  cleared = λ h. absurd h;
  reviewed = λ h. absurd h;
  trail = λ h. absurd h;
  untouched = λ _. refl;
}

past-takes_gates : (s : WorkloadStage) → PastApproval s → takes_gates s ≡ true → ⊥
past-takes_gates draft p h = p
past-takes_gates validated p h = p
past-takes_gates _ p h = false≢true h

module _ (now : String) (target : WorkloadStage) (actor reason : String) (w : FactoryWorkload) where
  move-Inv :
      PastApproval w.stage → PastApproval target → Inv w → Inv (move now target actor reason w)
  move-Inv p q h = record {
    cleared = λ _. h.cleared p;
    reviewed = λ _. h.reviewed p;
    trail = λ _. Chain-append "validated" (value w.stage) w.history _ (h.trail p) refl;
    untouched = λ e. absurd (past-takes_gates target q e);
  }

  guarded-Inv :
      (refused : Bool) (e : Error)
      → (refused ≡ false → PastApproval w.stage)
      → PastApproval target
      → Inv w
      → Inv (
          let r : Result (Unit {0}) × FactoryWorkload =
            if refused then (err e, w) else (ok tt, move now target actor reason w) in
          r.1)
  guarded-Inv true e p q h = h
  guarded-Inv false e p q h = move-Inv (p refl) q h

pub record_gate-Inv :
    (result : GateResult) (w : FactoryWorkload) → Inv w → Inv (record_gate result w).1
unfolding record_gate
record_gate-Inv result w h = elim (Bool-cases (takes_gates w.stage)) [
  | inl t ↦ rw t (elim (Bool-cases (contains required_gates result.gate)) [
    | inl c ↦ rw c (record {
      cleared = λ p. absurd p;
      reviewed = λ p. absurd p;
      trail = λ p. absurd p;
      untouched = λ _. h.untouched t;
    })
    | inr c ↦ rw c h
  ])
  | inr t ↦ rw t h
]

module _ (now actor policy_digest : String) (w : FactoryWorkload) where
  approve_moves :
      (approve now actor policy_digest w).0 ≡ ok tt
      → (approve now actor policy_digest w).1
        ≡ move now approved actor
            (approval_reason policy_digest)
            (record w { approved_by = some actor; policy_digest = or_none policy_digest })
  unfolding approve
  approve_moves h = ground arith

  approve_refused :
      {x : Error}
      → (approve now actor policy_digest w).0 ≡ err x
      → (approve now actor policy_digest w).1 ≡ w
  unfolding approve
  approve_refused h = ground arith

approve-Inv :
    (now actor policy_digest : String) (w : FactoryWorkload)
    → Inv w
    → Inv (approve now actor policy_digest w).1
unfolding value
approve-Inv now actor policy_digest w h =
    elim (Result-cases (approve now actor policy_digest w).0) [
      | inl (u, e) ↦
          let (s, gates, owner, others) = (approve_exact now actor policy_digest w).0 e in
          rw (approve_moves now actor policy_digest w e) (record {
            cleared = λ _. gates;
            reviewed = λ _. (owner, others);
            trail = λ _. rw (h.untouched (rw s)) (ap value s, refl);
            untouched = λ p. absurd (false≢true p);
          })
      | inr (x, e) ↦ rw (approve_refused now actor policy_digest w e) h
    ]

past_approved : (s : WorkloadStage) → not (is_approved s) ≡ false → PastApproval s
past_approved s h = ground arith

pub run-Inv : (now : String) (op : Op) (w : FactoryWorkload) → Inv w → Inv (run now op w).1
unfolding run provision release suspend retire
run-Inv now (gate result) w h = record_gate-Inv result w h
run-Inv now (approval actor policy_digest) w h = approve-Inv now actor policy_digest w h
run-Inv now (provisioning actor) w h =
    guarded-Inv now provisioned actor "platform resources provisioned" w _ _ (past_approved w.stage)
      tt h
run-Inv now (releasing actor) w h =
    guarded-Inv now released actor "workload released" w _ _ (λ e. ground arith) tt h
run-Inv now (suspension actor reason) w h =
    guarded-Inv now suspended actor reason w _ _ (λ e. ground arith) tt h
run-Inv now (retirement actor reason) w h =
    guarded-Inv now retired actor reason w _ _ (λ e. ground arith) tt h

-- A history of calls, each with the reading of the clock, on one workload; a refused call is caught.
unfoldable pub run_all : List (String × Op) → FactoryWorkload → FactoryWorkload
run_all [] w = w
run_all ((now, op) ∷ ops) w = run_all ops (run now op w).1

run_all-Inv : (ops : List (String × Op)) (w : FactoryWorkload) → Inv w → Inv (run_all ops w)
unfolding run_all
run_all-Inv [] w h = h
run_all-Inv ((now, op) ∷ ops) w h = run_all-Inv ops (run now op w).1 (run-Inv now op w h)

-- Whatever calls a new workload has had: once it is approved or further, every required gate has a
-- passing result, its approver neither owns it nor evaluated a gate, and its history leads without a
-- gap from `validated` to its stage.
pub run_all_reviewed :
    (uuid : String) (spec : FactorySpec) (ops : List (String × Op))
    → let w = run_all ops (new_workload uuid spec) in
      PastApproval w.stage
      → AllPass w.gates
        × Independent w.approved_by w.spec.owner w.gates
        × Chain "validated" w.history (value w.stage)
run_all_reviewed uuid spec ops p =
    let h = run_all-Inv ops (new_workload uuid spec) (new_workload-Inv uuid spec) in
    (h.cleared p, h.reviewed p, h.trail p)

-- Of an approved workload no call changes a gate, its approver or its policy, and no call leads back
-- before the approval.
pub run_frozen :
    (now : String) (op : Op) (w : FactoryWorkload)
    → PastApproval w.stage
    → let w' = (run now op w).1 in
      (w'.gates ≡ w.gates)
      × (w'.approved_by ≡ w.approved_by)
      × (w'.policy_digest ≡ w.policy_digest)
      × PastApproval w'.stage
unfolding run record_gate approve provision release suspend retire
run_frozen now (gate result) w p = ground arith
run_frozen now (approval actor policy_digest) w p = ground arith
run_frozen now _ w p = ground arith

-- A call that is refused changes nothing.
pub run_refused :
    (now : String) (op : Op) (w : FactoryWorkload) {x : Error}
    → (run now op w).0 ≡ err x
    → (run now op w).1 ≡ w
unfolding run record_gate provision release suspend retire
run_refused now (gate result) w h = ground arith
run_refused now (approval actor policy_digest) w h = approve_refused now actor policy_digest w h
run_refused now _ w h = ground arith

-- A retired workload refuses every call.
pub run_retired :
    (now : String) (op : Op) (w : FactoryWorkload)
    → w.stage ≡ retired
    → is_ok (run now op w).0 ≡ false
unfolding run record_gate approve provision release suspend retire
run_retired now (gate result) w h = ground arith
run_retired now _ w h = ground arith
