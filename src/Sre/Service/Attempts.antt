-- ===== src/Sre/Service/Attempts.antt =====
-- platforms/kubernetes_sre/service.py: an execution is attempted once.
use openmodelops.Base.{
  ℕ, String, ◌≡◌, refl, sym, ◌∙◌, subst, inl, inr, true, false, false≢true, some, [], eq_of_nat,
  eq_of_string, Error, ok, err, is_ok, Result-cases,
}
use openmodelops.Base.Dict.{lookup}
use openmodelops.Sre.Executor
use openmodelops.Sre.Executor.{ActionProposal, Approval, Call, Executor}
use openmodelops.Sre.Executor.Exact.{execute_exact}
use openmodelops.Sre.Store.{get_proposal, get_approval, claim_execution, finish_execution}
use openmodelops.Sre.Store.Rows.{
  is_claimed, finish_execution-Keeps, claim_execution-IsClaim, claim_refused,
}
use openmodelops.Sre.Service.{System, Service, carry_out, execute}
use openmodelops.Sre.Service.Effects.{call_cases}

module _ (digest : ActionProposal → String) (executor : Executor) (now : ℕ) (id actor : String)
    (y : System) (c : is_claimed (lookup id y.store) ≡ true) where
  claim_fails : (x : Error) × ((claim_execution id y.store).0 ≡ err x)
  claim_fails = elim (Result-cases (claim_execution id y.store).0) [
    | inl (u, e) ↦ absurd (false≢true (sym (claim_execution-IsClaim id y.store e).unclaimed ∙ c))
    | inr (x, e) ↦ (x, e)
  ]

  -- What is claimed is not executed again.
  claimed_execution :
      let service : Service = record { digest = digest; executor = some executor } in
      (is_ok (execute service now id actor y).0 ≡ false) × ((execute service now id actor y).1 ≡ y)
  unfolding execute
  claimed_execution = elim (Result-cases (get_proposal id y.store)) [
    | inr (x, g) ↦ rw (execute, g) (refl, refl)
    | inl (p, g) ↦ elim (Result-cases (get_approval id y.store)) [
      | inr (x, b) ↦ rw (execute, g, b) (refl, refl)
      | inl (a, b) ↦
          let (x, e) = claim_fails in rw (execute, g, b, e, claim_refused id y.store e) (refl, refl)
    ]
  ]

author_calls :
    (digest : ActionProposal → String) (executor : Executor) (now : ℕ) (p : ActionProposal)
    (a : Approval)
    → (Executor.execute digest executor now p a p.requested_by).1 ≡ []
author_calls digest executor now p a =
    let (once, exact) = execute_exact digest executor now p a p.requested_by in
    elim (call_cases _ once) [
      | inl e ↦ e
      | inr (call, e) ↦ absurd (((exact call).0 e).0.not_author refl)
    ]

author_attempt :
    (digest : ActionProposal → String) (executor : Executor) (now : ℕ) (id : String) (y : System)
    {p : ActionProposal} {a : Approval}
    → get_proposal id y.store ≡ ok p
    → get_approval id y.store ≡ ok a
    → (claim_execution id y.store).0 ≡ ok tt
    → (execute (record { digest = digest; executor = some executor }) now id p.requested_by y).1
      ≡ record {
        store =
            finish_execution id
              (is_ok (Executor.execute digest executor now p a p.requested_by).0)
              (claim_execution id y.store).1;
        log = y.log;
      }
unfolding execute carry_out
author_attempt digest executor now id y {p} {a} g b c =
    rw (execute, g, b, c, carry_out, author_calls digest executor now p a) refl

-- An execution is attempted only once, and an attempt that is refused uses up the approval: if the
-- author of an approved proposal asks for its execution, no call is made, the proposal counts as
-- claimed, and from then on everybody's request to execute it fails and changes nothing.
pub attempt_spent :
    (digest : ActionProposal → String) (executor : Executor) (now later : ℕ) (id other : String)
    (y : System) {p : ActionProposal} {a : Approval}
    → get_proposal id y.store ≡ ok p
    → get_approval id y.store ≡ ok a
    → (claim_execution id y.store).0 ≡ ok tt
    → let service : Service = record { digest = digest; executor = some executor } in
      let y' = (execute service now id p.requested_by y).1 in
      (y'.log ≡ y.log)
      × (is_ok (execute service later id other y').0 ≡ false)
      × ((execute service later id other y').1 ≡ y')
attempt_spent digest executor now later id other y {p} {a} g b c =
    let service : Service = record { digest = digest; executor = some executor } in
    let claim = claim_execution-IsClaim id y.store c in
    let ended =
      finish_execution-Keeps id (is_ok (Executor.execute digest executor now p a p.requested_by).0)
        (claim_execution id y.store).1 in
    let (failed, same) =
      claimed_execution digest executor later id other _ (ended.claims id claim.claimed) in
    subst
      (λ z.
        (z.log ≡ y.log)
        × (is_ok (execute service later id other z).0 ≡ false)
        × ((execute service later id other z).1 ≡ z))
      (sym (author_attempt digest executor now id y g b c)) (refl, failed, same)
