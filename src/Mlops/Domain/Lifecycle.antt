-- ===== src/Mlops/Domain/Lifecycle.antt =====
-- The lifecycle diagram of a model run, and what `transition` accepts of it.
use openmodelops.Base.{
  String, ◌≡◌, refl, ◌≢◌, ◌↔◌, true, false, some, arith, eq_iff, if◌then◌else◌, eq_of_nat,
  eq_of_string, is_blank, Error, ok, err,
}
use openmodelops.Mlops.Domain.{
  RunState, created, training, evaluating, rejected, candidate, approved, deploying, canary,
  production, rolled_back, retired, transitions, in_states, ModelRun, move, is_approved, transition,
}

-- The diagram of the lifecycle.
infix 40 ◌⟶◌
pub data ◌⟶◌ : RunState → RunState → Type 0 where
  train : created ⟶ training
  score : training ⟶ evaluating
  fail : evaluating ⟶ rejected
  pass : evaluating ⟶ candidate
  accept : candidate ⟶ approved
  refuse : candidate ⟶ rejected
  deploy : approved ⟶ deploying
  expose : deploying ⟶ canary
  abort : deploying ⟶ rolled_back
  promote : canary ⟶ production
  withdraw : canary ⟶ rolled_back
  roll_back : production ⟶ rolled_back
  retire : production ⟶ retired
  clear : rolled_back ⟶ retired

ruleset edges = (
  train, score, fail, pass, accept, refuse, deploy, expose, abort, promote, withdraw, roll_back,
  retire, clear,
)

pub in_states-⟶ : (s t : RunState) → in_states (transitions s) t ≡ true → s ⟶ t
unfolding in_states transitions
in_states-⟶ created t h = grind (arith, edges)
in_states-⟶ _ t h = grind (arith, edges)

pub ⟶-in_states : {s t : RunState} → s ⟶ t → in_states (transitions s) t ≡ true
unfolding in_states transitions
⟶-in_states train = refl
⟶-in_states _ = refl

-- What an approval asks of its actor and its reason.
abbrev pub MayEnter : RunState → String → String → String → Type 0
MayEnter approved owner actor reason = (actor ≢ owner) × (is_blank reason ≡ false)
MayEnter _ owner actor reason = Unit

module _ (now : String) (target : RunState) (actor reason : String) (run : ModelRun) where
  pub transition_ok :
      (transition now target actor reason run).0 ≡ ok tt
      → (in_states (transitions run.state) target ≡ true) × MayEnter target run.owner actor reason
  unfolding transition
  transition_ok h = ground (arith, eq_iff actor run.owner)

  pub transition_allowed :
      in_states (transitions run.state) target ≡ true
      → MayEnter target run.owner actor reason
      → (transition now target actor reason run).0 ≡ ok tt
  unfolding transition
  transition_allowed h m = ground (arith, eq_iff actor run.owner)

  -- A transition succeeds exactly along an edge of the diagram, an approval moreover only by another
  -- actor than the owner and with a reason that is not blank.
  pub transition_exact :
      ((transition now target actor reason run).0 ≡ ok tt)
      ↔ ((run.state ⟶ target) × MayEnter target run.owner actor reason)
  transition_exact = (
    λ h. (in_states-⟶ run.state target (transition_ok h).0, (transition_ok h).1),
    λ h. transition_allowed (⟶-in_states h.0) h.1,
  )

  pub transition_moves :
      (transition now target actor reason run).0 ≡ ok tt
      → (transition now target actor reason run).1
        ≡ move now target actor reason
            (if is_approved target then record run { approver = some actor } else run)
  unfolding transition
  transition_moves h = ground arith

  -- A refused transition leaves the run as it was.
  pub transition_refused :
      {e : Error}
      → (transition now target actor reason run).0 ≡ err e
      → (transition now target actor reason run).1 ≡ run
  unfolding transition
  transition_refused h = ground arith
