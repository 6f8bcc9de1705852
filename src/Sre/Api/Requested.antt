-- ===== src/Sre/Api/Requested.antt =====
-- platforms/kubernetes_sre: the request that a call of the cluster answers.
use openmodelops.Base.{
  ℕ, String, ◌≡◌, refl, ap, ◌⊎◌, inl, inr, true, some, List, [], ◌∷◌, eq_of_nat, eq_of_string, All,
  All-append, is_ok, Result-cases,
}
use openmodelops.Sre.Executor.{ActionProposal, Call, Executor}
use openmodelops.Sre.Store.{get_proposal, get_approval, claim_execution}
use openmodelops.Sre.Service.{Effect, System, Service, effects, carry_out, execute}
use openmodelops.Sre.Api.{
  Request, proposing, approving, executing, post_proposal, post_approval, post_execution,
  require_role, handle, serve,
}

-- One of the requests asked for the execution of this proposal, at this time and by this caller, who has
-- the executor's role.
abbrev pub IsRequested : List Request → Effect → Type 0
IsRequested [] e = ⊥
IsRequested (executing now id identity ∷ rs) e =
    ((e.called_at ≡ now)
      × (e.proposal_id ≡ id)
      × (e.actor ≡ identity.subject)
      × (is_ok (require_role identity "sre-executor") ≡ true))
    ⊎ IsRequested rs e
IsRequested (_ ∷ rs) e = IsRequested rs e

module _ (digest : ActionProposal → String) (executor : Executor) (P : Effect → Type 0) where
  abbrev service : Service
  service = record { digest = digest; executor = some executor }

  All-effects :
      (now : ℕ) (id actor : String) (calls : List Call)
      → ((call : Call)
          → P (record { proposal_id = id; called_at = now; actor = actor; call = call }))
      → All P (effects id now actor calls)
  All-effects now id actor [] h = tt
  All-effects now id actor (call ∷ calls) h = (h call, All-effects now id actor calls h)

  module _ (now : ℕ) (id actor : String) (y : System)
      (asked : (call : Call)
        → P (record { proposal_id = id; called_at = now; actor = actor; call = call }))
      (before : All P y.log) where
    All-execute : All P (execute service now id actor y).1.log
    unfolding execute carry_out
    All-execute = elim (Result-cases (get_proposal id y.store)) [
      | inr (x, g) ↦ rw (execute, g) before
      | inl (p, g) ↦ elim (Result-cases (get_approval id y.store)) [
        | inr (x, b) ↦ rw (execute, g, b) before
        | inl (a, b) ↦ elim (Result-cases (claim_execution id y.store).0) [
          | inr (x, c) ↦ rw (execute, g, b, c) before
          | inl (u, c) ↦
              rw (execute, g, b, c)
                (All-append P (effects id now actor _) y.log (All-effects now id actor _ asked)
                  before)
        ]
      ]
    ]

  All-handle :
      (r : Request) (rs : List Request) (y : System)
      → ((e : Effect) → IsRequested (r ∷ rs) e → P e)
      → All P y.log
      → All P (handle service r y).log
  unfolding handle post_proposal post_approval post_execution
  All-handle (proposing now uuid request identity) rs y h before =
      elim (Result-cases (require_role identity "sre-proposer")) [
        | inr (x, e) ↦ rw (handle, post_proposal, e) before
        | inl (u, e) ↦ rw (handle, post_proposal, e) before
      ]
  All-handle (approving now later id identity) rs y h before =
      elim (Result-cases (require_role identity "sre-approver")) [
        | inr (x, e) ↦ rw (handle, post_approval, e) before
        | inl (u, e) ↦ rw (handle, post_approval, e) before
      ]
  All-handle (executing now id identity) rs y h before =
      elim (Result-cases (require_role identity "sre-executor")) [
        | inr (x, e) ↦ rw (handle, post_execution, e) before
        | inl (u, e) ↦
            rw (handle, post_execution, e)
              (All-execute now id identity.subject y
                (λ call. h _ (inl (refl, refl, refl, ap is_ok e))) before)
      ]

  later : (r : Request) (rs : List Request) (e : Effect) → IsRequested rs e → IsRequested (r ∷ rs) e
  later (proposing now uuid request identity) rs e h = h
  later (approving now late id identity) rs e h = h
  later (executing now id identity) rs e h = inr h

  All-serve :
      (rs : List Request) (y : System)
      → ((e : Effect) → IsRequested rs e → P e)
      → All P y.log
      → All P (serve service rs y).log
  unfolding serve
  All-serve [] y h before = before
  All-serve (r ∷ rs) y h before =
      All-serve rs (handle service r y) (λ e k. h e (later r rs e k)) (All-handle r rs y h before)

pub served_requested :
    (digest : ActionProposal → String) (executor : Executor) (rs : List Request)
    → All
        (IsRequested rs)
        (serve
          (record { digest = digest; executor = some executor })
          rs
          (record { store = []; log = [] })).log
served_requested digest executor rs =
    All-serve digest executor (IsRequested rs) rs (record { store = []; log = [] }) (λ e h. h) tt
