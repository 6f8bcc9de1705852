-- ===== src/Sre/Service.antt =====
-- platforms/kubernetes_sre/service.py: the life of a proposal.
pub mod Effects
pub mod Attempts
use openmodelops.Base.{
  ℕ, zero, suc, ◌+◌, ◌-◌, ◌*◌, ◌/◌, ◌%◌, ◌^◌, ◌≤◌, ◌<◌, String, ◌<>◌, ◌≡◌, refl, sym, ap, ◌∙◌,
  subst, ◌≢◌, ◌↔◌, ◌⊎◌, inl, inr, Bool, true, false, not, ◌&&◌, ◌||◌, false≢true, Option, none,
  some, List, [], ◌∷◌, ◌++◌, map, arith, str_eq, starts_with, eq_iff, ltb, leb, nat_eq, nat_eq_iff,
  if◌then◌else◌, Bool-cases, Option-cases, Eq, ◌==◌, eq_of_nat, eq_of_string, length, take,
  length-append, keep, length-keep, any, any-append, all, All, All-append, contains, is_space,
  is_blank, is_empty, codes, is_lower, is_digit, name_tail, is_name, repr_items, repr_list, Error,
  value_error, runtime_error, key_error, permission_error, concurrency_error, policy_denied,
  safety_violation, guardrail_unavailable, integrity_error, http_error, Result, ok, err, ◌>>=◌,
  ◌>>◌, raise_if, is_ok, >>=-eq-ok, Result-cases,
}
use openmodelops.Base.Dict.{
  Dict, keys, values, lookup, insert, has_key, lookup-nil, lookup-insert, lookup-insert_self,
  lookup-insert_ne, lookup-insert_inv, has_key_lem,
}
use openmodelops.Base.Floats.{
  Float, nan, neg_inf, pos_inf, fin, ℤ, lt_float, le_float, double, ltb_ℤ,
}
use openmodelops.Base.Audit.{Entry, Chain, Chain-append, length-audit}
use openmodelops.Security.{Identity}
use openmodelops.Sre.Executor
use openmodelops.Sre.Executor.{
  ActionType, ActionProposal, Approval, Parameter, new_approval, Call, Executor,
}
use openmodelops.Sre.Store
use openmodelops.Sre.Store.{
  SreStore, save_proposal, get_proposal, get_approval, claim_execution, finish_execution,
}

-- A call of the writer that was made, for which proposal, by whom and at what time of the clock.
pub record Effect : Type 0 where
  pub proposal_id : String
  pub called_at : ℕ
  pub actor : String
  pub call : Call

-- What the service changes: its table, and the cluster, as the calls that it got.
pub record System : Type 0 where
  pub store : SreStore
  pub log : List Effect

-- What the service is made of; there is no executor where execution is disabled.
pub record Service : Type 0 where
  pub digest : ActionProposal → String
  pub executor : Option Executor

unfoldable pub propose : Service → ActionProposal → SreStore → Result ActionProposal × SreStore
propose service p store =
    let (saved, store') = save_proposal service.digest p store in (saved >> ok p, store')

abbrev stored : Approval → Result (Unit {0}) × SreStore → Result Approval × SreStore
stored a (r, store) = (r >> ok a, store)

-- `now` and `later` are the two readings of the clock.
unfoldable pub approve : Service → ℕ → ℕ → String → String → SreStore → Result Approval × SreStore
approve service now later id approver store = elim (get_proposal id store) [
  | err e ↦ (err e, store)
  | ok p ↦
      if p.requested_by == approver
      then (err (value_error "proposal author cannot approve their own change"), store)
      else let a = new_approval now later p.proposal_id (service.digest p) approver in
        stored a (Store.approve a store)
]

abbrev pub effects : String → ℕ → String → List Call → List Effect
effects id now actor [] = []
effects id now actor (call ∷ calls) =
    (record { proposal_id = id; called_at = now; actor = actor; call = call })
    ∷ effects id now actor calls

-- The `try` block: the store is told how the execution ended, and an exception is raised again.
unfoldable pub carry_out :
    (ActionProposal → String)
    → Executor
    → ℕ
    → String
    → ActionProposal
    → Approval
    → String
    → System
    → Result String × System
carry_out digest executor now id p a actor system =
    let (result, calls) = Executor.execute digest executor now p a actor in
    (
      result,
      record {
        store = finish_execution id (is_ok result) system.store;
        log = effects id now actor calls ++ system.log;
      },
    )

unfoldable pub execute : Service → ℕ → String → String → System → Result String × System
execute service now id actor system = elim service.executor [
  | none ↦ (err (runtime_error "change execution is disabled"), system)
  | some executor ↦ elim (get_proposal id system.store) [
    | err e ↦ (err e, system)
    | ok p ↦ elim (get_approval id system.store) [
      | err e ↦ (err e, system)
      | ok a ↦
          let (claimed, store) = claim_execution id system.store in
          elim claimed [
            | err e ↦ (err e, record system { store = store })
            | ok u ↦
                carry_out service.digest executor now id p a actor (record system { store = store })
          ]
    ]
  ]
]
