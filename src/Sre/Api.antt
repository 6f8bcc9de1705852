-- ===== src/Sre/Api.antt =====
-- platforms/kubernetes_sre/api.py: the handlers of the proposals.
pub mod Requested
pub mod Independence
use openmodelops.Base.{
  ℕ, zero, suc, ◌+◌, ◌-◌, ◌*◌, ◌/◌, ◌%◌, ◌^◌, ◌≤◌, ◌<◌, String, ◌<>◌, ◌≡◌, refl, sym, ap, ◌∙◌,
  subst, ◌≢◌, ◌↔◌, ◌⊎◌, inl, inr, Bool, true, false, not, ◌&&◌, ◌||◌, false≢true, Option, none,
  some, List, [], ◌∷◌, ◌++◌, map, arith, str_eq, starts_with, eq_iff, ltb, leb, nat_eq, nat_eq_iff,
  if◌then◌else◌, Bool-cases, Option-cases, Eq, ◌==◌, eq_of_nat, eq_of_string, length, take,
  length-append, keep, length-keep, any, any-append, all, All, All-append, contains, is_space,
  is_blank, is_empty, codes, is_lower, is_digit, name_tail, is_name, repr_items, repr_list, Error,
  value_error, runtime_error, key_error, permission_error, concurrency_error, policy_denied,
  safety_violation, guardrail_unavailable, integrity_error, http_error, Result, ok, err, ◌>>=◌,
  ◌>>◌, raise_if, is_ok, >>=-eq-ok, Result-cases,
}
use openmodelops.Base.Dict.{
  Dict, keys, values, lookup, insert, has_key, lookup-nil, lookup-insert, lookup-insert_self,
  lookup-insert_ne, lookup-insert_inv, has_key_lem,
}
use openmodelops.Base.Floats.{
  Float, nan, neg_inf, pos_inf, fin, ℤ, lt_float, le_float, double, ltb_ℤ,
}
use openmodelops.Base.Audit.{Entry, Chain, Chain-append, length-audit}
use openmodelops.Security.{Identity}
use openmodelops.Sre.Executor.{ActionType, ActionProposal, Approval, Parameter, Executor}
use openmodelops.Sre.Store.{SreStore}
use openmodelops.Sre.Service
use openmodelops.Sre.Service.{System, Service}

unfoldable pub require_role : Identity → String → Result (Unit {0})
require_role identity role =
    raise_if (not (contains identity.roles role)) (http_error 403 (role <> " role required"))

pub record ProposalRequest : Type 0 where
  pub action : ActionType
  pub cluster : String
  pub namespace : String
  pub resource_name : String
  pub resource_uid : String
  pub resource_version : String
  pub rationale : String
  pub rollback : String
  pub parameters : Dict String Parameter

-- `ActionProposal(**request.model_dump(), requested_by=identity.subject)`
abbrev pub proposal_of : ℕ → String → Identity → ProposalRequest → ActionProposal
proposal_of now uuid identity r = record {
  action = r.action;
  cluster = r.cluster;
  namespace = r.namespace;
  resource_name = r.resource_name;
  resource_uid = r.resource_uid;
  resource_version = r.resource_version;
  requested_by = identity.subject;
  rationale = r.rationale;
  rollback = r.rollback;
  parameters = r.parameters;
  proposal_id = uuid;
  created_at = now;
}

-- `except (KeyError, ValueError, RuntimeError, SafetyViolation) as exc`, with `str(exc)`
abbrev pub as_conflict : Error → Error
as_conflict (key_error s) = http_error 409 ("'" <> s <> "'")
as_conflict (value_error s) = http_error 409 s
as_conflict (runtime_error s) = http_error 409 s
as_conflict (concurrency_error s) = http_error 409 s
as_conflict (policy_denied s) = http_error 409 s
as_conflict (safety_violation s) = http_error 409 s
as_conflict e = e

abbrev pub or_conflict {ℓ} : {A : Type ℓ} → Result A → Result A
or_conflict (ok a) = ok a
or_conflict (err e) = err (as_conflict e)

abbrev pub in_store : System → Result ActionProposal × SreStore → Result ActionProposal × System
in_store system (r, store) = (r, record system { store = store })

abbrev pub approved_in : System → Result Approval × SreStore → Result Approval × System
approved_in system (r, store) = (or_conflict r, record system { store = store })

abbrev pub executed_in : Result String × System → Result String × System
executed_in (r, system) = (or_conflict r, system)

unfoldable pub post_proposal :
    Service → ℕ → String → ProposalRequest → Identity → System → Result ActionProposal × System
post_proposal service now uuid request identity system =
    elim (require_role identity "sre-proposer") [
      | err e ↦ (err e, system)
      | ok u ↦
          in_store system
            (Service.propose service (proposal_of now uuid identity request) system.store)
    ]

unfoldable pub post_approval :
    Service → ℕ → ℕ → String → Identity → System → Result Approval × System
post_approval service now later id identity system = elim (require_role identity "sre-approver") [
  | err e ↦ (err e, system)
  | ok u ↦ approved_in system (Service.approve service now later id identity.subject system.store)
]

unfoldable pub post_execution : Service → ℕ → String → Identity → System → Result String × System
post_execution service now id identity system = elim (require_role identity "sre-executor") [
  | err e ↦ (err e, system)
  | ok u ↦ executed_in (Service.execute service now id identity.subject system)
]

-- A request with its caller and what the clock and the generator of ids give.
pub data Request : Type 0 where
  proposing : ℕ → String → ProposalRequest → Identity → Request
  approving : ℕ → ℕ → String → Identity → Request
  executing : ℕ → String → Identity → Request

unfoldable pub handle : Service → Request → System → System
handle service (proposing now uuid request identity) system =
    (post_proposal service now uuid request identity system).1
handle service (approving now later id identity) system =
    (post_approval service now later id identity system).1
handle service (executing now id identity) system =
    (post_execution service now id identity system).1

-- The requests that the service answers, one after the other.
unfoldable pub serve : Service → List Request → System → System
serve service [] system = system
serve service (r ∷ rs) system = serve service rs (handle service r system)
