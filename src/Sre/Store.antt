-- ===== src/Sre/Store.antt =====
-- platforms/kubernetes_sre/store.py: the table of proposals.
pub mod Rows
use openmodelops.Base.{
  ℕ, zero, suc, ◌+◌, ◌-◌, ◌*◌, ◌/◌, ◌%◌, ◌^◌, ◌≤◌, ◌<◌, String, ◌<>◌, ◌≡◌, refl, sym, ap, ◌∙◌,
  subst, ◌≢◌, ◌↔◌, ◌⊎◌, inl, inr, Bool, true, false, not, ◌&&◌, ◌||◌, false≢true, Option, none,
  some, List, [], ◌∷◌, ◌++◌, map, arith, str_eq, starts_with, eq_iff, ltb, leb, nat_eq, nat_eq_iff,
  if◌then◌else◌, Bool-cases, Option-cases, Eq, ◌==◌, eq_of_nat, eq_of_string, length, take,
  length-append, keep, length-keep, any, any-append, all, All, All-append, contains, is_space,
  is_blank, is_empty, codes, is_lower, is_digit, name_tail, is_name, repr_items, repr_list, Error,
  value_error, runtime_error, key_error, permission_error, concurrency_error, policy_denied,
  safety_violation, guardrail_unavailable, integrity_error, http_error, Result, ok, err, ◌>>=◌,
  ◌>>◌, raise_if, is_ok, >>=-eq-ok, Result-cases,
}
use openmodelops.Base.Dict.{
  Dict, keys, values, lookup, insert, has_key, lookup-nil, lookup-insert, lookup-insert_self,
  lookup-insert_ne, lookup-insert_inv, has_key_lem,
}
use openmodelops.Base.Floats.{
  Float, nan, neg_inf, pos_inf, fin, ℤ, lt_float, le_float, double, ltb_ℤ,
}
use openmodelops.Base.Audit.{Entry, Chain, Chain-append, length-audit}
use openmodelops.Sre.Executor.{
  ActionType, scale_deployment, restart_deployment, ActionProposal, Approval, Parameter,
}

pub data Status : Type 0 where
  proposed approved executing executed failed : Status

-- The JSON text of a proposal, in which an instant in ISO format stands for the instant.
pub record Payload : Type 0 where
  pub action : String
  pub cluster : String
  pub namespace : String
  pub resource_name : String
  pub resource_uid : String
  pub resource_version : String
  pub requested_by : String
  pub rationale : String
  pub rollback : String
  pub parameters : Dict String Parameter
  pub proposal_id : String
  pub created_at : ℕ

pub record Row : Type 0 where
  pub payload : Payload
  pub digest : String
  pub status : Status
  pub approval : Option Approval

-- The table `proposals`, by its primary key.
abbrev pub SreStore : Type 0
SreStore = Dict String Row

unfoldable pub action_value : ActionType → String
action_value scale_deployment = "scale_deployment"
action_value restart_deployment = "restart_deployment"

-- `ActionType(text)`
unfoldable pub action_of : String → Result ActionType
action_of s =
    if s == "scale_deployment"
    then ok scale_deployment
    else if s == "restart_deployment"
    then ok restart_deployment
    else err (value_error ("'" <> s <> "' is not a valid ActionType"))

abbrev pub encode : ActionProposal → Payload
encode p = record {
  action = action_value p.action;
  cluster = p.cluster;
  namespace = p.namespace;
  resource_name = p.resource_name;
  resource_uid = p.resource_uid;
  resource_version = p.resource_version;
  requested_by = p.requested_by;
  rationale = p.rationale;
  rollback = p.rollback;
  parameters = p.parameters;
  proposal_id = p.proposal_id;
  created_at = p.created_at;
}

abbrev pub with_action : Payload → ActionType → ActionProposal
with_action d action = record {
  action = action;
  cluster = d.cluster;
  namespace = d.namespace;
  resource_name = d.resource_name;
  resource_uid = d.resource_uid;
  resource_version = d.resource_version;
  requested_by = d.requested_by;
  rationale = d.rationale;
  rollback = d.rollback;
  parameters = d.parameters;
  proposal_id = d.proposal_id;
  created_at = d.created_at;
}

unfoldable pub save_proposal :
    (ActionProposal → String) → ActionProposal → SreStore → Result (Unit {0}) × SreStore
save_proposal digest p store =
    if has_key p.proposal_id store
    then (err (integrity_error "UNIQUE constraint failed: proposals.proposal_id"), store)
    else (
      ok tt,
      insert p.proposal_id
          (record { payload = encode p; digest = digest p; status = proposed; approval = none })
          store,
    )

unfoldable pub get_proposal : String → SreStore → Result ActionProposal
get_proposal id store = elim (lookup id store) [
  | none ↦ err (key_error id)
  | some row ↦ action_of row.payload.action >>= λ action. ok (with_action row.payload action)
]

-- `status = 'proposed'` and its like
abbrev pub is_proposed : Status → Bool
is_proposed proposed = true
is_proposed _ = false

abbrev pub is_approved : Status → Bool
is_approved approved = true
is_approved _ = false

abbrev pub is_executing : Status → Bool
is_executing executing = true
is_executing _ = false

-- The row that an `UPDATE ... WHERE proposal_id = ?` may change, `none` if there is none.
unfoldable pub approve : Approval → SreStore → Result (Unit {0}) × SreStore
approve a store = elim (lookup a.proposal_id store) [
  | none ↦ (err (value_error "proposal is missing, changed, or already approved"), store)
  | some row ↦
      if row.digest == a.proposal_digest && is_proposed row.status
      then (ok tt, insert a.proposal_id (record row { approval = some a; status = approved }) store)
      else (err (value_error "proposal is missing, changed, or already approved"), store)
]

unfoldable pub get_approval : String → SreStore → Result Approval
get_approval id store = elim (lookup id store) [
  | none ↦ err (key_error id)
  | some row ↦ elim row.approval [ none ↦ err (key_error id) | some a ↦ ok a ]
]

unfoldable pub claim_execution : String → SreStore → Result (Unit {0}) × SreStore
claim_execution id store = elim (lookup id store) [
  | none ↦ (err (value_error "proposal is not approved or execution was already claimed"), store)
  | some row ↦
      if is_approved row.status
      then (ok tt, insert id (record row { status = executing }) store)
      else (err (value_error "proposal is not approved or execution was already claimed"), store)
]

unfoldable pub finish_execution : String → Bool → SreStore → SreStore
finish_execution id succeeded store = elim (lookup id store) [
  | none ↦ store
  | some row ↦
      if is_executing row.status
      then insert id (record row { status = if succeeded then executed else failed }) store
      else store
]
