-- ===== src/Sre/Tests.antt =====
-- Runs of the Kubernetes service, and its theorems at concrete inputs.
use openmodelops.Base.{
  ◌≤◌, String, ◌<>◌, ◌≡◌, refl, ◌↔◌, none, some, List, [], ◌∷◌, ◌++◌, eq_of_nat, eq_of_string,
  length, any, all, All, contains, is_space, is_blank, codes, ok,
}
use openmodelops.Base.Dict.{lookup, insert, has_key}
use openmodelops.Base.Floats.{ℤ}
use openmodelops.Security.{Identity}
use openmodelops.Sre.Executor
use openmodelops.Sre.Executor.{
  ActionType, scale_deployment, restart_deployment, ActionProposal, Approval, Parameter, number,
  text, new_approval, read_int, read_digits, int_of, Call, scaling, call_of, Executor, check_change,
}
use openmodelops.Sre.Executor.Exact.{IsCleared, Fits, execute_exact}
use openmodelops.Sre.Store.{
  SreStore, save_proposal, get_proposal, get_approval, claim_execution, finish_execution, action_of,
  action_value,
}
use openmodelops.Sre.Service.{Effect, System, Service, execute}
use openmodelops.Sre.Service.Effects.{count, IsJustified}
use openmodelops.Sre.Api
use openmodelops.Sre.Service
use openmodelops.Sre.Store
use openmodelops.Sre.Api.{
  Request, ProposalRequest, proposal_of, proposing, approving, executing, serve, handle,
}
use openmodelops.Sre.Api.Requested.{IsRequested}
use openmodelops.Sre.Api.Independence.{empty, served_once}

padded_number : read_int (codes " -1_20 ") ≡ some (ℤ.negsuc 119)
unfolding read_int codes is_space all
padded_number = refl

word : read_int (codes "ten") ≡ none
unfolding read_int codes is_space
word = refl

abbrev request : ProposalRequest
request = record {
  action = scale_deployment;
  cluster = "prod";
  namespace = "managed";
  resource_name = "web";
  resource_uid = "u1";
  resource_version = "7";
  rationale = "load is high";
  rollback = "scale back to 2";
  parameters = ("replicas", text "12") ∷ [];
}

abbrev person : String → Identity
person name = record {
  subject = name;
  roles = "sre-proposer" ∷ "sre-approver" ∷ "sre-executor" ∷ [];
  tenant = "acme";
}

abbrev executor : Executor
executor = record { writer = λ call. ok "8"; managed_namespaces = "managed" ∷ [] }

abbrev digest : ActionProposal → String
digest p = "digest of " <> p.proposal_id

abbrev service : Service
service = record { digest = digest; executor = some executor }

abbrev proposal : ActionProposal
proposal = proposal_of 5 "p1" (person "ana") request

abbrev approval : Approval
approval = new_approval 6 6 "p1" (digest proposal) "ben"

abbrev cleared_requests : List Request
cleared_requests = proposing 5 "p1" request (person "ana") ∷ approving 6 6 "p1" (person "ben") ∷ []

abbrev requests : List Request
requests =
    cleared_requests ++ executing 7 "p1" (person "cem") ∷ executing 8 "p1" (person "dan") ∷ []

called :
    (serve service requests empty).log
    ≡ (record {
      proposal_id = "p1";
      called_at = 7;
      actor = "cem";
      call = scaling "managed" "web" 12 "u1" "7";
    })
      ∷ []
unfolding execute Api.post_execution get_approval claim_execution finish_execution Service.carry_out
    Executor.execute check_change call_of int_of read_int codes is_space all is_blank any lookup
    serve handle Api.post_approval Api.require_role contains Service.approve get_proposal
    Api.post_proposal Service.propose save_proposal has_key insert action_of action_value
    Store.approve
called = refl

execute_exact_example :
    let calls = (Executor.execute digest executor 7 proposal approval "cem").1 in
    (length calls ≤ 1)
    × ((call : Call)
        → (calls ≡ call ∷ []) ↔ (
            IsCleared digest executor 7 proposal approval "cem"
            × Fits proposal scale_deployment call))
execute_exact_example = execute_exact digest executor 7 proposal approval "cem"

served_once_example :
    let y = serve service requests empty in
    ((id : String) → count id y.log ≤ 1)
    × All (IsJustified digest executor y.store) y.log
    × All (IsRequested requests) y.log
served_once_example = served_once digest executor requests

abbrev approved_system : System
approved_system = serve service cleared_requests empty

proposal_read : get_proposal "p1" approved_system.store ≡ ok proposal
unfolding lookup serve handle Api.post_approval Api.require_role contains Service.approve
    get_proposal Api.post_proposal Service.propose save_proposal has_key insert action_of
    action_value Store.approve
proposal_read = refl

approval_read : get_approval "p1" approved_system.store ≡ ok approval
unfolding get_approval lookup serve handle Api.post_approval Api.require_role contains
    Service.approve get_proposal Api.post_proposal Service.propose save_proposal has_key insert
    action_of action_value Store.approve
approval_read = refl

claim_ready : (claim_execution "p1" approved_system.store).0 ≡ ok tt
unfolding claim_execution lookup serve handle Api.post_approval Api.require_role contains
    Service.approve get_proposal Api.post_proposal Service.propose save_proposal has_key insert
    action_of action_value Store.approve
claim_ready = refl
