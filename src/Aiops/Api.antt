-- ===== src/Aiops/Api.antt =====
-- platforms/aiops/api.py: the table of incidents in memory, and its two handlers that change it.
pub mod Safety
use openmodelops.Base.{
  ℕ, zero, suc, ◌+◌, ◌-◌, ◌*◌, ◌/◌, ◌%◌, ◌^◌, ◌≤◌, ◌<◌, String, ◌<>◌, ◌≡◌, refl, sym, ap, ◌∙◌,
  subst, ◌≢◌, ◌↔◌, ◌⊎◌, inl, inr, Bool, true, false, not, ◌&&◌, ◌||◌, false≢true, Option, none,
  some, List, [], ◌∷◌, ◌++◌, map, arith, str_eq, starts_with, eq_iff, ltb, leb, nat_eq, nat_eq_iff,
  if◌then◌else◌, Bool-cases, Option-cases, Eq, ◌==◌, eq_of_nat, eq_of_string, length, take,
  length-append, keep, length-keep, any, any-append, all, All, All-append, contains, is_space,
  is_blank, is_empty, codes, is_lower, is_digit, name_tail, is_name, repr_items, repr_list, Error,
  value_error, runtime_error, key_error, permission_error, concurrency_error, policy_denied,
  safety_violation, guardrail_unavailable, integrity_error, http_error, Result, ok, err, ◌>>=◌,
  ◌>>◌, raise_if, is_ok, >>=-eq-ok, Result-cases,
}
use openmodelops.Base.Dict.{
  Dict, keys, values, lookup, insert, has_key, lookup-nil, lookup-insert, lookup-insert_self,
  lookup-insert_ne, lookup-insert_inv, has_key_lem,
}
use openmodelops.Base.Floats.{
  Float, nan, neg_inf, pos_inf, fin, ℤ, lt_float, le_float, double, ltb_ℤ,
}
use openmodelops.Base.Audit.{Entry, Chain, Chain-append, length-audit}
use openmodelops.Aiops.Incidents.{
  Incident, Signal, Remediation, new_incident, Op, correlation, investigation, recommendation,
  approval, execution, verification, run,
}

-- `incidents`: the handlers change the object that the dict holds.
abbrev pub Incidents : Type 0
Incidents = Dict String Incident

-- The body of a call, with `None` where a field was left out.
pub record ActionRequest : Type 0 where
  pub actor : String
  pub action : Option String
  pub target : Option String
  pub rationale : Option String
  pub risk : Option String
  pub rollback : Option String
  pub healthy : Option Bool

unfoldable pub create_incident : String → String → List Signal → Incidents → Incident × Incidents
create_incident uuid service signals incidents =
    let incident = new_incident uuid service signals in (incident, insert uuid incident incidents)

-- `text or ""`
abbrev pub or_empty : Option String → String
or_empty none = ""
or_empty (some s) = s

-- `bool(value)`
abbrev pub truth : Option Bool → Bool
truth none = false
truth (some b) = b

abbrev pub remediation_of : ActionRequest → Remediation
remediation_of request = record {
  action = or_empty request.action;
  target = or_empty request.target;
  rationale = or_empty request.rationale;
  risk = or_empty request.risk;
  rollback = or_empty request.rollback;
  side_effecting = true;
}

-- The chain of tests on `operation`.
unfoldable pub operation_of : String → ActionRequest → Option Op
operation_of operation request =
    if operation == "correlate"
    then some correlation
    else if operation == "investigate"
    then some investigation
    else if operation == "recommend"
    then some (recommendation (remediation_of request))
    else if operation == "approve"
    then some approval
    else if operation == "execute"
    then some execution
    else if operation == "verify"
    then some (verification (truth request.healthy))
    else none

-- `except ValueError as exc: raise HTTPException(status_code=409, ...)`
abbrev pub as_conflict : Error → Error
as_conflict (value_error s) = http_error 409 s
as_conflict e = e

-- The object that the method left stays in the table, also where the method raised.
abbrev pub answer : String → Result (Unit {0}) × Incident → Incidents → Result Incident × Incidents
answer key (ok u, incident) incidents = (ok incident, insert key incident incidents)
answer key (err e, incident) incidents = (err (as_conflict e), insert key incident incidents)

unfoldable pub advance :
    String → String → String → ActionRequest → Incidents → Result Incident × Incidents
advance now incident_id operation request incidents = elim (lookup incident_id incidents) [
  | none ↦ (err (http_error 404 "incident not found"), incidents)
  | some incident ↦ elim (operation_of operation request) [
    | none ↦ (err (http_error 404 "unknown operation"), incidents)
    | some op ↦ answer incident_id (run now op request.actor incident) incidents
  ]
]

pub data Request : Type 0 where
  creation : String → String → List Signal → Request
  advancing : String → String → String → ActionRequest → Request

unfoldable pub handle : Request → Incidents → Incidents
handle (creation uuid service signals) incidents =
    (create_incident uuid service signals incidents).1
handle (advancing now incident_id operation request) incidents =
    (advance now incident_id operation request incidents).1

-- The requests that the control plane answers, one after the other.
unfoldable pub serve : List Request → Incidents → Incidents
serve [] incidents = incidents
serve (r ∷ rs) incidents = serve rs (handle r incidents)
