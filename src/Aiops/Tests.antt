-- ===== src/Aiops/Tests.antt =====
-- Runs of the incident control plane, and its theorems at concrete inputs.
use openmodelops.Base.{
  String, ◌≡◌, refl, ◌≢◌, true, false, some, List, [], ◌∷◌, arith, eq_iff, eq_of_nat, eq_of_string,
  any, contains, is_empty, value_error, err,
}
use openmodelops.Base.Dict.{lookup, insert}
use openmodelops.Base.Audit.{Chain}
use openmodelops.Aiops.Incidents.{
  approved, resolved, value, Signal, Remediation, Incident, new_incident, correlation,
  investigation, recommendation, approval, run, correlate, investigate, recommend, approve,
  lacks_plan, is_author, is_foreign,
}
use openmodelops.Aiops.Incidents.Invariant.{BehindApproval, Planned, Authored, Reviewed}
use openmodelops.Aiops.Incidents.Recovery.{run_all, recovery, recovery_ends}
use openmodelops.Aiops.Api.{
  ActionRequest, operation_of, advance, Request, creation, advancing, handle, serve,
  create_incident,
}
use openmodelops.Aiops.Api.Safety.{served_incident}

abbrev latency : Signal
latency = record {
  source = "prometheus";
  service = "checkout";
  severity = "high";
  fingerprint = "f1";
  observed_at = "t0";
  attributes = [];
}

abbrev rollout : Remediation
rollout = record {
  action = "rollback deployment";
  target = "checkout";
  rationale = "bad release";
  risk = "low";
  rollback = "redeploy";
  side_effecting = true;
}

abbrev fresh : Incident
fresh = new_incident "i1" "checkout" (latency ∷ [])

rollout_planned : lacks_plan rollout ≡ false
unfolding lacks_plan is_empty contains
rollout_planned = refl

early :
    (run "t" investigation "ana" fresh).0 ≡ err (value_error "incident must be correlated first")
unfolding run investigate
early = refl

abbrev operator : String
operator = "ana"

ana_other : operator ≢ "ben"
ana_other = ground (arith, eq_iff operator "ben")

abbrev closed : Incident
closed = run_all (recovery "t" rollout true "ana" "ben") fresh

recovery_ends_example :
    (closed.state ≡ resolved)
    × (closed.recommendation ≡ some rollout)
    × (closed.approved_by ≡ some "ben")
unfolding any
recovery_ends_example =
    recovery_ends "i1" "checkout" "t" "ana" "ben" (latency ∷ []) rollout true refl rollout_planned
      ana_other

abbrev done : Incident
done = record fresh { state = resolved }

abbrev by : String → ActionRequest
by actor = record {
  actor = actor;
  action = some "rollback deployment";
  target = some "checkout";
  rationale = some "bad release";
  risk = some "low";
  rollback = some "redeploy";
  healthy = some true;
}

abbrev requests : List Request
requests =
    creation "i1" "checkout" (latency ∷ [])
    ∷ advancing "t" "i1" "correlate" (by "ana")
    ∷ advancing "t" "i1" "investigate" (by "ana")
    ∷ advancing "t" "i1" "recommend" (by "ana")
    ∷ advancing "t" "i1" "approve" (by "ana")
    ∷ advancing "t" "i1" "approve" (by "ben")
    ∷ []

abbrev approved_incident : Incident
approved_incident =
    run_all
      (("t", correlation, "ana")
        ∷ ("t", investigation, "ana")
        ∷ ("t", recommendation rollout, "ana")
        ∷ ("t", approval, "ben")
        ∷ [])
      fresh

served : lookup "i1" (serve requests []) ≡ some approved_incident
unfolding serve handle lookup advance create_incident insert operation_of run correlate any
    investigate recommend lacks_plan is_empty contains approve is_author value run_all
served = refl

approved_state : approved_incident.state ≡ approved
unfolding run_all run correlate any investigate recommend lacks_plan is_empty contains approve
    is_author value
approved_state = refl

served_incident_example :
    (BehindApproval approved_incident.state
      → (any (is_foreign approved_incident.service) approved_incident.signals ≡ false)
        × Planned approved_incident.recommendation
        × Authored approved_incident.audit
        × Reviewed approved_incident.approved_by approved_incident.audit)
    × Chain "detected" approved_incident.audit (value approved_incident.state)
served_incident_example = served_incident requests "i1" approved_incident served
