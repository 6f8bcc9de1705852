-- ===== src/Aiops/Incidents/Methods.antt =====
-- platforms/aiops/workflow.py: what each method asks for, and what it leaves.
use openmodelops.Base.{
  String, ◌≡◌, ◌≢◌, ◌↔◌, false, Option, none, some, arith, if◌then◌else◌, eq_of_nat, eq_of_string,
  any, Error, ok, err,
}
use openmodelops.Aiops.Incidents.{
  detected, correlated, investigating, recommended, approved, executing, verifying, resolved,
  escalated, Remediation, Incident, move, Op, correlation, investigation, recommendation, approval,
  execution, verification, run, correlate, investigate, recommend, approve, execute, verify,
  lacks_plan, is_author, is_foreign,
}

-- When a call is accepted.
abbrev pub Accepts : Op → String → Incident → Type 0
Accepts correlation actor i = (i.state ≡ detected) × (any (is_foreign i.service) i.signals ≡ false)
Accepts investigation actor i = i.state ≡ correlated
Accepts (recommendation r) actor i = (i.state ≡ investigating) × (lacks_plan r ≡ false)
Accepts approval actor i = (i.state ≡ recommended) × (any (is_author actor) i.audit ≡ false)
Accepts execution actor i = (i.state ≡ approved) × (i.recommendation ≢ none)
Accepts (verification healthy) actor i = i.state ≡ executing

pub run_exact :
    (now : String) (op : Op) (actor : String) (i : Incident)
    → ((run now op actor i).0 ≡ ok tt) ↔ Accepts op actor i
unfolding run correlate investigate recommend approve execute verify
run_exact now correlation actor i = ground arith
run_exact now investigation actor i = ground arith
run_exact now (recommendation r) actor i = ground arith
run_exact now approval actor i = ground arith
run_exact now execution actor i = ground arith
run_exact now (verification healthy) actor i = ground arith

-- A method that raises leaves the incident as it was.
pub incident_refused :
    (now : String) (op : Op) (actor : String) (i : Incident) {x : Error}
    → (run now op actor i).0 ≡ err x
    → (run now op actor i).1 ≡ i
unfolding run correlate investigate recommend approve execute verify
incident_refused now correlation actor i h = ground arith
incident_refused now investigation actor i h = ground arith
incident_refused now (recommendation r) actor i h = ground arith
incident_refused now approval actor i h = ground arith
incident_refused now execution actor i h = ground arith
incident_refused now (verification healthy) actor i h = ground arith

abbrev action_of : Option Remediation → String
action_of none = ""
action_of (some r) = r.action

-- The incident that an accepted call leaves.
abbrev pub moved : String → Op → String → Incident → Incident
moved now correlation actor i = move now correlated actor "signals correlated by service" i
moved now investigation actor i = move now investigating actor "investigation started" i
moved now (recommendation r) actor i =
    move now recommended actor r.rationale (record i { recommendation = some r })
moved now approval actor i =
    move now approved actor "remediation approved" (record i { approved_by = some actor })
moved now execution actor i = move now executing actor (action_of i.recommendation) i
moved now (verification healthy) actor i =
    move now (if healthy then resolved else escalated) actor
      (if healthy then "service recovered" else "verification failed")
      (move now verifying actor "post-action verification" i)

pub run_moves :
    (now : String) (op : Op) (actor : String) (i : Incident)
    → (run now op actor i).0 ≡ ok tt
    → (run now op actor i).1 ≡ moved now op actor i
unfolding run correlate investigate recommend approve execute verify
run_moves now correlation actor i h = ground arith
run_moves now investigation actor i h = ground arith
run_moves now (recommendation r) actor i h = ground arith
run_moves now approval actor i h = ground arith
run_moves now execution actor i h = ground arith
run_moves now (verification healthy) actor i h = ground arith
