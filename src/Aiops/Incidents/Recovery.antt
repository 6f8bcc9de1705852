-- ===== src/Aiops/Incidents/Recovery.antt =====
-- platforms/aiops/workflow.py: histories of calls, and the way from detection to recovery.
use openmodelops.Base.{
  String, ◌≡◌, refl, ◌≢◌, Bool, false, some, List, [], ◌∷◌, arith, eq_iff, if◌then◌else◌, eq_of_nat,
  eq_of_string, length, any,
}
use openmodelops.Base.Audit.{Chain}
use openmodelops.Aiops.Incidents.{
  IncidentState, detected, resolved, escalated, value, Signal, Remediation, Incident, new_incident,
  Op, correlation, investigation, recommendation, approval, execution, verification, run, correlate,
  investigate, recommend, approve, execute, verify, lacks_plan, is_author, is_foreign,
}
use openmodelops.Aiops.Incidents.Invariant.{
  Inv, BehindRecommendation, BehindApproval, Planned, Authored, Reviewed, depth, new_incident-Inv,
  run-Inv,
}

-- A call is the clock's reading, the method and the actor; one that raises is caught.
unfoldable pub run_all : List (String × Op × String) → Incident → Incident
run_all [] i = i
run_all ((now, op, actor) ∷ calls) i = run_all calls (run now op actor i).1

pub run_all-Inv :
    (calls : List (String × Op × String)) (i : Incident) → Inv i → Inv (run_all calls i)
unfolding run_all
run_all-Inv [] i h = h
run_all-Inv ((now, op, actor) ∷ calls) i h = run_all-Inv calls _ (run-Inv now op actor i h)

-- The calls that lead from a new incident to the end, by an operator and a reviewer.
abbrev pub recovery : String → Remediation → Bool → String → String → List (String × Op × String)
recovery now r healthy operator reviewer =
    (now, correlation, operator)
    ∷ (now, investigation, operator)
    ∷ (now, recommendation r, operator)
    ∷ (now, approval, reviewer)
    ∷ (now, execution, operator)
    ∷ (now, verification healthy, operator)
    ∷ []

-- A new incident can always be brought to its end: if its signals are of its service and the
-- remediation has a plan, an operator and a second person as the approver lead it in six calls to
-- `resolved` if the service is healthy afterwards, and to `escalated` if not.
pub recovery_ends :
    (uuid service now operator reviewer : String) (signals : List Signal) (r : Remediation)
    (healthy : Bool)
    → any (is_foreign service) signals ≡ false
    → lacks_plan r ≡ false
    → operator ≢ reviewer
    → let i =
        run_all (recovery now r healthy operator reviewer) (new_incident uuid service signals) in
      (i.state ≡ (if healthy then resolved else escalated))
      × (i.recommendation ≡ some r)
      × (i.approved_by ≡ some reviewer)
unfolding run_all run correlate investigate recommend approve execute verify any is_author value
recovery_ends uuid service now operator reviewer signals r healthy f p n =
    ground (arith, eq_iff operator reviewer)

-- What an incident shows whatever calls it has had: past the detection its signals are all of its
-- service; past the recommendation that has a plan if it has side effects; past the approval its
-- approver is no author of the recommendation; and the audit leads from `detected` to the state
-- without a gap, with as many entries as the state is moves away.
pub incident_history :
    (uuid service : String) (signals : List Signal) (calls : List (String × Op × String))
    → let i = run_all calls (new_incident uuid service signals) in
      (i.state ≢ detected → any (is_foreign i.service) i.signals ≡ false)
      × (BehindRecommendation i.state → Planned i.recommendation × Authored i.audit)
      × (BehindApproval i.state → Reviewed i.approved_by i.audit)
      × Chain "detected" i.audit (value i.state)
      × (length i.audit ≡ depth i.state)
incident_history uuid service signals calls =
    let h = run_all-Inv calls _ (new_incident-Inv uuid service signals) in
    (h.same_service, (λ b. (h.planned b, h.authored b)), h.reviewed, h.chained, h.counted)

abbrev pub IsClosed : IncidentState → Type 0
IsClosed resolved = Unit
IsClosed escalated = Unit
IsClosed _ = ⊥

closed_run :
    (now : String) (op : Op) (actor : String) (i : Incident)
    → IsClosed i.state
    → (run now op actor i).1 ≡ i
unfolding run correlate investigate recommend approve execute verify
closed_run now correlation actor i c = ground arith
closed_run now investigation actor i c = ground arith
closed_run now (recommendation r) actor i c = ground arith
closed_run now approval actor i c = ground arith
closed_run now execution actor i c = ground arith
closed_run now (verification healthy) actor i c = ground arith

-- A closed incident refuses every further call, so that no history of calls changes it.
pub closed_final :
    (i : Incident) (calls : List (String × Op × String)) → IsClosed i.state → run_all calls i ≡ i
unfolding run_all
closed_final i [] c = refl
closed_final i ((now, op, actor) ∷ calls) c =
    rw (closed_run now op actor i c) (closed_final i calls c)
