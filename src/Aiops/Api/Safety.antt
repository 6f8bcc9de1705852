-- ===== src/Aiops/Api/Safety.antt =====
-- platforms/aiops/api.py: what holds of every incident in the table of the control plane.
use openmodelops.Base.{
  String, ◌≡◌, subst, inl, inr, false, some, List, [], ◌∷◌, arith, Option-cases, eq_of_nat,
  eq_of_string, any, Result, ok, err,
}
use openmodelops.Base.Dict.{lookup, insert, lookup-insert_inv}
use openmodelops.Base.Audit.{Chain}
use openmodelops.Aiops.Incidents.{IncidentState, Incident, run, value, is_foreign}
use openmodelops.Aiops.Incidents.Invariant.{
  Inv, BehindRecommendation, BehindApproval, Planned, Authored, Reviewed, new_incident-Inv, run-Inv,
}
use openmodelops.Aiops.Api.{
  Incidents, ActionRequest, create_incident, operation_of, answer, advance, Request, creation,
  advancing, handle, serve,
}

-- Every incident of a table is one that the methods make.
abbrev pub IsSound : Incidents → Type 0
IsSound t = (id : String) (i : Incident) → lookup id t ≡ some i → Inv i

insert-IsSound :
    (id : String) (i : Incident) (t : Incidents) → Inv i → IsSound t → IsSound (insert id i t)
insert-IsSound id i t h s j k e = elim (lookup-insert_inv id j i t e) [
  | inl p ↦ subst Inv p.1 h
  | inr q ↦ s j k q
]

answer-IsSound :
    (id : String) (r : Result (Unit {0}) × Incident) (t : Incidents)
    → Inv r.1
    → IsSound t
    → IsSound (answer id r t).1
answer-IsSound id (ok u, i) t h s = insert-IsSound id i t h s
answer-IsSound id (err e, i) t h s = insert-IsSound id i t h s

advance-IsSound :
    (now id operation : String) (request : ActionRequest) (t : Incidents)
    → IsSound t
    → IsSound (advance now id operation request t).1
unfolding advance
advance-IsSound now id operation request t s = elim (Option-cases (lookup id t)) [
  | inl e ↦ rw (advance, e) s
  | inr (i, e) ↦
      rw (advance, e)
        (elim (Option-cases (operation_of operation request)) [
          | inl o ↦ rw o s
          | inr (op, o) ↦ rw o (
              answer-IsSound id (run now op request.actor i) t
                (run-Inv now op request.actor i (s id i e)) s)
        ])
]

handle-IsSound : (r : Request) (t : Incidents) → IsSound t → IsSound (handle r t)
unfolding handle create_incident
handle-IsSound (creation uuid service signals) t s =
    insert-IsSound uuid _ t (new_incident-Inv uuid service signals) s
handle-IsSound (advancing now id operation request) t s =
    advance-IsSound now id operation request t s

serve-IsSound : (rs : List Request) (t : Incidents) → IsSound t → IsSound (serve rs t)
unfolding serve
serve-IsSound [] t s = s
serve-IsSound (r ∷ rs) t s = serve-IsSound rs (handle r t) (handle-IsSound r t s)

earlier : (s : IncidentState) → BehindApproval s → BehindRecommendation s
earlier s b = ground arith

lookup_none : (id : String) (i : Incident) → lookup {V = Incident} id [] ≡ some i → ⊥
unfolding lookup
lookup_none id i e = ground arith

-- Whatever requests the control plane served from an empty table: an incident of it that is approved
-- or further has signals of its own service only, a recommendation with a risk and a way back if it
-- has side effects, an author of the recommendation in its audit and an approver who is none; and its
-- audit leads from `detected` to its state without a gap.
pub served_incident :
    (rs : List Request) (id : String) (i : Incident)
    → lookup id (serve rs []) ≡ some i
    → (BehindApproval i.state
        → (any (is_foreign i.service) i.signals ≡ false)
          × Planned i.recommendation
          × Authored i.audit
          × Reviewed i.approved_by i.audit)
      × Chain "detected" i.audit (value i.state)
served_incident rs id i e =
    let h = serve-IsSound rs [] (λ j k p. absurd (lookup_none j k p)) id i e in
    (
      (λ b. (
        h.same_service (λ d. subst BehindApproval d b),
        h.planned (earlier i.state b),
        h.authored (earlier i.state b),
        h.reviewed b,
      )),
      h.chained,
    )
