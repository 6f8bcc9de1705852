-- ===== src/Aiops/Incidents/Invariant.antt =====
-- platforms/aiops/workflow.py: what holds of every incident that the methods of `Incident` make.
use openmodelops.Base.{
  ℕ, suc, String, ◌≡◌, refl, sym, ap, ◌∙◌, ◌≢◌, inl, inr, true, false, ◌||◌, Option, none, some,
  List, [], ◌∷◌, ◌++◌, arith, eq_iff, ◌==◌, eq_of_nat, eq_of_string, length, any, any-append,
  Result-cases,
}
use openmodelops.Base.Audit.{Entry, Chain, Chain-append, length-audit}
use openmodelops.Aiops.Incidents.{
  IncidentState, detected, correlated, investigating, recommended, approved, executing, verifying,
  resolved, escalated, value, Signal, Remediation, Incident, new_incident, move, Op, correlation,
  investigation, recommendation, approval, execution, verification, run, lacks_plan, is_author,
  is_foreign,
}
use openmodelops.Aiops.Incidents.Methods.{Accepts, run_exact, incident_refused, moved, run_moves}

abbrev pub BehindRecommendation : IncidentState → Type 0
BehindRecommendation detected = ⊥
BehindRecommendation correlated = ⊥
BehindRecommendation investigating = ⊥
BehindRecommendation _ = Unit

abbrev pub BehindApproval : IncidentState → Type 0
BehindApproval detected = ⊥
BehindApproval correlated = ⊥
BehindApproval investigating = ⊥
BehindApproval recommended = ⊥
BehindApproval _ = Unit

-- There is a recommendation, and it has a risk and a way back if it has side effects.
abbrev pub Planned : Option Remediation → Type 0
Planned none = ⊥
Planned (some r) = lacks_plan r ≡ false

-- The audit names an author of the recommendation.
abbrev pub Authored : List Entry → Type 0
Authored audit = (author : String) × (any (is_author author) audit ≡ true)

-- There is an approver, who is no author of the recommendation.
abbrev pub Reviewed : Option String → List Entry → Type 0
Reviewed none audit = ⊥
Reviewed (some a) audit = any (is_author a) audit ≡ false

-- How many moves lead to a state.
abbrev pub depth : IncidentState → ℕ
depth detected = 0
depth correlated = 1
depth investigating = 2
depth recommended = 3
depth approved = 4
depth executing = 5
depth verifying = 6
depth resolved = 7
depth escalated = 7

pub record Inv (i : Incident) : Type 0 where
  pub same_service : i.state ≢ detected → any (is_foreign i.service) i.signals ≡ false
  pub planned : BehindRecommendation i.state → Planned i.recommendation
  pub authored : BehindRecommendation i.state → Authored i.audit
  pub reviewed : BehindApproval i.state → Reviewed i.approved_by i.audit
  pub chained : Chain "detected" i.audit (value i.state)
  pub counted : length i.audit ≡ depth i.state

pub new_incident-Inv :
    (uuid service : String) (signals : List Signal) → Inv (new_incident uuid service signals)
unfolding value
new_incident-Inv uuid service signals = record {
  same_service = λ h. absurd (h refl);
  planned = λ h. absurd h;
  authored = λ h. absurd h;
  reviewed = λ h. absurd h;
  chained = refl;
  counted = refl;
}

Authored-append : (es : List Entry) (e : Entry) → Authored es → Authored (es ++ e ∷ [])
Authored-append es e (b, h) =
    (b, any-append (is_author b) es (e ∷ []) ∙ ap (λ t. t || any (is_author b) (e ∷ [])) h)

Reviewed-append :
    (a : Option String) (es : List Entry) (e : Entry)
    → e.to == "recommended" ≡ false
    → Reviewed a es
    → Reviewed a (es ++ e ∷ [])
unfolding any is_author value
Reviewed-append none es e n h = h
Reviewed-append (some a) es e n h = ground (arith, any-append (is_author a) es (e ∷ []))

-- A move that is neither the recommendation nor the approval.
move-Inv :
    (now : String) (target : IncidentState) (actor reason : String) (i : Incident)
    → value target == "recommended" ≡ false
    → depth target ≡ suc (depth i.state)
    → (BehindRecommendation target → BehindRecommendation i.state)
    → (BehindApproval target → BehindApproval i.state)
    → any (is_foreign i.service) i.signals ≡ false
    → Inv i
    → Inv (move now target actor reason i)
move-Inv now target actor reason i n d p q f h = record {
  same_service = λ _. f;
  planned = λ b. h.planned (p b);
  authored = λ b. Authored-append i.audit _ (h.authored (p b));
  reviewed = λ b. Reviewed-append i.approved_by i.audit _ n (h.reviewed (q b));
  chained = Chain-append "detected" (value i.state) i.audit _ h.chained refl;
  counted = omega (arith, length-audit i.audit _, h.counted);
}

recommended-Authored :
    (now : String) (r : Remediation) (actor : String) (i : Incident)
    → Authored (move now recommended actor r.rationale i).audit
unfolding any is_author value
recommended-Authored now r actor i = (
  actor,
  ground (
    arith,
    any-append (is_author actor) i.audit (
        (record {
          from = value i.state;
          to = value recommended;
          actor = actor;
          reason = r.rationale;
          at = now;
        })
        ∷ []),
    eq_iff actor actor,
  ),
)

-- In no state but the first the signals may be foreign.
same :
    (i : Incident) {s : IncidentState}
    → Inv i
    → i.state ≡ s
    → s ≢ detected
    → any (is_foreign i.service) i.signals ≡ false
same i h e n = h.same_service (λ d. n (sym e ∙ d))

verifying-Inv :
    (now actor : String) (i : Incident)
    → i.state ≡ executing
    → Inv i
    → Inv (move now verifying actor "post-action verification" i)
unfolding value
verifying-Inv now actor i a h =
    move-Inv now verifying actor _ i refl (rw a refl) (λ _. rw a tt) (λ _. rw a tt)
      (same i h a (λ d. ground arith)) h

moved-Inv :
    (now : String) (op : Op) (actor : String) (i : Incident)
    → Accepts op actor i
    → Inv i
    → Inv (moved now op actor i)
unfolding value
moved-Inv now correlation actor i a h =
    move-Inv now correlated actor _ i refl (rw a.0 refl) (λ b. absurd b) (λ b. absurd b) a.1 h
moved-Inv now investigation actor i a h =
    move-Inv now investigating actor _ i refl (rw a refl) (λ b. absurd b) (λ b. absurd b)
      (same i h a (λ e. ground arith)) h
moved-Inv now (recommendation r) actor i a h = record {
  same_service = λ _. same i h a.0 (λ e. ground arith);
  planned = λ _. a.1;
  authored = λ _. recommended-Authored now r actor i;
  reviewed = λ b. absurd b;
  chained = Chain-append "detected" (value i.state) i.audit _ h.chained refl;
  counted = omega (arith, length-audit i.audit _, h.counted, ap depth a.0);
}
moved-Inv now approval actor i a h = record {
  same_service = λ _. same i h a.0 (λ e. ground arith);
  planned = λ _. h.planned (rw a.0 tt);
  authored = λ _. Authored-append i.audit _ (h.authored (rw a.0 tt));
  reviewed = λ _. Reviewed-append (some actor) i.audit _ refl a.1;
  chained = Chain-append "detected" (value i.state) i.audit _ h.chained refl;
  counted = omega (arith, length-audit i.audit _, h.counted, ap depth a.0);
}
moved-Inv now execution actor i a h =
    move-Inv now executing actor _ i refl (rw a.0 refl) (λ _. rw a.0 tt) (λ _. rw a.0 tt)
      (same i h a.0 (λ d. ground arith)) h
moved-Inv now (verification true) actor i a h =
    move-Inv now resolved actor _ _ refl refl (λ _. tt) (λ _. tt) (same i h a (λ d. ground arith))
      (verifying-Inv now actor i a h)
moved-Inv now (verification false) actor i a h =
    move-Inv now escalated actor _ _ refl refl (λ _. tt) (λ _. tt) (same i h a (λ d. ground arith))
      (verifying-Inv now actor i a h)

pub run-Inv :
    (now : String) (op : Op) (actor : String) (i : Incident) → Inv i → Inv (run now op actor i).1
run-Inv now op actor i h = elim (Result-cases (run now op actor i).0) [
  | inl (u, e) ↦
      rw (run_moves now op actor i e) (moved-Inv now op actor i ((run_exact now op actor i).0 e) h)
  | inr (x, e) ↦ rw (incident_refused now op actor i e) h
]
