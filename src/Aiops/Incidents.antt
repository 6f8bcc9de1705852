-- ===== src/Aiops/Incidents.antt =====
-- platforms/aiops/workflow.py: an incident, its states and its methods.
pub mod Methods
pub mod Invariant
pub mod Recovery
use openmodelops.Base.{
  ℕ, zero, suc, ◌+◌, ◌-◌, ◌*◌, ◌/◌, ◌%◌, ◌^◌, ◌≤◌, ◌<◌, String, ◌<>◌, ◌≡◌, refl, sym, ap, ◌∙◌,
  subst, ◌≢◌, ◌↔◌, ◌⊎◌, inl, inr, Bool, true, false, not, ◌&&◌, ◌||◌, false≢true, Option, none,
  some, List, [], ◌∷◌, ◌++◌, map, arith, str_eq, starts_with, eq_iff, ltb, leb, nat_eq, nat_eq_iff,
  if◌then◌else◌, Bool-cases, Option-cases, Eq, ◌==◌, eq_of_nat, eq_of_string, length, take,
  length-append, keep, length-keep, any, any-append, all, All, All-append, contains, is_space,
  is_blank, is_empty, codes, is_lower, is_digit, name_tail, is_name, repr_items, repr_list, Error,
  value_error, runtime_error, key_error, permission_error, concurrency_error, policy_denied,
  safety_violation, guardrail_unavailable, integrity_error, http_error, Result, ok, err, ◌>>=◌,
  ◌>>◌, raise_if, is_ok, >>=-eq-ok, Result-cases,
}
use openmodelops.Base.Dict.{
  Dict, keys, values, lookup, insert, has_key, lookup-nil, lookup-insert, lookup-insert_self,
  lookup-insert_ne, lookup-insert_inv, has_key_lem,
}
use openmodelops.Base.Floats.{
  Float, nan, neg_inf, pos_inf, fin, ℤ, lt_float, le_float, double, ltb_ℤ,
}
use openmodelops.Base.Audit.{Entry, Chain, Chain-append, length-audit}

pub data IncidentState : Type 0 where
  detected correlated investigating recommended approved executing verifying : IncidentState
  resolved escalated : IncidentState

unfoldable pub value : IncidentState → String
value detected = "detected"
value correlated = "correlated"
value investigating = "investigating"
value recommended = "recommended"
value approved = "approved"
value executing = "executing"
value verifying = "verifying"
value resolved = "resolved"
value escalated = "escalated"

pub record Signal : Type 0 where
  pub source : String
  pub service : String
  pub severity : String
  pub fingerprint : String
  pub observed_at : String
  pub attributes : Dict String String

pub record Remediation : Type 0 where
  pub action : String
  pub target : String
  pub rationale : String
  pub risk : String
  pub rollback : String
  pub side_effecting : Bool

pub record Incident : Type 0 where
  pub service : String
  pub signals : List Signal
  pub incident_id : String
  pub state : IncidentState
  pub recommendation : Option Remediation
  pub approved_by : Option String
  pub audit : List Entry

-- `Incident(service=..., signals=...)`, where `uuid` is the generated id
abbrev pub new_incident : String → String → List Signal → Incident
new_incident uuid service signals = record {
  service = service;
  signals = signals;
  incident_id = uuid;
  state = detected;
  recommendation = none;
  approved_by = none;
  audit = [];
}

abbrev pub Method : Type 0
Method = Incident → Result (Unit {0}) × Incident

-- `_move`
abbrev pub move : String → IncidentState → String → String → Incident → Incident
move now target actor reason i = record i {
  audit =
      i.audit
      ++ (record {
        from = value i.state;
        to = value target;
        actor = actor;
        reason = reason;
        at = now;
      })
        ∷ [];
  state = target;
}

abbrev pub is_detected : IncidentState → Bool
is_detected detected = true
is_detected _ = false

abbrev pub is_correlated : IncidentState → Bool
is_correlated correlated = true
is_correlated _ = false

abbrev pub is_investigating : IncidentState → Bool
is_investigating investigating = true
is_investigating _ = false

abbrev pub is_recommended : IncidentState → Bool
is_recommended recommended = true
is_recommended _ = false

abbrev pub is_approved : IncidentState → Bool
is_approved approved = true
is_approved _ = false

abbrev pub is_executing : IncidentState → Bool
is_executing executing = true
is_executing _ = false

-- `signal.service != self.service`
abbrev pub is_foreign : String → Signal → Bool
is_foreign service signal = not (signal.service == service)

unfoldable pub correlate : String → String → Method
correlate now actor i =
    if not (is_detected i.state) || any (is_foreign i.service) i.signals
    then (err (value_error "incident signals cannot be correlated"), i)
    else (ok tt, move now correlated actor "signals correlated by service" i)

unfoldable pub investigate : String → String → Method
investigate now actor i =
    if not (is_correlated i.state)
    then (err (value_error "incident must be correlated first"), i)
    else (ok tt, move now investigating actor "investigation started" i)

abbrev pub risks : List String
risks = "low" ∷ "medium" ∷ "high" ∷ []

unfoldable pub lacks_plan : Remediation → Bool
lacks_plan r = r.side_effecting && (is_empty r.rollback || not (contains risks r.risk))

unfoldable pub recommend : String → Remediation → String → Method
recommend now remediation actor i =
    if not (is_investigating i.state)
    then (err (value_error "incident must be under investigation"), i)
    else if lacks_plan remediation
    then (err (value_error "side-effecting remediation requires risk and rollback"), i)
    else (
      ok tt,
      move now recommended actor remediation.rationale
          (record i { recommendation = some remediation }),
    )

-- `entry["actor"] == approver and entry["to"] == IncidentState.RECOMMENDED.value`
unfoldable pub is_author : String → Entry → Bool
is_author approver entry = entry.actor == approver && entry.to == value recommended

unfoldable pub approve : String → String → Method
approve now approver i =
    if not (is_recommended i.state)
    then (err (value_error "only a recommendation can be approved"), i)
    else if any (is_author approver) i.audit
    then (err (value_error "recommendation author cannot approve remediation"), i)
    else (
      ok tt,
      move now approved approver "remediation approved" (record i { approved_by = some approver }),
    )

unfoldable pub execute : String → String → Method
execute now actor i = elim i.recommendation [
  | none ↦ (err (value_error "approved remediation required"), i)
  | some remediation ↦
      if not (is_approved i.state)
      then (err (value_error "approved remediation required"), i)
      else (ok tt, move now executing actor remediation.action i)
]

unfoldable pub verify : String → Bool → String → Method
verify now healthy actor i =
    if not (is_executing i.state)
    then (err (value_error "execution must precede verification"), i)
    else (
      ok tt,
      move now (if healthy then resolved else escalated) actor
          (if healthy then "service recovered" else "verification failed")
          (move now verifying actor "post-action verification" i),
    )

-- One call of a method, as the control plane names it.
pub data Op : Type 0 where
  correlation investigation : Op
  recommendation : Remediation → Op
  approval execution : Op
  verification : Bool → Op

unfoldable pub run : String → Op → String → Method
run now correlation actor = correlate now actor
run now investigation actor = investigate now actor
run now (recommendation remediation) actor = recommend now remediation actor
run now approval actor = approve now actor
run now execution actor = execute now actor
run now (verification healthy) actor = verify now healthy actor
