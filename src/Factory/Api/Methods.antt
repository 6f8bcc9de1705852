-- ===== src/Factory/Api/Methods.antt =====
-- The constructors make good workloads, and every method that a handler calls leaves one.
use openmodelops.Base.{
  String, ◌≡◌, sym, ap, ◌∙◌, subst, ◌⊎◌, inl, inr, Bool, true, false, not, [], ◌∷◌, arith, str_eq,
  if◌then◌else◌, Bool-cases, ◌==◌, eq_of_nat, eq_of_string, All, Error, Result, ok, err,
}
use openmodelops.Base.Dict.{Dict, insert}
use openmodelops.Base.Floats.{Float, ℤ}
use openmodelops.Security.{Identity}
use openmodelops.Factory.Spec.{
  GateResult, check_gate_result, FactorySpec, Slo, make_slo, check_spec,
}
use openmodelops.Factory.Workload.{
  FactoryWorkload, new_workload, record_gate, approve, provision, release, suspend, retire, Op, run,
  gate, approval, provisioning, releasing, suspension, retirement,
}
use openmodelops.Factory.Workload.Invariant.{run-Inv, record_gate-Inv, new_workload-Inv}
use openmodelops.Factory.Governance
use openmodelops.Factory.Governance.{check_statement}
use openmodelops.Factory.Api.{Outside, catch, advance_method}
use openmodelops.Factory.Api.Soundness.{IsGood}

insert-checked :
    (name : String) (r : GateResult) (gates : Dict String GateResult)
    → check_gate_result r ≡ ok r
    → All (λ (n, x). check_gate_result x ≡ ok x) gates
    → All (λ (n, x). check_gate_result x ≡ ok x) (insert name r gates)
unfolding insert
insert-checked name r [] c h = (c, tt)
insert-checked name r ((n, x) ∷ gates) c h = elim (Bool-cases (str_eq n name)) [
  | inl e ↦ rw e (c, h.1)
  | inr e ↦ rw e (h.0, insert-checked name r gates c h.1)
]

record_gate-parts :
    (r : GateResult) (w : FactoryWorkload)
    → ((record_gate r w).1.spec ≡ w.spec)
      × (((record_gate r w).1.gates ≡ w.gates)
          ⊎ ((record_gate r w).1.gates ≡ insert r.gate r w.gates))
unfolding record_gate
record_gate-parts r w = ground arith

pub record_gate-IsGood :
    (r : GateResult) (w : FactoryWorkload)
    → check_gate_result r ≡ ok r
    → IsGood w
    → IsGood (record_gate r w).1
record_gate-IsGood r w c g = record {
  inv = record_gate-Inv r w g.inv;
  formed = record {
    slo_checked = rw spec g.formed.slo_checked;
    spec_checked = rw spec g.formed.spec_checked;
    gates_checked = elim gates [
      | inl same ↦ rw same g.formed.gates_checked
      | inr new ↦ rw new (insert-checked r.gate r w.gates c g.formed.gates_checked)
    ];
  };
}
  where
    spec : (record_gate r w).1.spec ≡ w.spec
    spec = (record_gate-parts r w).0

    gates :
        ((record_gate r w).1.gates ≡ w.gates)
        ⊎ ((record_gate r w).1.gates ≡ insert r.gate r w.gates)
    gates = (record_gate-parts r w).1

-- The calls that no gate result comes into keep the parts that the constructors checked.
abbrev IsPlain : Op → Type 0
IsPlain (gate r) = ⊥
IsPlain _ = Unit

plain_parts :
    (now : String) (op : Op) (w : FactoryWorkload)
    → IsPlain op
    → ((run now op w).1.spec ≡ w.spec) × ((run now op w).1.gates ≡ w.gates)
unfolding run approve provision release suspend retire
plain_parts now (gate r) w p = absurd p
plain_parts now _ w p = ground arith

run-IsGood :
    (now : String) (op : Op) (w : FactoryWorkload) → IsPlain op → IsGood w → IsGood (run now op w).1
run-IsGood now op w p g =
    let (spec, gates) = plain_parts now op w p in
    record {
      inv = run-Inv now op w g.inv;
      formed = record {
        slo_checked = rw spec g.formed.slo_checked;
        spec_checked = rw spec g.formed.spec_checked;
        gates_checked = rw gates g.formed.gates_checked;
      };
    }

-- The call leaves a good workload.
pub record Leaves (r : Result (Unit {0}) × FactoryWorkload) : Type 0 where
  pub left : IsGood r.1

Leaves-if :
    (b : Bool) {x y : Result (Unit {0}) × FactoryWorkload}
    → Leaves x
    → Leaves y
    → Leaves (if b then x else y)
Leaves-if true g h = g
Leaves-if false g h = h

module _ (out : Outside) (now operation reason : String) (identity : Identity) (w : FactoryWorkload)
    (g : IsGood w) where
  call : (op : Op) → IsPlain op → Leaves (run now op w)
  call op p = record { left = run-IsGood now op w p g }

  pub advance_method-Leaves : Leaves (advance_method out now operation reason identity w)
  unfolding advance_method run
  advance_method-Leaves =
      Leaves-if (operation == "approve")
        (Leaves-if (not (Governance.evaluate out.sha256 w.spec).allowed) (record { left = g })
          (call (approval identity.subject (Governance.evaluate out.sha256 w.spec).policy_digest)
            tt))
        (Leaves-if (operation == "provision") (call (provisioning identity.subject) tt) (
          Leaves-if (operation == "release") (call (releasing identity.subject) tt) (
            Leaves-if (operation == "suspend") (call (suspension identity.subject reason) tt) (
              Leaves-if (operation == "retire") (call (retirement identity.subject reason) tt)
                (record { left = g })))))

pub catch-ok {ℓ} :
    {A : Type ℓ} (f : Error → Error) (r : Result A) {a : A} → catch f r ≡ ok a → r ≡ ok a
catch-ok f (ok a) h = h
catch-ok f (err e) h = cc

make_slo_fields :
    (a : Float) (l : ℤ) (e : Float) {s : Slo}
    → make_slo a l e ≡ ok s
    → (s.availability_target ≡ a) × (s.latency_p95_ms ≡ l) × (s.error_rate_target ≡ e)
unfolding make_slo
make_slo_fields a l e h = ground arith

pub make_slo_again :
    (a : Float) (l : ℤ) (e : Float) {s : Slo}
    → make_slo a l e ≡ ok s
    → make_slo s.availability_target s.latency_p95_ms s.error_rate_target ≡ ok s
make_slo_again a l e h = let (p, q, r) = make_slo_fields a l e h in cc (p, q, r, h)

pub ok-injective {ℓ} : {A : Type ℓ} {a b : A} → ok a ≡ ok b → a ≡ b
ok-injective h = cc

check_spec_same : (s : FactorySpec) {t : FactorySpec} → check_spec s ≡ ok t → s ≡ t
unfolding check_spec
check_spec_same s h = ground arith

check_gate_result_same : (r : GateResult) {t : GateResult} → check_gate_result r ≡ ok t → r ≡ t
unfolding check_gate_result
check_gate_result_same r h = ground arith

pub IsGood-spec :
    (uuid : String) (spec : FactorySpec) (w : FactoryWorkload)
    → make_slo spec.slo.availability_target spec.slo.latency_p95_ms spec.slo.error_rate_target
      ≡ ok spec.slo
    → (t : FactorySpec) → check_spec spec ≡ ok t
    → new_workload uuid t ≡ w
    → IsGood w
IsGood-spec uuid spec w slo t checked made =
    let same = check_spec_same spec checked in
    subst IsGood (ap (new_workload uuid) same ∙ made) (record {
      inv = new_workload-Inv uuid spec;
      formed = record {
        slo_checked = slo;
        spec_checked = checked ∙ ap ok (sym same);
        gates_checked = tt;
      };
    })

pub check_gate_result_again :
    (r : GateResult) {t : GateResult} → check_gate_result r ≡ ok t → check_gate_result t ≡ ok t
check_gate_result_again r h =
    subst (λ x. check_gate_result x ≡ ok x) (check_gate_result_same r h)
      (h ∙ ap ok (sym (check_gate_result_same r h)))
