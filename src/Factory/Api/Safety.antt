-- ===== src/Factory/Api/Safety.antt =====
-- What holds of every workload that a tenant can read, whatever requests were served before.
use openmodelops.Base.{
  ℕ, String, ◌≡◌, refl, some, List, [], ◌∷◌, arith, eq_of_nat, eq_of_string, Result, ok, err,
  >>=-eq-ok,
}
use openmodelops.Base.Audit.{Chain}
use openmodelops.Security.{Identity, authorize}
use openmodelops.Factory.Spec.{GateResult, check_gate_result, make_slo, check_spec}
use openmodelops.Factory.Workload.{FactoryWorkload, record_gate, value}
use openmodelops.Factory.Workload.Gates.{AllPass}
use openmodelops.Factory.Workload.Invariant.{PastApproval, Independent}
use openmodelops.Factory.Governance.{check_statement}
use openmodelops.Factory.Store
use openmodelops.Factory.Store.{FactoryStore}
use openmodelops.Factory.Api.{
  Outside, GateRequest, Answer, as_conflict, as_invalid, catch, get_workload, put, finish, after,
  build_workload, create_workload, gate_result, statement_of, verify_gate_evidence, spec_of,
  ready_gate, put_gate, advance_method, ready_advance, advance, Request, creation, gating,
  advancing, role_of, handle, serve, WorkloadRequest,
}
use openmodelops.Factory.Api.Soundness.{
  IsGood, IsSound, empty-IsSound, save-IsSound, create-IsSound, get-IsGood,
}
use openmodelops.Factory.Api.Methods.{
  record_gate-IsGood, advance_method-Leaves, catch-ok, make_slo_again, ok-injective, IsGood-spec,
  check_gate_result_again,
}

put-store : (w : FactoryWorkload) (r : Result ℕ × FactoryStore) → (put w r).1 ≡ r.1
unfolding put
put-store w (ok n, store) = refl
put-store w (err e, store) = refl

finish-IsSound :
    (version : ℕ) (store : FactoryStore) (r : Result (Unit {0}) × FactoryWorkload)
    → IsGood r.1
    → IsSound store
    → IsSound (finish version store r).1
unfolding finish
finish-IsSound version store (ok u, w) g s =
    rw (put-store w (Store.save w version store)) (save-IsSound w version store g s)
finish-IsSound version store (err e, w) g s = s

after-IsSound {ℓ} :
    {A : Type ℓ} (r : Result A) (store : FactoryStore) (k : A → Answer)
    → IsSound store
    → ((a : A) → r ≡ ok a → IsSound (k a).1)
    → IsSound (after r store k).1
unfolding after
after-IsSound (err e) store k s h = s
after-IsSound (ok a) store k s h = h a refl

get_workload-IsGood :
    (id tenant : String) (store : FactoryStore) (w : FactoryWorkload) (n : ℕ)
    → IsSound store
    → get_workload id tenant store ≡ ok (w, n)
    → IsGood w
unfolding get_workload
get_workload-IsGood id tenant store w n s h = (get-IsGood id tenant store w n s (ground arith)).0

build_workload-IsGood :
    (uuid : String) (identity : Identity) (r : WorkloadRequest) (w : FactoryWorkload)
    → build_workload uuid identity r ≡ ok w
    → IsGood w
unfolding build_workload
build_workload-IsGood uuid identity r w h =
    let (_, _, h₁) = >>=-eq-ok (authorize identity "factory-admin") _ h in
    let (slo, made, h₂) =
      >>=-eq-ok
        (catch as_invalid (make_slo r.availability_target r.latency_p95_ms r.error_rate_target)) _
        h₁ in
    let (spec, checked, h₃) =
      >>=-eq-ok (catch as_invalid (check_spec (spec_of identity r slo))) _ h₂ in
    IsGood-spec uuid (spec_of identity r slo) w
      (make_slo_again r.availability_target r.latency_p95_ms r.error_rate_target
        (catch-ok as_invalid _ made))
      spec (catch-ok as_invalid _ checked) (ok-injective h₃)

ready_parts :
    {g : Result (FactoryWorkload × ℕ)} (found : FactoryWorkload × ℕ) (result : GateResult)
    (w : FactoryWorkload) (n : ℕ) (r : GateResult)
    → g ≡ ok found
    → check_gate_result result ≡ ok result
    → ◌≡◌ {A = FactoryWorkload × ℕ × GateResult} (found.0, found.1, result) (w, n, r)
    → (g ≡ ok (w, n)) × (check_gate_result r ≡ ok r)
ready_parts (v, m) result w n r got checked e = (cc, cc)

ready_gate_parts :
    (out : Outside) (now id : String) (request : GateRequest) (identity : Identity)
    (store : FactoryStore) (w : FactoryWorkload) (n : ℕ) (r : GateResult)
    → ready_gate out now id request identity store ≡ ok (w, n, r)
    → (get_workload id identity.tenant store ≡ ok (w, n)) × (check_gate_result r ≡ ok r)
unfolding ready_gate check_gate_result
ready_gate_parts out now id request identity store w n r h =
    let (_, _, h₁) = >>=-eq-ok (authorize identity "gate-evaluator") _ h in
    let (found, got, h₂) = >>=-eq-ok (get_workload id identity.tenant store) _ h₁ in
    let (_, _, h₃) = >>=-eq-ok (check_statement (statement_of id identity request)) _ h₂ in
    let (_, _, h₄) = >>=-eq-ok (verify_gate_evidence out _ request) _ h₃ in
    let (result, checked, h₅) =
      >>=-eq-ok (catch as_conflict (check_gate_result (gate_result now identity request))) _ h₄ in
    ready_parts found result w n r got (check_gate_result_again _ (catch-ok as_conflict _ checked))
      (ok-injective h₅)

ready_advance_found :
    (id operation : String) (identity : Identity) (store : FactoryStore) (w : FactoryWorkload)
    (n : ℕ)
    → ready_advance id operation identity store ≡ ok (w, n)
    → get_workload id identity.tenant store ≡ ok (w, n)
unfolding ready_advance
ready_advance_found id operation identity store w n h =
    (>>=-eq-ok (authorize identity (role_of operation)) _ h).2

handle-IsSound :
    (out : Outside) (r : Request) (store : FactoryStore)
    → IsSound store
    → IsSound (handle out r store).1
unfolding handle create_workload put_gate advance
handle-IsSound out (creation uuid identity request) store s =
    after-IsSound (build_workload uuid identity request) store _ s (λ w e.
      rw put-store (create-IsSound w store (build_workload-IsGood uuid identity request w e) s))
handle-IsSound out (gating now id request identity) store s =
    after-IsSound (ready_gate out now id request identity store) store _ s (λ (w, n, r) e.
      let (found, checked) = ready_gate_parts out now id request identity store w n r e in
      finish-IsSound n store (record_gate r w)
        (record_gate-IsGood r w checked (get_workload-IsGood id identity.tenant store w n s found))
        s)
handle-IsSound out (advancing now id operation reason identity) store s =
    after-IsSound (ready_advance id operation identity store) store _ s (λ (w, n) e.
      finish-IsSound n store (advance_method out now operation reason identity w)
        (advance_method-Leaves out now operation reason identity w (
          get_workload-IsGood id identity.tenant store w n s
            (ready_advance_found id operation identity store w n e))).left
        s)

serve-IsSound :
    (out : Outside) (rs : List Request) (store : FactoryStore)
    → IsSound store
    → IsSound (serve out rs store)
unfolding serve
serve-IsSound out [] store s = s
serve-IsSound out (r ∷ rs) store s =
    serve-IsSound out rs (handle out r store).1 (handle-IsSound out r store s)

-- Whatever requests the factory served from an empty table, a workload that a tenant reads is its own
-- and has the id that was asked for; and if it is approved or further, every required gate has a
-- passing result, its approver neither owns it nor evaluated a gate of it, and its history leads
-- without a gap from `validated` to its stage.
pub served_cleared :
    (out : Outside) (rs : List Request) (id tenant : String) (w : FactoryWorkload) (n : ℕ)
    → Store.get id tenant (serve out rs []) ≡ ok (some (w, n))
    → (w.workload_id ≡ id)
      × (w.spec.tenant ≡ tenant)
      × (PastApproval w.stage
          → AllPass w.gates
            × Independent w.approved_by w.spec.owner w.gates
            × Chain "validated" w.history (value w.stage))
served_cleared out rs id tenant w n h =
    let (good, key, own) = get-IsGood id tenant _ w n (serve-IsSound out rs [] empty-IsSound) h in
    (key, own, λ p. (good.inv.cleared p, good.inv.reviewed p, good.inv.trail p))
