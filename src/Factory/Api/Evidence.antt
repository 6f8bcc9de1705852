-- ===== src/Factory/Api/Evidence.antt =====
-- Evidence for a gate: what a recorded gate of a production deployment rests on.
use openmodelops.Base.{
  ℕ, String, ◌≡◌, refl, sym, subst, true, some, [], ◌∷◌, arith, starts_with, eq_of_nat,
  eq_of_string, any, Result, ok, err, >>=-eq-ok,
}
use openmodelops.Base.Dict.{lookup}
use openmodelops.Security.{Identity, authorize, has_roles}
use openmodelops.Factory.Workload.{FactoryWorkload}
use openmodelops.Factory.Governance
use openmodelops.Factory.Governance.{EvidenceStatement, check_statement, schemes}
use openmodelops.Factory.Store.{FactoryStore}
use openmodelops.Factory.Api.{
  Outside, GateRequest, Answer, get_workload, after, statement_of, verify_gate_evidence, ready_gate,
  put_gate,
}

-- The key is a trusted one, and the signature over the statement is good under it.
abbrev pub IsSigned : Outside → EvidenceStatement → GateRequest → Type 0
IsSigned out statement request =
    (key : String) × (lookup request.signing_key_id out.public_keys ≡ some key)
    × (out.accepts key request.signature statement ≡ true)

verify-IsSigned :
    (out : Outside) (statement : EvidenceStatement) (request : GateRequest)
    → Governance.verify out.accepts out.public_keys statement request.signing_key_id
        request.signature
      ≡ ok tt
    → IsSigned out statement request
unfolding Governance.verify
verify-IsSigned out statement request h = ground arith

evidence-IsSigned :
    (out : Outside) (statement : EvidenceStatement) (request : GateRequest)
    → out.production ≡ true
    → verify_gate_evidence out statement request ≡ ok tt
    → IsSigned out statement request
unfolding verify_gate_evidence
evidence-IsSigned out statement request p h = verify-IsSigned out statement request (ground arith)

after_ok {ℓ} :
    {A : Type ℓ} (r : Result A) (store : FactoryStore) (k : A → Answer) {x : FactoryWorkload × ℕ}
    → (after r store k).0 ≡ ok x
    → (a : A) × (r ≡ ok a)
unfolding after
after_ok (ok a) store k h = (a, refl)
after_ok (err e) store k h = cc

check_statement_parts :
    (s : EvidenceStatement) {t : EvidenceStatement}
    → check_statement s ≡ ok t
    → (s ≡ t)
      × (any (starts_with s.evidence_uri) schemes ≡ true)
      × (starts_with s.evidence_digest "sha256:" ≡ true)
unfolding check_statement
check_statement_parts s h = ground arith

authorized :
    (identity : Identity) (role : String) {u : Unit {0}}
    → authorize identity role ≡ ok u
    → has_roles (role ∷ []) identity ≡ true
unfolding authorize
authorized identity role h = ground arith

-- In production a gate is recorded only for a caller with the evaluator's role, with evidence under
-- a supported scheme and a SHA-256 digest, and with a signature by a trusted key over exactly the
-- statement that names the workload, the gate, the evidence and the caller.
pub production_gate :
    (out : Outside) (now id : String) (request : GateRequest) (identity : Identity)
    (store : FactoryStore) {x : FactoryWorkload × ℕ}
    → out.production ≡ true
    → (put_gate out now id request identity store).0 ≡ ok x
    → (has_roles ("gate-evaluator" ∷ []) identity ≡ true)
      × (any (starts_with request.evidence) schemes ≡ true)
      × (starts_with request.evidence_digest "sha256:" ≡ true)
      × IsSigned out (statement_of id identity request) request
unfolding put_gate ready_gate
production_gate out now id request identity store p h =
    let (_, ready) = after_ok (ready_gate out now id request identity store) store _ h in
    let (_, allowed, h₁) = >>=-eq-ok (authorize identity "gate-evaluator") _ ready in
    let (_, _, h₂) = >>=-eq-ok (get_workload id identity.tenant store) _ h₁ in
    let (s, stated, h₃) = >>=-eq-ok (check_statement (statement_of id identity request)) _ h₂ in
    let (_, verified, _) = >>=-eq-ok (verify_gate_evidence out s request) _ h₃ in
    let (same, scheme, digest) = check_statement_parts (statement_of id identity request) stated in
    (
      authorized identity "gate-evaluator" allowed,
      scheme,
      digest,
      subst (λ t. IsSigned out t request) (sym same) (evidence-IsSigned out s request p verified),
    )
