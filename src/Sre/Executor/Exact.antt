-- ===== src/Sre/Executor/Exact.antt =====
-- platforms/kubernetes_sre/actions.py: when the executor calls the writer, and how.
use openmodelops.Base.{
  ℕ, ◌≤◌, ◌<◌, String, ◌≡◌, refl, sym, ap, ◌∙◌, ◌≢◌, ◌↔◌, ◌⊎◌, inl, inr, true, false, [], ◌∷◌,
  arith, eq_iff, eq_of_nat, eq_of_string, length, contains, is_blank, Error, Result, ok, err, ◌>>=◌,
  >>=-eq-ok, Result-cases,
}
use openmodelops.Base.Dict.{lookup}
use openmodelops.Base.Floats.{ℤ}
use openmodelops.Sre.Executor.{
  ActionType, scale_deployment, restart_deployment, ActionProposal, Approval, int_of, Call,
  replicas_of, scale_call, restart_call, call_of, Executor, check_change, perform, execute,
}

-- The conditions on the people, the place and the approval of a change.
pub record IsCleared (digest : ActionProposal → String) (executor : Executor) (now : ℕ)
    (p : ActionProposal) (a : Approval) (actor : String) : Type 0 where
  pub managed : contains executor.managed_namespaces p.namespace ≡ true
  pub reversible : is_blank p.rollback ≡ false
  pub same_id : a.proposal_id ≡ p.proposal_id
  pub same_digest : a.proposal_digest ≡ digest p
  pub approver_other : a.approved_by ≢ p.requested_by
  pub valid : now < a.expires_at
  pub not_author : actor ≢ p.requested_by
  pub not_approver : actor ≢ a.approved_by

module _ (digest : ActionProposal → String) (executor : Executor) (now : ℕ) (p : ActionProposal)
    (a : Approval) (actor : String) where
  cleared :
      check_change digest executor now p a actor ≡ ok tt → IsCleared digest executor now p a actor
  unfolding check_change
  cleared h = record {
    managed = ground arith;
    reversible = ground arith;
    same_id = ground (arith, eq_iff a.proposal_id p.proposal_id);
    same_digest = ground (arith, eq_iff a.proposal_digest (digest p));
    approver_other = ground (arith, eq_iff a.approved_by p.requested_by);
    valid = ground arith;
    not_author = ground (arith, eq_iff actor p.requested_by);
    not_approver = ground (arith, eq_iff actor a.approved_by);
  }

  accepted :
      IsCleared digest executor now p a actor → check_change digest executor now p a actor ≡ ok tt
  unfolding check_change
  accepted h = ground (
    arith,
    h.managed,
    h.reversible,
    h.same_id,
    h.same_digest,
    h.approver_other,
    h.valid,
    h.not_author,
    h.not_approver,
    eq_iff a.proposal_id p.proposal_id,
    eq_iff a.proposal_digest (digest p),
    eq_iff a.approved_by p.requested_by,
    eq_iff actor p.requested_by,
    eq_iff actor a.approved_by,
  )

  pub check_change_exact :
      (check_change digest executor now p a actor ≡ ok tt) ↔ IsCleared digest executor now p a actor
  check_change_exact = (cleared, accepted)

-- The one call that fits a proposal: a restart, or a scaling to the replicas it names.
abbrev pub Fits : ActionProposal → ActionType → Call → Type 0
Fits p scale_deployment call =
    (n : ℕ) × (n ≤ 100)
    × (int_of (lookup "replicas" p.parameters) ≡ ok (ℤ.pos n))
    × (call ≡ scale_call p n)
Fits p restart_deployment call = call ≡ restart_call p

replicas_fit : (z : ℤ) {m : ℕ} → replicas_of z ≡ ok m → (m ≤ 100) × (z ≡ ℤ.pos m)
replicas_fit (ℤ.pos n) h = ground arith
replicas_fit (ℤ.negsuc n) h = ground arith

fit_replicas : (n : ℕ) → n ≤ 100 → replicas_of (ℤ.pos n) ≡ ok n
fit_replicas n h = ground arith

ok-eq {ℓ} : {A : Type ℓ} {x y : A} → ok x ≡ ok y → x ≡ y
ok-eq h = ground arith

Fits-scale :
    (p : ActionProposal) {call : Call}
    → (int_of (lookup "replicas" p.parameters) >>= λ n. replicas_of n >>= λ m. ok (scale_call p m))
      ≡ ok call
    → Fits p scale_deployment call
Fits-scale p h =
    let (z, r, k) = >>=-eq-ok (int_of (lookup "replicas" p.parameters)) _ h in
    let (m, e, c) = >>=-eq-ok (replicas_of z) _ k in
    let (le, q) = replicas_fit z e in (m, le, r ∙ ap ok q, sym (ok-eq c))

action_cases : (t : ActionType) → (t ≡ scale_deployment) ⊎ (t ≡ restart_deployment)
action_cases scale_deployment = inl refl
action_cases restart_deployment = inr refl

perform_once : (executor : Executor) (r : Result Call) → length (perform executor r).1 ≤ 1
perform_once executor (err e) = omega arith
perform_once executor (ok call) = omega arith

performed :
    (executor : Executor) (r : Result Call) (call : Call)
    → (perform executor r).1 ≡ call ∷ []
    → r ≡ ok call
performed executor (err e) call h = ground arith
performed executor (ok c) call h = ground arith

ok-err {ℓ} : {A : Type ℓ} {x : A} {e : Error} → ok x ≡ err e → ⊥
ok-err h = ground arith

call_of-exact : (p : ActionProposal) (call : Call) → (call_of p ≡ ok call) ↔ Fits p p.action call
unfolding call_of
call_of-exact p call = elim (action_cases p.action) [
  | inl e ↦
      rw (call_of, e) ((λ h. Fits-scale p h), (λ (n, le, r, c). rw (r, fit_replicas n le, c) refl))
  | inr e ↦ rw (call_of, e) ((λ h. sym (ok-eq h)), (λ c. ap ok (sym c)))
]

-- The executor calls the writer at most once, and makes exactly this call: for a change whose
-- namespace is managed, that can be rolled back, whose approval is of the very proposal, by another
-- than the author and not expired, and for an actor who is neither, the restart of the resource or
-- its scaling to the replicas of the proposal, of which there are at most 100.
pub execute_exact :
    (digest : ActionProposal → String) (executor : Executor) (now : ℕ) (p : ActionProposal)
    (a : Approval) (actor : String)
    → let calls = (execute digest executor now p a actor).1 in
      (length calls ≤ 1)
      × ((call : Call)
          → (calls ≡ call ∷ []) ↔ (IsCleared digest executor now p a actor × Fits p p.action call))
unfolding execute
execute_exact digest executor now p a actor =
    elim (Result-cases (check_change digest executor now p a actor)) [
      | inl (u, e) ↦ rw e (
        perform_once executor (call_of p),
        λ call. (
          (λ h. (
            cleared digest executor now p a actor e,
            (call_of-exact p call).0 (performed executor (call_of p) call h),
          )),
          (λ (c, f). rw ((call_of-exact p call).1 f) refl),
        ),
      )
      | inr (x, e) ↦ rw e (
        omega arith,
        λ call. (
          (λ h. ground arith),
          (λ (c, f). absurd (ok-err (sym (accepted digest executor now p a actor c) ∙ e))),
        ),
      )
    ]
