-- ===== src/Sre/Service/Effects.antt =====
-- platforms/kubernetes_sre/service.py: the calls that the cluster gets for a proposal.
use openmodelops.Base.{
  ℕ, suc, ◌≤◌, String, ◌≡◌, refl, sym, ap, ◌∙◌, ◌⊎◌, inl, inr, true, false, false≢true, some, List,
  [], ◌∷◌, arith, eq_iff, if◌then◌else◌, Bool-cases, ◌==◌, eq_of_nat, eq_of_string, length, All, ok,
  is_ok, Result-cases,
}
use openmodelops.Base.Dict.{lookup}
use openmodelops.Sre.Executor
use openmodelops.Sre.Executor.{ActionProposal, Approval, Call, Executor, new_approval}
use openmodelops.Sre.Executor.Exact.{IsCleared, Fits, execute_exact}
use openmodelops.Sre.Store.{SreStore, get_proposal, get_approval, claim_execution}
use openmodelops.Sre.Store.Rows.{
  is_claimed, Keeps, IsClaim, finish_execution-Keeps, claim_execution-IsClaim, claim_refused,
}
use openmodelops.Sre.Service.{Effect, System, carry_out, execute}

-- How often the cluster was called for a proposal.
unfoldable pub count : String → List Effect → ℕ
count id [] = 0
count id (e ∷ es) = let rest = count id es in if e.proposal_id == id then suc rest else rest

pub call_cases :
    (calls : List Call) → length calls ≤ 1 → (calls ≡ []) ⊎ ((call : Call) × (calls ≡ call ∷ []))
call_cases [] h = inl refl
call_cases (c ∷ []) h = inr (c, refl)
call_cases (c ∷ d ∷ calls) h = ground arith

-- The table shows the proposal and the approval that cleared a call at the time it was made.
abbrev pub IsJustified : (ActionProposal → String) → Executor → SreStore → Effect → Type 0
IsJustified digest executor store e =
    (p : ActionProposal) × (a : Approval) × (get_proposal e.proposal_id store ≡ ok p)
    × (get_approval e.proposal_id store ≡ ok a)
    × IsCleared digest executor e.called_at p a e.actor
    × Fits p p.action e.call

-- An invariant of the service with this executor.
pub record Inv (digest : ActionProposal → String) (executor : Executor) (y : System) : Type 0 where
  pub justified : All (IsJustified digest executor y.store) y.log
  pub claimed : All (λ e. is_claimed (lookup e.proposal_id y.store) ≡ true) y.log
  pub once : (id : String) → count id y.log ≤ 1
  pub unused : (id : String) → is_claimed (lookup id y.store) ≡ false → count id y.log ≡ 0

module _ (digest : ActionProposal → String) (executor : Executor) where
  Keeps-IsJustified :
      (s t : SreStore) (es : List Effect)
      → Keeps s t
      → All (λ e. is_claimed (lookup e.proposal_id s) ≡ true) es
      → All (IsJustified digest executor s) es
      → All (IsJustified digest executor t) es
        × All (λ e. is_claimed (lookup e.proposal_id t) ≡ true) es
  Keeps-IsJustified s t [] k c h = (tt, tt)
  Keeps-IsJustified s t (e ∷ es) k (c, cs) ((p, a, g, b, i, f), hs) =
      let (js, ds) = Keeps-IsJustified s t es k cs hs in
      (
        ((p, a, k.proposals e.proposal_id c ∙ g, k.approvals e.proposal_id c ∙ b, i, f), js),
        (k.claims e.proposal_id c, ds),
      )

  pub Keeps-Inv :
      (s t : SreStore) (log : List Effect)
      → Keeps s t
      → Inv digest executor (record { store = s; log = log })
      → Inv digest executor (record { store = t; log = log })
  Keeps-Inv s t log k h =
      let (js, cs) = Keeps-IsJustified s t log k h.claimed h.justified in
      record {
        justified = js;
        claimed = cs;
        once = h.once;
        unused = λ id c. elim (Bool-cases (is_claimed (lookup id s))) [
          | inl d ↦ absurd (false≢true (sym c ∙ k.claims id d))
          | inr d ↦ h.unused id d
        ];
      }

  -- A call that the executor makes between a claim and its end.
  called-Inv :
      (s t : SreStore) (log : List Effect) (now : ℕ) (id actor : String) (call : Call)
      → count id log ≡ 0
      → is_claimed (lookup id t) ≡ true
      → IsJustified digest executor t
          (record { proposal_id = id; called_at = now; actor = actor; call = call })
      → Inv digest executor (record { store = t; log = log })
      → Inv digest executor (record {
        store = t;
        log = (record { proposal_id = id; called_at = now; actor = actor; call = call }) ∷ log;
      })
  unfolding count
  called-Inv s t log now id actor call z c j h = record {
    justified = (j, h.justified);
    claimed = (c, h.claimed);
    once = λ i. ground (arith, eq_iff id i, h.once i, ap (λ k. count k log));
    unused = λ i f. ground (arith, eq_iff id i, h.unused i);
  }

  -- The end of an execution that was claimed.
  carry_out-Inv :
      (now : ℕ) (id actor : String) (p : ActionProposal) (a : Approval) (s t : SreStore)
      (log : List Effect)
      → IsClaim id s t
      → get_proposal id s ≡ ok p
      → get_approval id s ≡ ok a
      → Inv digest executor (record { store = s; log = log })
      → Inv digest executor
          (carry_out digest executor now id p a actor (record { store = t; log = log })).1
  unfolding carry_out
  carry_out-Inv now id actor p a s t log c g b h =
      let (result, calls) = Executor.execute digest executor now p a actor in
      let (once, exact) = execute_exact digest executor now p a actor in
      elim (call_cases calls once) [
        | inl e ↦ rw e (
            Keeps-Inv t _ log (finish_execution-Keeps id (is_ok result) t)
              (Keeps-Inv s t log c.kept h))
        | inr (call, e) ↦
            let (i, f) = (exact call).0 e in
            rw e (
              Keeps-Inv t _ _ (finish_execution-Keeps id (is_ok result) t) (
                called-Inv s t log now id actor call (h.unused id c.unclaimed) c.claimed
                  (p, a, c.proposal ∙ g, c.approval ∙ b, i, f) (Keeps-Inv s t log c.kept h)))
      ]

  module _ (now : ℕ) (id actor : String) (y : System) (h : Inv digest executor y) where
    claiming-Inv :
        (p : ActionProposal) (a : Approval)
        → get_proposal id y.store ≡ ok p
        → get_approval id y.store ≡ ok a
        → Inv digest executor
            (execute (record { digest = digest; executor = some executor }) now id actor y).1
    unfolding execute
    claiming-Inv p a g b = elim (Result-cases (claim_execution id y.store).0) [
      | inl (u, e) ↦
          rw (execute, g, b, e)
            (carry_out-Inv now id actor p a y.store _ y.log (claim_execution-IsClaim id y.store e) g
              b h)
      | inr (x, e) ↦ rw (execute, g, b, e, claim_refused id y.store e) h
    ]

    pub execute-Inv :
        Inv digest executor
          (execute (record { digest = digest; executor = some executor }) now id actor y).1
    unfolding execute
    execute-Inv = elim (Result-cases (get_proposal id y.store)) [
      | inl (p, g) ↦ elim (Result-cases (get_approval id y.store)) [
        | inl (a, b) ↦ claiming-Inv p a g b
        | inr (x, b) ↦ rw (execute, g, b) h
      ]
      | inr (x, g) ↦ rw (execute, g) h
    ]
