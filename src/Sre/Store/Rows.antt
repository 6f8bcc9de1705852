-- ===== src/Sre/Store/Rows.antt =====
-- platforms/kubernetes_sre/store.py: what the operations leave of the rows that are there.
use openmodelops.Base.{
  String, ◌≡◌, refl, sym, ap, ◌∙◌, inl, inr, Bool, true, false, ◌&&◌, false≢true, Option, none,
  some, arith, eq_iff, if◌then◌else◌, Bool-cases, Option-cases, ◌==◌, eq_of_nat, eq_of_string,
  Error, ok, err,
}
use openmodelops.Base.Dict.{
  lookup, insert, has_key, lookup-insert, lookup-insert_self, lookup-insert_ne, has_key_lem,
}
use openmodelops.Sre.Executor.{ActionProposal, Approval}
use openmodelops.Sre.Store.{
  Status, proposed, approved, executing, executed, failed, Row, SreStore, save_proposal,
  get_proposal, is_proposed, is_approved, is_executing, approve, get_approval, claim_execution,
  finish_execution,
}

-- An execution was claimed, whether or not it has ended.
abbrev pub is_claimed : Option Row → Bool
is_claimed none = false
is_claimed (some row) = elim row.status [ proposed ↦ false | approved ↦ false | _ ↦ true ]

-- What was claimed stays claimed, with the proposal and the approval that it had.
pub record Keeps (s t : SreStore) : Type 0 where
  pub proposals :
      (id : String) → is_claimed (lookup id s) ≡ true → get_proposal id t ≡ get_proposal id s
  pub approvals :
      (id : String) → is_claimed (lookup id s) ≡ true → get_approval id t ≡ get_approval id s
  pub claims : (id : String) → is_claimed (lookup id s) ≡ true → is_claimed (lookup id t) ≡ true

pub Keeps-refl : (s : SreStore) → Keeps s s
Keeps-refl s = record { proposals = λ id c. refl; approvals = λ id c. refl; claims = λ id c. c }

module _ (key : String) (row : Row) (s : SreStore) where
  other :
      is_claimed (lookup key s) ≡ false
      → (id : String) → is_claimed (lookup id s) ≡ true
      → lookup id (insert key row s) ≡ lookup id s
  other f id c =
      lookup-insert_ne key id row s
        (λ e. false≢true (sym f ∙ ap (λ j. is_claimed (lookup j s)) e ∙ c))

  -- A new key, or a row that was not claimed.
  unclaimed-Keeps : is_claimed (lookup key s) ≡ false → Keeps s (insert key row s)
  unfolding get_proposal get_approval
  unclaimed-Keeps f = record {
    proposals = λ id c. rw (get_proposal, other f id c) refl;
    approvals = λ id c. rw (get_approval, other f id c) refl;
    claims = λ id c. rw (other f id c) c;
  }

module _ (key : String) (row : Row) (status : Status) (s : SreStore)
    (e : lookup key s ≡ some row) where
  -- A row that only changes its status.
  same_proposal :
      (id : String)
      → get_proposal id (insert key (record row { status = status }) s) ≡ get_proposal id s
  unfolding get_proposal
  same_proposal id =
      ground (arith, lookup-insert key id (record row { status = status }) s, eq_iff key id)

  same_approval :
      (id : String)
      → get_approval id (insert key (record row { status = status }) s) ≡ get_approval id s
  unfolding get_approval
  same_approval id =
      ground (arith, lookup-insert key id (record row { status = status }) s, eq_iff key id)

  status-Keeps :
      is_claimed (some (record row { status = status })) ≡ true
      → Keeps s (insert key (record row { status = status }) s)
  status-Keeps c = record {
    proposals = λ id _. same_proposal id;
    approvals = λ id _. same_approval id;
    claims = λ id h.
        ground (arith, lookup-insert key id (record row { status = status }) s, eq_iff key id);
  }

pub save_proposal-Keeps :
    (digest : ActionProposal → String) (p : ActionProposal) (s : SreStore)
    → Keeps s (save_proposal digest p s).1
unfolding save_proposal
save_proposal-Keeps digest p s = elim (Bool-cases (has_key p.proposal_id s)) [
  | inl t ↦ rw t (Keeps-refl s)
  | inr f ↦ rw f (unclaimed-Keeps p.proposal_id _ s (ground (arith, has_key_lem p.proposal_id s)))
]

pub approve-Keeps : (a : Approval) (s : SreStore) → Keeps s (approve a s).1
unfolding approve lookup
approve-Keeps a s = elim (Option-cases (lookup a.proposal_id s)) [
  | inl e ↦ rw (approve, e) (Keeps-refl s)
  | inr (row, e) ↦
      rw (approve, e)
        (elim (Bool-cases (row.digest == a.proposal_digest && is_proposed row.status)) [
          | inl t ↦ rw t (unclaimed-Keeps a.proposal_id _ s (rw e (ground arith)))
          | inr f ↦ rw f (Keeps-refl s)
        ])
]

pub finish_execution-Keeps :
    (id : String) (succeeded : Bool) (s : SreStore) → Keeps s (finish_execution id succeeded s)
unfolding finish_execution lookup
finish_execution-Keeps id succeeded s = elim (Option-cases (lookup id s)) [
  | inl e ↦ rw (finish_execution, e) (Keeps-refl s)
  | inr (row, e) ↦
      rw (finish_execution, e)
        (elim (Bool-cases (is_executing row.status)) [
          | inl t ↦
              rw t (status-Keeps id row (if succeeded then executed else failed) s e (ground arith))
          | inr f ↦ rw f (Keeps-refl s)
        ])
]

-- A claim that succeeds was of a row that nobody had claimed, and leaves what is read of it.
pub record IsClaim (id : String) (s t : SreStore) : Type 0 where
  pub kept : Keeps s t
  pub unclaimed : is_claimed (lookup id s) ≡ false
  pub claimed : is_claimed (lookup id t) ≡ true
  pub proposal : get_proposal id t ≡ get_proposal id s
  pub approval : get_approval id t ≡ get_approval id s

pub claim_execution-IsClaim :
    (id : String) (s : SreStore)
    → (claim_execution id s).0 ≡ ok tt
    → IsClaim id s (claim_execution id s).1
unfolding claim_execution
claim_execution-IsClaim id s = elim (Option-cases (lookup id s)) [
  | inl e ↦ rw (claim_execution, e) (λ h. ground arith)
  | inr (row, e) ↦
      rw (claim_execution, e)
        (elim (Bool-cases (is_approved row.status)) [
          | inl t ↦ rw t (λ _. record {
            kept = status-Keeps id row executing s e refl;
            unclaimed = rw e (ground arith);
            claimed = rw (lookup-insert_self id (record row { status = executing }) s) refl;
            proposal = same_proposal id row executing s e id;
            approval = same_approval id row executing s e id;
          })
          | inr f ↦ rw f (λ h. ground arith)
        ])
]

pub claim_refused :
    (id : String) (s : SreStore) {x : Error}
    → (claim_execution id s).0 ≡ err x
    → (claim_execution id s).1 ≡ s
unfolding claim_execution
claim_refused id s h = ground arith
