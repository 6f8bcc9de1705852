-- ===== src/Reviewer/Api/Latch.antt =====
-- platforms/reviewer/api.py: what of a review stays as it was when the pull request was opened.
use openmodelops.Base.{
  ℕ, String, ◌≡◌, refl, sym, ◌∙◌, subst, inl, inr, none, some, List, [], ◌∷◌, arith, eq_iff,
  Bool-cases, ◌==◌, eq_of_nat, eq_of_string,
}
use openmodelops.Base.Json.{Json}
use openmodelops.Base.Dict.{Dict, insert}
use openmodelops.Integrations.Http.{Server}
use openmodelops.Reviewer.Domain.{
  ReviewSummary, InlineComment, SecurityFinding, PullRequestReview, key, review_key,
  record_findings,
}
use openmodelops.Reviewer.Store.{ReviewStore, save, get, get-saved_review}
use openmodelops.Reviewer.Service.{ReviewAgentConfig, ReviewService, State}
use openmodelops.Reviewer.Api.{Request, handle, serve}
use openmodelops.Reviewer.Api.Change.{Change, same, opened, refreshed, approved, handle-Change}
use openmodelops.Reviewer.Api.Approval.{
  Approver, IsVouched, Change-IsVouched, serve-IsVouched, empty-IsVouched,
}

-- The fields that were latched at open time agree.
pub record Latched (old new : PullRequestReview) : Type 0 where
  pub same_owner : new.owner ≡ old.owner
  pub same_repository : new.repository ≡ old.repository
  pub same_number : new.pull_number ≡ old.pull_number
  pub same_head : new.head_sha ≡ old.head_sha
  pub same_base : new.base_branch ≡ old.base_branch
  pub same_fork : new.from_fork ≡ old.from_fork
  pub same_eligible : new.eligible_at_open ≡ old.eligible_at_open
  pub same_paths : new.changed_paths ≡ old.changed_paths

Latched-self : (r : PullRequestReview) → Latched r r
Latched-self r = record {
  same_owner = refl;
  same_repository = refl;
  same_number = refl;
  same_head = refl;
  same_base = refl;
  same_fork = refl;
  same_eligible = refl;
  same_paths = refl;
}

findings-Latched :
    (now : String) (x : List ReviewSummary) (y : List InlineComment) (z : List SecurityFinding)
    (r : PullRequestReview)
    → Latched r (record_findings now x y z r)
findings-Latched now x y z r = record {
  same_owner = refl;
  same_repository = refl;
  same_number = refl;
  same_head = refl;
  same_base = refl;
  same_fork = refl;
  same_eligible = refl;
  same_paths = refl;
}

approvals-Latched :
    (d : Dict ℕ String) (r : PullRequestReview) → Latched r (record r { approvals = d })
approvals-Latched d r = record {
  same_owner = refl;
  same_repository = refl;
  same_number = refl;
  same_head = refl;
  same_base = refl;
  same_fork = refl;
  same_eligible = refl;
  same_paths = refl;
}

Latched-on : (a b c : PullRequestReview) → Latched a b → Latched b c → Latched a c
Latched-on a b c h k = record {
  same_owner = k.same_owner ∙ h.same_owner;
  same_repository = k.same_repository ∙ h.same_repository;
  same_number = k.same_number ∙ h.same_number;
  same_head = k.same_head ∙ h.same_head;
  same_base = k.same_base ∙ h.same_base;
  same_fork = k.same_fork ∙ h.same_fork;
  same_eligible = k.same_eligible ∙ h.same_eligible;
  same_paths = k.same_paths ∙ h.same_paths;
}

-- A review is found by its key alone.
get_by_key :
    (o p : String) (n : ℕ) (o' p' : String) (n' : ℕ) (store : ReviewStore)
    → review_key o p n ≡ review_key o' p' n'
    → get o p n store ≡ get o' p' n' store
unfolding get
get_by_key o p n o' p' n' store e = rw (get, e) refl

-- The review of the key is still there and latched as it was.
abbrev pub Keeps : String → String → ℕ → PullRequestReview → ReviewStore → Type 0
Keeps owner repository n old store =
    (new : PullRequestReview) × (get owner repository n store ≡ some new) × Latched old new

save-Keeps :
    (o p : String) (n : ℕ) (o' p' : String) (n' : ℕ) (old old' new : PullRequestReview)
    (store : ReviewStore)
    → get o p n store ≡ some old
    → get o' p' n' store ≡ some old'
    → key new ≡ review_key o' p' n'
    → Latched old' new
    → Keeps o p n old (save new store)
save-Keeps o p n o' p' n' old old' new store g g' k l =
    elim (Bool-cases (key new == review_key o p n)) [
      | inl b ↦
          let e : review_key o p n ≡ review_key o' p' n' =
            sym (ground (arith, eq_iff (key new) (review_key o p n))) ∙ k in
          (
            new,
            ground (arith, get-saved_review new o p n store),
            subst (λ r. Latched r new) {x = old'} {y = old}
                (ground (arith, get_by_key o p n o' p' n' store e)) l,
          )
      | inr b ↦ (old, ground (arith, get-saved_review new o p n store), Latched-self old)
    ]

save_new-Keeps :
    (o p : String) (n : ℕ) (o' p' : String) (n' : ℕ) (old new : PullRequestReview)
    (store : ReviewStore)
    → get o p n store ≡ some old
    → get o' p' n' store ≡ none
    → key new ≡ review_key o' p' n'
    → Keeps o p n old (save new store)
save_new-Keeps o p n o' p' n' old new store g g' k =
    elim (Bool-cases (key new == review_key o p n)) [
      | inl b ↦
          let e : review_key o p n ≡ review_key o' p' n' =
            sym (ground (arith, eq_iff (key new) (review_key o p n))) ∙ k in
          absurd (ground (arith, get_by_key o p n o' p' n' store e))
      | inr b ↦ (old, ground (arith, get-saved_review new o p n store), Latched-self old)
    ]

module _ (Q : Approver) (config : ReviewAgentConfig) where
  Change-Keeps :
      (o p : String) (n : ℕ) (old : PullRequestReview) (store after : ReviewStore) (r : Request)
      → IsVouched Q store
      → get o p n store ≡ some old
      → Change config store r after
      → Keeps o p n old after
  Change-Keeps o p n old store _ r v g (same _) = (old, g, Latched-self old)
  Change-Keeps o p n old store _ _ v g (opened r identity new h k a) =
      save_new-Keeps o p n r.owner r.repository r.pull_number old new store g h k
  Change-Keeps o p n old store _ _ v g (refreshed now o' p' n' identity old' x y z h e) =
      save-Keeps o p n o' p' n' old old' _ store g h (v o' p' n' old' h).0
        (findings-Latched now x y z old')
  Change-Keeps o p n old store _ _ v g (approved o' p' n' c identity old' h a i b) =
      save-Keeps o p n o' p' n' old old' _ store g h (v o' p' n' old' h).0
        (approvals-Latched (insert c identity.subject old'.approvals) old')

module _ (repr : Json → String) (server : Server) (service : ReviewService) where
  serve-Keeps :
      (Q : Approver) (rs : List Request) (s : State) (o p : String) (n : ℕ)
      (old : PullRequestReview)
      → ((k : String) (c : ℕ) (actor : String) → Q k c actor)
      → IsVouched Q s.store
      → get o p n s.store ≡ some old
      → Keeps o p n old (serve repr server service rs s).store
  unfolding serve
  serve-Keeps Q [] s o p n old q v g = (old, g, Latched-self old)
  serve-Keeps Q (r ∷ rs) s o p n old q v g =
      let c = handle-Change repr server service r s in
      let (new, h, l) =
        Change-Keeps Q service.config o p n old s.store (handle repr server service r s).store r v g
          c in
      let (last, i, m) =
        serve-Keeps Q rs (handle repr server service r s) o p n new q
          (Change-IsVouched Q service.config s.store _ r (λ k d a w. q k d a) v c) h in
      (last, i, Latched-on old new last l m)

  -- Once a pull request has been opened, no further request changes what was latched of it then: after
  -- any requests `rs`, served after any others from an empty table, its review is still there, with
  -- the same head, base, paths and eligibility.
  pub latched_at_open :
      (before rs : List Request) (s : State) (owner repository : String) (n : ℕ)
      (old : PullRequestReview)
      → s.store ≡ []
      → get owner repository n (serve repr server service before s).store ≡ some old
      → Keeps owner repository n old
          (serve repr server service rs (serve repr server service before s)).store
  latched_at_open before rs s owner repository n old z g =
      serve-Keeps (λ k c a. Unit) rs _ owner repository n old (λ k c a. tt)
        (serve-IsVouched repr server service (λ k c a. Unit) before s (λ k c a w. tt)
          (empty-IsVouched (λ k c a. Unit) s.store z))
        g
