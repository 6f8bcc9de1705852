-- ===== src/Reviewer/Api/Approval.antt =====
-- platforms/reviewer/api.py: who approved a suggestion that may be applied, and what of a review
-- stays as it was when the pull request was opened.
use openmodelops.Base.{
  ℕ, String, ◌≡◌, sym, subst, ◌⊎◌, inl, inr, false, some, List, [], ◌∷◌, arith, eq_iff, Bool-cases,
  Option-cases, ◌==◌, eq_of_nat, eq_of_string, is_blank, ok,
}
use openmodelops.Base.Json.{Json}
use openmodelops.Base.Dict.{lookup, lookup-nil, lookup-insert_inv}
use openmodelops.Integrations.Http.{Server}
use openmodelops.Reviewer.Domain.{PullRequestReview, key, review_key, require_approved_suggestion}
use openmodelops.Reviewer.Store.{ReviewStore, save, get, get-saved_review}
use openmodelops.Reviewer.Service.{
  ReviewAgentConfig, ReviewService, State, required_review, Authorization, authorize_apply,
}
use openmodelops.Reviewer.Api.{Request, approving, handle, serve}
use openmodelops.Reviewer.Api.Change.{
  Granted, Change, same, opened, refreshed, approved, handle-Change,
}

-- Who approved which comment of which review
abbrev pub Approver : Type 1
Approver = String → ℕ → String → Type 0

-- The reviews of a table stand under their own keys, and each approval in it has an origin.
abbrev pub IsVouched : Approver → ReviewStore → Type 0
IsVouched Q store =
    (owner repository : String) (n : ℕ) (r : PullRequestReview)
    → get owner repository n store ≡ some r
    → (key r ≡ review_key owner repository n)
      × ((comment : ℕ) (actor : String)
          → lookup comment r.approvals ≡ some actor
          → Q (key r) comment actor)

-- The approval that a request asks for
abbrev pub Approves : Request → Approver
Approves (approving owner repository n comment identity) key c actor =
    (review_key owner repository n ≡ key)
    × (comment ≡ c)
    × (identity.subject ≡ actor)
    × Granted identity "review-approver"
    × (is_blank actor ≡ false)
Approves r key c actor = ⊥

-- What the saved review `r` gives to the table's invariant, at its own key
abbrev Vouches : Approver → PullRequestReview → String → Type 0
Vouches Q r k =
    (key r ≡ k)
    × ((comment : ℕ) (actor : String)
        → lookup comment r.approvals ≡ some actor
        → Q (key r) comment actor)

save-IsVouched :
    (Q : Approver) (r : PullRequestReview) (store : ReviewStore)
    → ((comment : ℕ) (actor : String)
        → lookup comment r.approvals ≡ some actor
        → Q (key r) comment actor)
    → IsVouched Q store
    → IsVouched Q (save r store)
save-IsVouched Q r store h v owner repository n x e =
    elim (Bool-cases (key r == review_key owner repository n)) [
      | inl b ↦
          subst (λ (y : PullRequestReview). Vouches Q y (review_key owner repository n)) {x = r}
            {y = x} (ground (arith, get-saved_review r owner repository n store))
            (ground (arith, eq_iff (key r) (review_key owner repository n)), h)
      | inr b ↦ v owner repository n x (ground (arith, get-saved_review r owner repository n store))
    ]

pub Change-IsVouched :
    (Q : Approver) (config : ReviewAgentConfig) (store after : ReviewStore) (r : Request)
    → ((k : String) (c : ℕ) (actor : String) → Approves r k c actor → Q k c actor)
    → IsVouched Q store
    → Change config store r after
    → IsVouched Q after
Change-IsVouched Q config store _ r q v (same _) = v
Change-IsVouched Q config store _ _ q v (opened r identity new g k a) =
    save-IsVouched Q new store (λ c actor e. absurd (ground (arith, lookup-nil {V = String} c))) v
Change-IsVouched Q config store _ _ q v (refreshed now owner repository n identity old x y z g e) =
    save-IsVouched Q _ store (v owner repository n old g).1 v
Change-IsVouched Q config store _ _ q v (approved owner repository n comment identity old g a i b) =
    save-IsVouched Q _ store
      (λ c actor e. elim (lookup-insert_inv comment c identity.subject old.approvals e) [
        | inl p ↦
            q (key old) c actor (
              sym (v owner repository n old g).0,
              p.0,
              p.1,
              a,
              subst (λ t. is_blank t ≡ false) p.1 b,
            )
        | inr p ↦ (v owner repository n old g).1 c actor p
      ])
      v

-- One of the requests approves the comment.
abbrev pub Within : List Request → Approver
Within [] key c actor = ⊥
Within (r ∷ rs) key c actor = Approves r key c actor ⊎ Within rs key c actor

no_review :
    (owner repository : String) (n : ℕ) (r : PullRequestReview)
    → get owner repository n [] ≡ some r
    → ⊥
unfolding get lookup
no_review owner repository n r e = ground arith

pub empty-IsVouched : (Q : Approver) (store : ReviewStore) → store ≡ [] → IsVouched Q store
empty-IsVouched Q store z = subst (IsVouched Q) (sym z) (λ o p m r e. absurd (no_review o p m r e))

module _ (repr : Json → String) (server : Server) (service : ReviewService) where
  pub serve-IsVouched :
      (Q : Approver) (rs : List Request) (s : State)
      → ((k : String) (c : ℕ) (actor : String) → Within rs k c actor → Q k c actor)
      → IsVouched Q s.store
      → IsVouched Q (serve repr server service rs s).store
  unfolding serve
  serve-IsVouched Q [] s q v = v
  serve-IsVouched Q (r ∷ rs) s q v =
      serve-IsVouched Q rs (handle repr server service r s) (λ k c actor w. q k c actor (inr w))
        (Change-IsVouched Q service.config s.store _ r (λ k c actor w. q k c actor (inl w)) v
          (handle-Change repr server service r s))

  -- Whatever requests the review agent served from an empty table: where it authorizes that a suggestion
  -- is applied, one of those requests approved this comment of this pull request, and it came from the
  -- named actor, whose name is not blank, in the role of a review approver.
  pub authorized_suggestion :
      (rs : List Request) (s : State) (owner repository : String) (n comment : ℕ)
      {a : Authorization}
      → s.store ≡ []
      → authorize_apply owner repository n comment (serve repr server service rs s).store ≡ ok a
      → (a.comment_id ≡ comment) × Within rs (review_key owner repository n) comment a.approved_by
  unfolding authorize_apply required_review require_approved_suggestion
  authorized_suggestion rs s owner repository n comment {a} z h =
      let after = (serve repr server service rs s).store in
      let v =
        serve-IsVouched (Within rs) rs s (λ k c actor w. w)
          (empty-IsVouched (Within rs) s.store z) in
      elim (Option-cases (get owner repository n after)) [
        | inl e ↦ absurd (ground arith)
        | inr (r, e) ↦ elim (Option-cases (lookup comment r.approvals)) [
          | inl f ↦ absurd (ground arith)
          | inr (actor, f) ↦ (
            ground arith,
            subst (λ t. Within rs (review_key owner repository n) comment t) {x = actor}
                {y = a.approved_by} (ground arith)
                (subst (λ k. Within rs k comment actor) (v owner repository n r e).0
                  ((v owner repository n r e).1 comment actor f)),
          )
        ]
      ]
