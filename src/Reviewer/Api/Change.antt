-- ===== src/Reviewer/Api/Change.antt =====
-- platforms/reviewer/api.py: what one request can do to the table of the reviews.
use openmodelops.Base.{
  ℕ, String, ◌≡◌, refl, ◌⊎◌, inl, inr, true, false, none, some, List, [], Bool-cases, Option-cases,
  eq_of_nat, eq_of_string, any, is_blank, Error, Result, ok, err, Result-cases,
}
use openmodelops.Base.Json.{Json}
use openmodelops.Base.Dict.{insert}
use openmodelops.Integrations.Http.{Server}
use openmodelops.Security.{Identity, authorize}
use openmodelops.Reviewer.Domain.{
  ReviewSummary, InlineComment, SecurityFinding, PullRequestReview, key, review_key,
  record_findings, has_id, approve_suggestion,
}
use openmodelops.Reviewer.Store.{ReviewStore, save, get}
use openmodelops.Reviewer.Github.{fetch_report}
use openmodelops.Reviewer.Service.{
  ReviewAgentConfig, ReviewService, State, save_approved, open_pull_request, required_review,
  fetch_security, refresh, refresh_report, approve,
}
use openmodelops.Reviewer.Api.{
  answer, as_not_found, as_unprocessable, OpenPullRequest, is_acceptable, open_pull, refresh_pull,
  approve_comment, Request, opening, refreshing, approving, applying, handle,
}

-- Granted by `authorize`
abbrev pub Granted : Identity → String → Type 0
Granted identity role = authorize identity role ≡ ok tt

-- The table after a request: it stayed, or one review was saved.
pub data Change (config : ReviewAgentConfig) (store : ReviewStore)
    : Request → ReviewStore → Type 0 where
  same : (r : Request) → Change config store r store
  opened :
      (r : OpenPullRequest) (identity : Identity) (new : PullRequestReview)
      → get r.owner r.repository r.pull_number store ≡ none
      → key new ≡ review_key r.owner r.repository r.pull_number
      → new.approvals ≡ []
      → Change config store (opening r identity) (save new store)
  refreshed :
      (now owner repository : String) (n : ℕ) (identity : Identity) (old : PullRequestReview)
      (summaries : List ReviewSummary) (comments : List InlineComment)
      (alerts : List SecurityFinding)
      → get owner repository n store ≡ some old
      → old.eligible_at_open ≡ true
      → Change config store
          (refreshing now owner repository n identity)
          (save (record_findings now summaries comments alerts old) store)
  approved :
      (owner repository : String) (n comment : ℕ) (identity : Identity) (old : PullRequestReview)
      → get owner repository n store ≡ some old
      → Granted identity "review-approver"
      → any (has_id comment) old.inline_comments ≡ true
      → is_blank identity.subject ≡ false
      → Change config store
          (approving owner repository n comment identity)
          (save (record old { approvals = insert comment identity.subject old.approvals }) store)

answer-state :
    (config : ReviewAgentConfig) (status : Error → Error) (x : Result PullRequestReview × State)
    → (answer config status x).1 ≡ x.1
answer-state config status (ok review, s) = refl
answer-state config status (err e, s) = refl

approve_suggestion-cases :
    (comment : ℕ) (actor : String) (r : PullRequestReview)
    → ((e : Error) × (approve_suggestion comment actor r ≡ (err e, r)))
      ⊎ ((any (has_id comment) r.inline_comments ≡ true)
          × (is_blank actor ≡ false)
          × (approve_suggestion comment actor r
              ≡ (ok tt, record r { approvals = insert comment actor r.approvals })))
unfolding approve_suggestion
approve_suggestion-cases comment actor r =
    elim (Bool-cases (any (has_id comment) r.inline_comments)) [
      | inr e ↦ rw (approve_suggestion, e) (inl (_, refl))
      | inl e ↦ elim (Bool-cases (is_blank actor)) [
        | inl b ↦ rw (approve_suggestion, e, b) (inl (_, refl))
        | inr b ↦ rw (approve_suggestion, e, b) (inr (refl, refl, refl))
      ]
    ]

module _ (repr : Json → String) (server : Server) (service : ReviewService) where
  open-Change :
      (r : OpenPullRequest) (identity : Identity) (s : State)
      → Change service.config s.store (opening r identity) (open_pull service r identity s).1.store
  unfolding open_pull open_pull_request
  open-Change r identity s = elim (Bool-cases (is_acceptable r)) [
    | inr e ↦ rw (open_pull, e) (same _)
    | inl e ↦
        rw (open_pull, e)
          (elim (Result-cases (authorize identity "review-operator")) [
            | inr (x, a) ↦ rw a (same _)
            | inl (x, a) ↦
                rw a (elim (Option-cases (get r.owner r.repository r.pull_number s.store)) [
                  | inl g ↦ rw (open_pull_request, g) (opened r identity _ g refl refl)
                  | inr (old, g) ↦ rw (open_pull_request, g) (same _)
                ])
          ])
  ]

  refresh-Change :
      (now owner repository : String) (n : ℕ) (identity : Identity) (old : PullRequestReview)
      (s : State)
      → get owner repository n s.store ≡ some old
      → Change service.config s.store
          (refreshing now owner repository n identity)
          (refresh repr server service now owner repository n old s).1.store
  unfolding refresh
  refresh-Change now owner repository n identity old s g = elim (Bool-cases old.eligible_at_open) [
    | inr e ↦ rw (refresh, e) (same _)
    | inl e ↦
        rw (refresh, e)
          (let (report, sent1) =
              fetch_report repr service.github server owner repository n s.sent in
            elim (Result-cases report) [
              | inr (x, a) ↦ rw a (same _)
              | inl (found, a) ↦
                  rw a
                    (elim (Result-cases
                      (fetch_security repr server service owner repository n old sent1).0) [
                        | inr (x, b) ↦ rw b (same _)
                        | inl (alerts, b) ↦ rw b (
                            refreshed now owner repository n identity old found.summaries
                              found.comments alerts g e)
                      ])
            ])
  ]

  refresh_pull-Change :
      (now owner repository : String) (n : ℕ) (identity : Identity) (s : State)
      → Change service.config s.store
          (refreshing now owner repository n identity)
          (refresh_pull repr server service now owner repository n identity s).1.store
  unfolding refresh_pull refresh_report required_review
  refresh_pull-Change now owner repository n identity s =
      elim (Result-cases (authorize identity "review-operator")) [
        | inr (x, a) ↦ rw (refresh_pull, a) (same _)
        | inl (x, a) ↦
            rw
              (
                refresh_pull,
                a,
                answer-state service.config as_not_found
                    (refresh_report repr server service now owner repository n s),
              )
              (elim (Option-cases (get owner repository n s.store)) [
                | inl g ↦ rw (refresh_report, required_review, g) (same _)
                | inr (old, g) ↦
                    rw (refresh_report, required_review, g)
                      (refresh-Change now owner repository n identity old s g)
              ])
      ]

  approved_or_same :
      (owner repository : String) (n comment : ℕ) (identity : Identity) (s : State)
      (old : PullRequestReview)
      → get owner repository n s.store ≡ some old
      → Granted identity "review-approver"
      → Change service.config s.store
          (approving owner repository n comment identity)
          (save_approved (approve_suggestion comment identity.subject old) s).1.store
  approved_or_same owner repository n comment identity s old g a =
      elim (approve_suggestion-cases comment identity.subject old) [
        | inl (e, k) ↦ rw k (same _)
        | inr (i, b, k) ↦ rw k (approved owner repository n comment identity old g a i b)
      ]

  approve-Change :
      (owner repository : String) (n comment : ℕ) (identity : Identity) (s : State)
      → Change service.config s.store
          (approving owner repository n comment identity)
          (approve_comment service owner repository n comment identity s).1.store
  unfolding approve_comment approve required_review approve_suggestion
  approve-Change owner repository n comment identity s =
      elim (Result-cases (authorize identity "review-approver")) [
        | inr (x, a) ↦ rw (approve_comment, a) (same _)
        | inl (x, a) ↦
            rw
              (
                approve_comment,
                a,
                answer-state service.config as_unprocessable
                    (approve owner repository n comment identity.subject s),
              )
              (elim (Option-cases (get owner repository n s.store)) [
                | inl g ↦ rw (approve, required_review, g) (same _)
                | inr (old, g) ↦
                    rw (approve, required_review, g)
                      (approved_or_same owner repository n comment identity s old g a)
              ])
      ]

  pub handle-Change :
      (r : Request) (s : State)
      → Change service.config s.store r (handle repr server service r s).store
  unfolding handle
  handle-Change (opening r identity) s = open-Change r identity s
  handle-Change (refreshing now owner repository n identity) s =
      refresh_pull-Change now owner repository n identity s
  handle-Change (approving owner repository n comment identity) s =
      approve-Change owner repository n comment identity s
  handle-Change (applying owner repository n comment identity) s = same _
