-- ===== src/Reviewer/Service.antt =====
-- platforms/reviewer/service.py and the checks of config.py: the operations of the review agent on
-- the stored reviews. A state is the table with the number of requests that were sent.
use openmodelops.Base.{
  ℕ, String, Bool, not, ◌&&◌, ◌||◌, none, some, List, [], ◌∷◌, map, if◌then◌else◌, ◌==◌, eq_of_nat,
  eq_of_string, any, contains, codes, is_part, lower_char, value_error, key_error, Result, ok, err,
  ◌>>=◌,
}
use openmodelops.Base.Json.{Json}
use openmodelops.Integrations.Http.{Server}
use openmodelops.Reviewer.Domain.{
  SecurityFinding, PullRequestReview, record_findings, approve_suggestion,
  require_approved_suggestion,
}
use openmodelops.Reviewer.Store.{ReviewStore, save, get}
use openmodelops.Reviewer.Github.{GithubReviewClient, fetch_report, fetch_security_findings}

pub record PrCheck : Type 0 where
  pub name : String
  pub scope : String

unfoldable pub check_pr : PrCheck → Result PrCheck
check_pr check =
    if not (contains ("diff" ∷ "repo" ∷ []) check.scope)
    then err (value_error "PR check scope must be diff or repo")
    else ok check

pub record ReviewAgentConfig : Type 0 where
  pub target_branch : String
  pub fork_support : Bool
  pub review_request_changes : Bool
  pub reviewer_login : String
  pub pr_checks : List PrCheck

-- `"security-scanner" in check.name.lower()`
abbrev pub is_scanner : PrCheck → Bool
is_scanner check = is_part (codes "security-scanner") (map lower_char (codes check.name))

abbrev pub security_alerts_enabled : ReviewAgentConfig → Bool
security_alerts_enabled config = any is_scanner config.pr_checks

pub record ReviewService : Type 0 where
  pub config : ReviewAgentConfig
  pub github : GithubReviewClient

pub record State : Type 0 where
  pub store : ReviewStore
  pub sent : ℕ

abbrev pub with_store : ReviewStore → State → State
with_store store s = record s { store = store }

abbrev pub is_eligible : ReviewAgentConfig → String → Bool → Bool
is_eligible config base_branch from_fork =
    base_branch == config.target_branch && (not from_fork || config.fork_support)

unfoldable pub open_pull_request :
    ReviewService
    → String
    → String
    → ℕ
    → String
    → String
    → Bool
    → List String
    → State
    → PullRequestReview × State
open_pull_request service owner repository pull_number head_sha base_branch from_fork changed_paths
      s =
    elim (get owner repository pull_number s.store) [
      | some existing ↦ (existing, s)
      | none ↦
          let review : PullRequestReview = record {
            owner = owner;
            repository = repository;
            pull_number = pull_number;
            head_sha = head_sha;
            base_branch = base_branch;
            from_fork = from_fork;
            eligible_at_open = is_eligible service.config base_branch from_fork;
            changed_paths = changed_paths;
            summaries = [];
            inline_comments = [];
            security_findings = [];
            fetched_at = none;
            approvals = [];
          } in
          (review, with_store (save review s.store) s)
    ]

unfoldable pub required_review : String → String → ℕ → ReviewStore → Result PullRequestReview
required_review owner repository pull_number store = elim (get owner repository pull_number store) [
  | none ↦ err (key_error "pull request was not latched at open time")
  | some review ↦ ok review
]

-- `scope`: the whole repository where one of the scanners covers it
abbrev pub scan_scope : ReviewAgentConfig → String
scan_scope config =
    if any (λ check. is_scanner check && check.scope == "repo") config.pr_checks
    then "repo"
    else "diff"

module _ (repr : Json → String) (server : Server) where
  unfoldable pub fetch_security :
      ReviewService
      → String
      → String
      → ℕ
      → PullRequestReview
      → ℕ
      → Result (List SecurityFinding) × ℕ
  fetch_security service owner repository pull_number review sent =
      let fetched =
        fetch_security_findings repr service.github server owner repository review.changed_paths
          (scan_scope service.config) sent in
      if security_alerts_enabled service.config then fetched else (ok [], sent)

  -- The rest of `refresh_report`, for a review that was found
  unfoldable pub refresh :
      ReviewService
      → String
      → String
      → String
      → ℕ
      → PullRequestReview
      → State
      → Result PullRequestReview × State
  unfolding fetch_security
  refresh service now owner repository pull_number review s =
      let (report, sent1) =
        fetch_report repr service.github server owner repository pull_number s.sent in
      let (security, sent2) = fetch_security service owner repository pull_number review sent1 in
      if not review.eligible_at_open then (ok review, s) else elim report [
        | err e ↦ (err e, record s { sent = sent1 })
        | ok found ↦ elim security [
          | err e ↦ (err e, record s { sent = sent2 })
          | ok alerts ↦
              let updated = record_findings now found.summaries found.comments alerts review in
              (ok updated, record { store = save updated s.store; sent = sent2 })
        ]
      ]

  unfoldable pub refresh_report :
      ReviewService → String → String → String → ℕ → State → Result PullRequestReview × State
  unfolding required_review refresh
  refresh_report service now owner repository pull_number s =
      elim (required_review owner repository pull_number s.store) [
        | err e ↦ (err e, s)
        | ok review ↦ refresh service now owner repository pull_number review s
      ]

-- The object that `approve_suggestion` changed is saved only where it did not raise.
abbrev pub save_approved :
    Result (Unit {0}) × PullRequestReview → State → Result PullRequestReview × State
save_approved (err e, changed) s = (err e, s)
save_approved (ok u, changed) s = (ok changed, with_store (save changed s.store) s)

unfoldable pub approve : String → String → ℕ → ℕ → String → State → Result PullRequestReview × State
unfolding required_review
approve owner repository pull_number comment_id actor s =
    elim (required_review owner repository pull_number s.store) [
      | err e ↦ (err e, s)
      | ok review ↦ save_approved (approve_suggestion comment_id actor review) s
    ]

pub record Authorization : Type 0 where
  pub status : String
  pub comment_id : ℕ
  pub approved_by : String

unfoldable pub authorize_apply : String → String → ℕ → ℕ → ReviewStore → Result Authorization
unfolding required_review
authorize_apply owner repository pull_number comment_id store =
    required_review owner repository pull_number store >>= λ review.
    require_approved_suggestion comment_id review >>= λ actor.
    ok (record { status = "authorized"; comment_id = comment_id; approved_by = actor })
