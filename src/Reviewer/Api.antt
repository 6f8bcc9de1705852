-- ===== src/Reviewer/Api.antt =====
-- platforms/reviewer/api.py: the handlers of the review agent, and the requests it serves.
pub mod Change
pub mod Approval
pub mod Latch
use openmodelops.Base.{
  ℕ, zero, suc, ◌+◌, ◌-◌, ◌*◌, ◌/◌, ◌%◌, ◌^◌, ◌≤◌, ◌<◌, String, ◌<>◌, ◌≡◌, refl, sym, ap, ◌∙◌,
  subst, ◌≢◌, ◌↔◌, ◌⊎◌, inl, inr, Bool, true, false, not, ◌&&◌, ◌||◌, false≢true, Option, none,
  some, List, [], ◌∷◌, ◌++◌, map, arith, str_eq, starts_with, eq_iff, ltb, leb, nat_eq, nat_eq_iff,
  if◌then◌else◌, Bool-cases, Option-cases, Eq, ◌==◌, eq_of_nat, eq_of_string, length, take,
  length-append, keep, length-keep, any, any-append, all, All, All-append, All-take, All-keep,
  All-every, All-map, length-take, contains, is_space, is_blank, is_empty, ends_with, text_leb,
  codes, is_lower, is_digit, name_tail, is_name, repr_items, repr_list, upper, same_codes, is_part,
  lower_char, type_error, attribute_error, integration_error, Error, value_error, runtime_error,
  key_error, permission_error, concurrency_error, policy_denied, safety_violation,
  guardrail_unavailable, integrity_error, http_error, Result, ok, err, ◌>>=◌, ◌>>◌, raise_if, is_ok,
  >>=-eq-ok, Result-cases,
}
use openmodelops.Base.Decimal.{decimal, parse_decimal, parse-decimal}
use openmodelops.Base.Json.{
  Json, null, boolean, number, text, array, object, Items, no_items, item, Fields, no_fields, field,
  to_list, get_field, or_default, truthy, or_else, fields_of,
}
use openmodelops.Base.Dict.{
  Dict, keys, values, lookup, insert, has_key, lookup-nil, lookup-insert, lookup-insert_self,
  lookup-insert_ne, lookup-insert_inv, has_key_lem,
}
use openmodelops.Base.Floats.{
  Float, nan, neg_inf, pos_inf, fin, ℤ, lt_float, le_float, double, ltb_ℤ,
}
use openmodelops.Base.Audit.{Entry, Chain, Chain-append, length-audit}
use openmodelops.Integrations.Http.{Server}
use openmodelops.Security.{Identity, authorize}
use openmodelops.Reviewer.Domain.{
  ReviewDecision, ReviewSummary, InlineComment, SecurityFinding, PullRequestReview, key, decision,
}
use openmodelops.Reviewer.Service.{
  ReviewAgentConfig, ReviewService, State, open_pull_request, refresh_report, approve,
  Authorization, authorize_apply,
}

pub record OpenPullRequest : Type 0 where
  pub owner : String
  pub repository : String
  pub pull_number : ℕ
  pub head_sha : String
  pub base_branch : String
  pub from_fork : Bool
  pub changed_paths : List String

-- What the fields of the request allow
abbrev pub is_acceptable : OpenPullRequest → Bool
is_acceptable request =
    ltb 0 request.pull_number
    && leb 7 (length (codes request.head_sha))
    && leb (length (codes request.head_sha)) 64

pub record View : Type 0 where
  pub pull_request : String
  pub head_sha : String
  pub eligible_at_open : Bool
  pub decision : ReviewDecision
  pub report_fetched_at : Option String
  pub reviews : List ReviewSummary
  pub inline_comments : List (InlineComment × Option String)
  pub security_findings : List SecurityFinding

unfoldable pub view : ReviewAgentConfig → PullRequestReview → View
view config review = record {
  pull_request = key review;
  head_sha = review.head_sha;
  eligible_at_open = review.eligible_at_open;
  decision = decision config.reviewer_login config.review_request_changes review;
  report_fetched_at = review.fetched_at;
  reviews = review.summaries;
  inline_comments = map (λ c. (c, lookup c.comment_id review.approvals)) review.inline_comments;
  security_findings = review.security_findings;
}

-- The statuses that the handlers answer with. What no `except` names leaves the handler as it is.
abbrev pub as_not_found : Error → Error
as_not_found (key_error s) = http_error 404 s
as_not_found e = e

abbrev pub as_unprocessable : Error → Error
as_unprocessable (value_error s) = http_error 422 s
as_unprocessable e = as_not_found e

abbrev pub as_forbidden : Error → Error
as_forbidden (permission_error s) = http_error 403 s
as_forbidden e = as_not_found e

abbrev pub answer :
    ReviewAgentConfig → (Error → Error) → Result PullRequestReview × State → Result View × State
answer config status (ok review, s) = (ok (view config review), s)
answer config status (err e, s) = (err (status e), s)

-- A handler behind `authorize`
abbrev pub guarded : Result (Unit {0}) → Result View × State → State → Result View × State
guarded (err e) rest s = (err e, s)
guarded (ok u) rest s = rest

unfoldable pub open_pull : ReviewService → OpenPullRequest → Identity → State → Result View × State
open_pull service r identity s =
    if not (is_acceptable r)
    then (err (http_error 422 "request validation"), s)
    else let (review, after) =
        open_pull_request service r.owner r.repository r.pull_number r.head_sha r.base_branch
          r.from_fork r.changed_paths s in
      guarded (authorize identity "review-operator") (ok (view service.config review), after) s

unfoldable pub approve_comment :
    ReviewService → String → String → ℕ → ℕ → Identity → State → Result View × State
approve_comment service owner repository pull_number comment_id identity s =
    guarded (authorize identity "review-approver")
      (answer service.config as_unprocessable
        (approve owner repository pull_number comment_id identity.subject s))
      s

unfoldable pub apply_comment : String → String → ℕ → ℕ → Identity → State → Result Authorization
apply_comment owner repository pull_number comment_id identity s =
    authorize identity "review-operator"
    >> elim (authorize_apply owner repository pull_number comment_id s.store) [
      | ok a ↦ ok a
      | err e ↦ err (as_forbidden e)
    ]

pub data Request : Type 0 where
  opening : OpenPullRequest → Identity → Request
  refreshing : String → String → String → ℕ → Identity → Request
  approving : String → String → ℕ → ℕ → Identity → Request
  applying : String → String → ℕ → ℕ → Identity → Request

module _ (repr : Json → String) (server : Server) (service : ReviewService) where
  unfoldable pub refresh_pull :
      String → String → String → ℕ → Identity → State → Result View × State
  refresh_pull now owner repository pull_number identity s =
      guarded (authorize identity "review-operator")
        (answer service.config as_not_found
          (refresh_report repr server service now owner repository pull_number s))
        s

  unfoldable pub handle : Request → State → State
  unfolding open_pull refresh_pull approve_comment
  handle (opening r identity) s = (open_pull service r identity s).1
  handle (refreshing now owner repository n identity) s =
      (refresh_pull now owner repository n identity s).1
  handle (approving owner repository n comment identity) s =
      (approve_comment service owner repository n comment identity s).1
  handle (applying owner repository n comment identity) s = s

  -- The requests that the agent answers, one after the other.
  unfoldable pub serve : List Request → State → State
  unfolding handle
  serve [] s = s
  serve (r ∷ rs) s = serve rs (handle r s)
