-- ===== src/Reviewer/Domain.antt =====
-- platforms/reviewer/domain.py: a pull request, the reviews fetched for it, and its approvals.
pub mod Decision
use openmodelops.Base.{
  ℕ, zero, suc, ◌+◌, ◌-◌, ◌*◌, ◌/◌, ◌%◌, ◌^◌, ◌≤◌, ◌<◌, String, ◌<>◌, ◌≡◌, refl, sym, ap, ◌∙◌,
  subst, ◌≢◌, ◌↔◌, ◌⊎◌, inl, inr, Bool, true, false, not, ◌&&◌, ◌||◌, false≢true, Option, none,
  some, List, [], ◌∷◌, ◌++◌, map, arith, str_eq, starts_with, eq_iff, ltb, leb, nat_eq, nat_eq_iff,
  if◌then◌else◌, Bool-cases, Option-cases, Eq, ◌==◌, eq_of_nat, eq_of_string, length, take,
  length-append, keep, length-keep, any, any-append, all, All, All-append, All-take, All-keep,
  All-every, All-map, length-take, contains, is_space, is_blank, is_empty, ends_with, text_leb,
  codes, is_lower, is_digit, name_tail, is_name, repr_items, repr_list, upper, same_codes, is_part,
  lower_char, type_error, attribute_error, integration_error, Error, value_error, runtime_error,
  key_error, permission_error, concurrency_error, policy_denied, safety_violation,
  guardrail_unavailable, integrity_error, http_error, Result, ok, err, ◌>>=◌, ◌>>◌, raise_if, is_ok,
  >>=-eq-ok, Result-cases,
}
use openmodelops.Base.Decimal.{decimal, parse_decimal, parse-decimal}
use openmodelops.Base.Json.{Json}
use openmodelops.Base.Dict.{
  Dict, keys, values, lookup, insert, has_key, lookup-nil, lookup-insert, lookup-insert_self,
  lookup-insert_ne, lookup-insert_inv, has_key_lem,
}
use openmodelops.Base.Floats.{
  Float, nan, neg_inf, pos_inf, fin, ℤ, lt_float, le_float, double, ltb_ℤ,
}
use openmodelops.Base.Audit.{Entry, Chain, Chain-append, length-audit}

pub data ReviewDecision : Type 0 where
  pending ready changes_requested skipped_fork : ReviewDecision

pub record ReviewSummary : Type 0 where
  pub review_id : ℕ
  pub reviewer : String
  pub state : String
  pub body : String
  pub url : String

pub record InlineComment : Type 0 where
  pub comment_id : ℕ
  pub reviewer : String
  pub path : String
  -- whatever JSON value the report holds there
  pub line : Json
  pub body : String
  pub url : String

pub record SecurityFinding : Type 0 where
  pub source : String
  pub alert_id : String
  pub severity : String
  pub path : String
  pub summary : String
  pub url : String

pub record PullRequestReview : Type 0 where
  pub owner : String
  pub repository : String
  pub pull_number : ℕ
  pub head_sha : String
  pub base_branch : String
  pub from_fork : Bool
  pub eligible_at_open : Bool
  pub changed_paths : List String
  pub summaries : List ReviewSummary
  pub inline_comments : List InlineComment
  pub security_findings : List SecurityFinding
  pub fetched_at : Option String
  pub approvals : Dict ℕ String

-- `f"{owner}/{repository}#{pull_number}"`
abbrev pub review_key : String → String → ℕ → String
review_key owner repository pull_number = owner <> "/" <> repository <> "#" <> decimal pull_number

abbrev pub key : PullRequestReview → String
key r = review_key r.owner r.repository r.pull_number

abbrev pub record_findings :
    String
    → List ReviewSummary
    → List InlineComment
    → List SecurityFinding
    → PullRequestReview
    → PullRequestReview
record_findings now summaries comments security_findings r = record r {
  summaries = summaries;
  inline_comments = comments;
  security_findings = security_findings;
  fetched_at = some now;
}

-- `max(reviews, key=lambda review: review.review_id)`: of equal ids the first.
unfoldable pub latest_of : ReviewSummary → List ReviewSummary → ReviewSummary
latest_of best [] = best
latest_of best (r ∷ rs) = latest_of (if ltb best.review_id r.review_id then r else best) rs

-- `state.upper() == word`
abbrev pub says : String → ReviewSummary → Bool
says word r = same_codes (upper (codes r.state)) (codes word)

abbrev pub decide : Bool → ReviewSummary → ReviewDecision
decide request_changes latest =
    if request_changes && says "CHANGES_REQUESTED" latest
    then changes_requested
    else if not (says "APPROVED" latest || says "COMMENTED" latest)
    then pending
    else ready

abbrev pub decide_latest : Bool → List ReviewSummary → ReviewDecision
decide_latest request_changes [] = pending
decide_latest request_changes (r ∷ rs) = decide request_changes (latest_of r rs)

unfoldable pub decision : String → Bool → PullRequestReview → ReviewDecision
decision reviewer_login request_changes r =
    if not r.eligible_at_open
    then skipped_fork
    else decide_latest request_changes (keep (λ s. s.reviewer == reviewer_login) r.summaries)

abbrev pub has_id : ℕ → InlineComment → Bool
has_id comment_id c = comment_id == c.comment_id

unfoldable pub approve_suggestion :
    ℕ → String → PullRequestReview → Result (Unit {0}) × PullRequestReview
approve_suggestion comment_id actor r =
    if not (any (has_id comment_id) r.inline_comments)
    then (err (value_error "review comment does not exist in the fetched report"), r)
    else if is_blank actor
    then (err (value_error "approval actor is required"), r)
    else (ok tt, record r { approvals = insert comment_id actor r.approvals })

unfoldable pub require_approved_suggestion : ℕ → PullRequestReview → Result String
require_approved_suggestion comment_id r = elim (lookup comment_id r.approvals) [
  | none ↦ err (permission_error "explicit approval is required before applying a suggestion")
  | some actor ↦ ok actor
]
