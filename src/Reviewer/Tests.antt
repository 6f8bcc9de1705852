-- ===== src/Reviewer/Tests.antt =====
-- platforms/reviewer: runs at concrete inputs.
use openmodelops.Base.{
  is_prefix, ℕ, ◌+◌, ◌≤◌, String, ◌≡◌, refl, ◌↔◌, true, false, none, some, List, [], ◌∷◌, nat_eq,
  if◌then◌else◌, ◌==◌, eq_of_nat, eq_of_string, keep, any, all, contains, is_space, is_blank,
  is_empty, codes, upper, same_codes, is_part, ok,
}
use openmodelops.Base.Decimal.{decimal, parse_decimal}
use openmodelops.Base.Json.{
  Json, number, text, array, object, no_items, item, no_fields, field, get_field,
}
use openmodelops.Base.Dict.{lookup, insert}
use openmodelops.Base.Floats.{double}
use openmodelops.Security.{Identity}
use openmodelops.Integrations.Http.{
  json, response, unreachable, Server, JsonHttpClient, make_client,
}
use openmodelops.Reviewer.Domain.{
  ReviewSummary, PullRequestReview, ready, key, review_key, decision,
}
use openmodelops.Reviewer.Store.{save, get, get-saved_review}
use openmodelops.Reviewer.Github.{GithubReviewClient, all_pages, fetch_page}
use openmodelops.Reviewer.Github.Pages.{Walk, all_pages_exact}
use openmodelops.Reviewer.Service.{ReviewService, State, authorize_apply}
use openmodelops.Reviewer.Api.{OpenPullRequest, Request, opening, refreshing, approving, serve}
use openmodelops.Reviewer.Api.Approval.{Within, authorized_suggestion}
use openmodelops.Reviewer.Api.Latch.{Keeps, latched_at_open}
use openmodelops.Reviewer.Domain.{latest_of, approve_suggestion, require_approved_suggestion}
use openmodelops.Reviewer.Store.{written, unwritten, encode, decode}
use openmodelops.Reviewer.Service.{
  open_pull_request, required_review, fetch_security, refresh, refresh_report, approve,
}
use openmodelops.Reviewer.Api.{open_pull, approve_comment, refresh_pull, handle}
use openmodelops.Reviewer.Github.{
  dicts, pages, each, login_of, review_summary, inline_comment, fetch_report,
  fetch_security_findings,
}
use openmodelops.Integrations.Http.{attempt, request}
use openmodelops.Security.{authorize, has_roles}
use openmodelops.Base.Decimal.{write, read}

abbrev approval : ReviewSummary
approval = record { review_id = 7; reviewer = "bot"; state = "approved"; body = ""; url = "" }

abbrev complaint : ReviewSummary
complaint = record {
  review_id = 5;
  reviewer = "bot";
  state = "CHANGES_REQUESTED";
  body = "";
  url = "";
}

abbrev pull : PullRequestReview
pull = record {
  owner = "o";
  repository = "r";
  pull_number = 12;
  head_sha = "abcdef0";
  base_branch = "main";
  from_fork = false;
  eligible_at_open = true;
  changed_paths = "a.py" ∷ [];
  summaries = complaint ∷ approval ∷ [];
  inline_comments = [];
  security_findings = [];
  fetched_at = none;
  approvals = (30, "ben") ∷ [];
}

pull_ready : decision "bot" true pull ≡ ready
unfolding decision keep latest_of upper same_codes codes
pull_ready = refl

get-saved_review_example :
    get "o" "r" 12 (save pull [])
    ≡ (if key pull == review_key "o" "r" 12 then some pull else get "o" "r" 12 [])
get-saved_review_example = get-saved_review pull "o" "r" 12 []

abbrev http : JsonHttpClient
http = record { timeout_seconds = double 5 1074; maximum_attempts = 3 }

made : make_client (double 5 1074) 3 ≡ ok http
unfolding make_client
made = refl

abbrev user : Json
user = object (field "login" (text "bot") no_fields)

abbrev review_page : Json
review_page = array (
    item
      (object
        (field "id" (number 7) (field "user" user (field "state" (text "approved") no_fields))))
      no_items)

abbrev comment_page : Json
comment_page = array (
    item (object (field "id" (number 30) (field "user" user (field "line" (number 4) no_fields))))
      no_items)

-- The first request times out, the next ones read the reviews and the comments.
abbrev github_server : Server
github_server r n =
    if nat_eq n 0
    then unreachable
    else if nat_eq n 1
    then response 200 (json review_page)
    else response 200 (json comment_page)

abbrev github : GithubReviewClient
github = record { base_url = "https://api"; http = http; headers = [] }

all_pages_exact_example :
    ((all_pages github github_server "https://api/x" 0).1 ≤ 0 + 500)
    × ((all_pages github github_server "https://api/x" 0 ≡ (ok [], 2))
        ↔ Walk (fetch_page github github_server "https://api/x") 100 1 0 [] 2)
all_pages_exact_example =
    all_pages_exact (double 5 1074) 3 github github_server "https://api/x" 0 [] 2 made

abbrev service : ReviewService
service = record {
  config = record {
    target_branch = "main";
    fork_support = false;
    review_request_changes = true;
    reviewer_login = "bot";
    pr_checks = [];
  };
  github = github;
}

abbrev operator : Identity
operator = record { subject = "ana"; roles = "review-operator" ∷ []; tenant = "t" }

abbrev approver : Identity
approver = record { subject = "ben"; roles = "review-approver" ∷ []; tenant = "t" }

abbrev opened_pull : OpenPullRequest
opened_pull = record {
  owner = "o";
  repository = "r";
  pull_number = 12;
  head_sha = "abcdef0";
  base_branch = "main";
  from_fork = false;
  changed_paths = "a.py" ∷ [];
}

abbrev nothing : State
nothing = record { store = []; sent = 0 }

abbrev requests : List Request
requests =
    opening opened_pull operator
    ∷ refreshing "t1" "o" "r" 12 operator
    ∷ approving "o" "r" 12 30 approver
    ∷ []

abbrev plain : Json → String
plain x = ""

applied :
    authorize_apply "o" "r" 12 30 (serve plain github_server service requests nothing).store
    ≡ ok (record { status = "authorized"; comment_id = 30; approved_by = "ben" })
unfolding authorize_apply required_review require_approved_suggestion serve handle open_pull
    approve_comment refresh_pull open_pull_request fetch_security refresh refresh_report approve
    approve_suggestion save get encode decode written unwritten lookup insert authorize has_roles
    contains all any codes decimal parse_decimal write read is_blank is_space is_part is_prefix
    fetch_report fetch_security_findings all_pages pages dicts each login_of review_summary
    inline_comment get_field attempt request decision keep latest_of upper same_codes is_empty
applied = refl

authorized_suggestion_example :
    (◌≡◌ {A = ℕ} 30 30) × Within requests (review_key "o" "r" 12) 30 "ben"
authorized_suggestion_example =
    authorized_suggestion plain github_server service requests nothing "o" "r" 12 30 refl applied

abbrev latched : PullRequestReview
latched = record pull { summaries = []; approvals = [] }

opened_first :
    get "o" "r" 12
      (serve plain github_server service (opening opened_pull operator ∷ []) nothing).store
    ≡ some latched
unfolding authorize_apply required_review require_approved_suggestion serve handle open_pull
    approve_comment refresh_pull open_pull_request fetch_security refresh refresh_report approve
    approve_suggestion save get encode decode written unwritten lookup insert authorize has_roles
    contains all any codes decimal parse_decimal write read is_blank is_space is_part is_prefix
    fetch_report fetch_security_findings all_pages pages dicts each login_of review_summary
    inline_comment get_field attempt request decision keep latest_of upper same_codes is_empty
opened_first = refl

latched_at_open_example :
    Keeps "o" "r" 12 latched
      (serve plain github_server service requests
        (serve plain github_server service (opening opened_pull operator ∷ []) nothing)).store
latched_at_open_example =
    latched_at_open plain github_server service (opening opened_pull operator ∷ []) requests nothing
      "o" "r" 12 latched refl opened_first
