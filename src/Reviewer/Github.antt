-- ===== src/Reviewer/Github.antt =====
-- platforms/reviewer/github.py: what the review agent reads of the GitHub API. `repr` is what Python
-- writes for a list or a dict.
pub mod Pages
use openmodelops.Base.{
  ℕ, zero, suc, ◌+◌, ◌-◌, ◌*◌, ◌/◌, ◌%◌, ◌^◌, ◌≤◌, ◌<◌, String, ◌<>◌, ◌≡◌, refl, sym, ap, ◌∙◌,
  subst, ◌≢◌, ◌↔◌, ◌⊎◌, inl, inr, Bool, true, false, not, ◌&&◌, ◌||◌, false≢true, Option, none,
  some, List, [], ◌∷◌, ◌++◌, map, arith, str_eq, starts_with, eq_iff, ltb, leb, nat_eq, nat_eq_iff,
  if◌then◌else◌, Bool-cases, Option-cases, Eq, ◌==◌, eq_of_nat, eq_of_string, length, take,
  length-append, keep, length-keep, any, any-append, all, All, All-append, All-take, All-keep,
  All-every, All-map, length-take, contains, is_space, is_blank, is_empty, ends_with, text_leb,
  codes, is_lower, is_digit, name_tail, is_name, repr_items, repr_list, upper, same_codes, is_part,
  lower_char, type_error, attribute_error, integration_error, Error, value_error, runtime_error,
  key_error, permission_error, concurrency_error, policy_denied, safety_violation,
  guardrail_unavailable, integrity_error, http_error, Result, ok, err, ◌>>=◌, ◌>>◌, raise_if, is_ok,
  >>=-eq-ok, Result-cases,
}
use openmodelops.Base.Decimal.{decimal, parse_decimal, parse-decimal}
use openmodelops.Base.Json.{
  Json, null, boolean, number, text, array, object, Items, no_items, item, Fields, no_fields, field,
  to_list, get_field, or_default, truthy, or_else, fields_of,
}
use openmodelops.Base.Dict.{
  Dict, keys, values, lookup, insert, has_key, lookup-nil, lookup-insert, lookup-insert_self,
  lookup-insert_ne, lookup-insert_inv, has_key_lem,
}
use openmodelops.Base.Floats.{
  Float, nan, neg_inf, pos_inf, fin, ℤ, lt_float, le_float, double, ltb_ℤ,
}
use openmodelops.Base.Audit.{Entry, Chain, Chain-append, length-audit}
use Prim.Native.Char.{code}
use openmodelops.Integrations.Http.{JsonResponse, JsonHttpClient, Server, request}
use openmodelops.Reviewer.Domain.{ReviewSummary, InlineComment, SecurityFinding}

pub record ReviewReport : Type 0 where
  pub summaries : List ReviewSummary
  pub comments : List InlineComment

pub record GithubReviewClient : Type 0 where
  pub base_url : String
  pub http : JsonHttpClient
  pub headers : Dict String String

-- `text.rstrip("/")`
unfoldable pub strip_slashes : String → String
unfolding is_empty
strip_slashes String.[] = ""
strip_slashes (String.◌∷◌ c s) =
    let rest = strip_slashes s in
    if is_empty rest && nat_eq (code c) b'/' then "" else String.◌∷◌ c rest

unfoldable pub make_github_client : String → String → JsonHttpClient → GithubReviewClient
make_github_client base_url token http = record {
  base_url = strip_slashes base_url;
  http = http;
  headers =
      ("Accept", "application/vnd.github+json")
      ∷ ("Authorization", "Bearer " <> token)
      ∷ ("X-GitHub-Api-Version", "2022-11-28")
      ∷ [];
}

-- `[item for item in body if isinstance(item, dict)]`
unfoldable pub dicts : List Json → List Fields
dicts [] = []
dicts (object fs ∷ xs) = fs ∷ dicts xs
dicts (x ∷ xs) = dicts xs

-- `urlencode({'per_page': 100, 'page': page})` after the separator
abbrev pub page_url : String → ℕ → String
page_url url page =
    url
    <> (if is_part (codes "?") (codes url) then "&" else "?")
    <> "per_page=100&page="
    <> decimal page

-- One request, given the number of those before it.
abbrev pub Fetch : Type 0
Fetch = ℕ → ℕ → Result JsonResponse × ℕ

abbrev pub items_of : Json → Option (List Json)
items_of (array xs) = some (to_list xs)
items_of x = none

-- `for page in range(1, 101)`, at `page` with `left` pages to go.
unfoldable pub pages : Fetch → ℕ → ℕ → List Fields → ℕ → Result (List Fields) × ℕ
pages fetch zero page output sent =
    (err (integration_error "GitHub API pagination exceeded safety limit"), sent)
pages fetch (suc left) page output sent =
    let (answer, after) = fetch page sent in
    elim answer [
      | err e ↦ (err e, after)
      | ok response ↦ elim (items_of response.body) [
        | none ↦
            (err (integration_error "GitHub API returned an invalid paginated response"), after)
        | some body ↦
            let rest = pages fetch left (suc page) (output ++ dicts body) after in
            if ltb (length body) 100 then (ok (output ++ dicts body), after) else rest
      ]
    ]

module _ (client : GithubReviewClient) (server : Server) where
  abbrev pub fetch_page : String → Fetch
  fetch_page url page sent =
      request client.http server "GET" (page_url url page) none client.headers true sent

  unfoldable pub all_pages : String → ℕ → Result (List Fields) × ℕ
  all_pages url sent = pages (fetch_page url) 100 1 [] sent

-- `[f(x) for x in xs]`, where a call may raise
unfoldable pub each {ℓ κ} : {A : Type ℓ} {B : Type κ} → (A → Result B) → List A → Result (List B)
each f [] = ok []
each f (x ∷ xs) = f x >>= λ y. each f xs >>= λ ys. ok (y ∷ ys)

-- `int(x)`, of a text only where digits are all that it holds
abbrev pub int_of : Json → Result ℕ
int_of (number n) = ok n
int_of (boolean true) = ok 1
int_of (boolean false) = ok 0
int_of (text s) =
    if not (is_empty s) && all is_digit (codes s)
    then ok (parse_decimal s)
    else err (value_error "invalid literal for int() with base 10")
int_of x = err (type_error "int() argument must be a string, a bytes-like object or a real number")

-- `fields[key]`
abbrev pub required : String → Option Json → Result Json
required key none = err (key_error key)
required key (some x) = ok x

module _ (repr : Json → String) where
  -- `str(x)`
  abbrev pub str_of : Json → String
  str_of null = "None"
  str_of (boolean true) = "True"
  str_of (boolean false) = "False"
  str_of (number n) = decimal n
  str_of (text s) = s
  str_of x = repr x

  -- `str(fields.get(key, default))`
  abbrev pub str_field : String → String → Fields → String
  str_field key default fs = str_of (or_default (text default) (get_field key fs))

  -- `str(fields.get(key) or "")`
  abbrev pub str_or_empty : String → Fields → String
  str_or_empty key fs = str_of (or_else (or_default null (get_field key fs)) (text ""))

  -- `str(item.get("user", {}).get("login", "unknown"))`
  unfoldable pub login_of : Fields → Result String
  login_of fs = fields_of (or_default (object no_fields) (get_field "user" fs)) >>= λ user.
      ok (str_field "login" "unknown" user)

  unfoldable pub review_summary : Fields → Result ReviewSummary
  unfolding login_of
  review_summary fs = required "id" (get_field "id" fs) >>= λ id. int_of id >>= λ review_id.
      login_of fs >>= λ reviewer. ok (record {
        review_id = review_id;
        reviewer = reviewer;
        state = str_field "state" "PENDING" fs;
        body = str_or_empty "body" fs;
        url = str_or_empty "html_url" fs;
      })

  unfoldable pub inline_comment : Fields → Result InlineComment
  unfolding login_of
  inline_comment fs = required "id" (get_field "id" fs) >>= λ id. int_of id >>= λ comment_id.
      login_of fs >>= λ reviewer. ok (record {
        comment_id = comment_id;
        reviewer = reviewer;
        path = str_or_empty "path" fs;
        line =
            or_else (or_default null (get_field "line" fs))
              (or_default null (get_field "original_line" fs));
        body = str_or_empty "body" fs;
        url = str_or_empty "html_url" fs;
      })

  -- `(item.get(key) or {})`, on which `.get` is called next
  abbrev pub section : String → Fields → Result Fields
  section key fs = fields_of (or_else (or_default null (get_field key fs)) (object no_fields))

  unfoldable pub dependabot_finding : Fields → Result SecurityFinding
  dependabot_finding fs = section "security_advisory" fs >>= λ advisory.
      section "dependency" fs >>= λ dependency. ok (record {
        source = "dependabot";
        alert_id = str_field "number" "unknown" fs;
        severity = str_field "severity" "unknown" advisory;
        path = str_field "manifest_path" "" dependency;
        summary = str_field "summary" "Dependency alert" advisory;
        url = str_field "html_url" "" fs;
      })

  -- `item.get("most_recent_instance", {}).get("location", {})`
  abbrev pub location_of : Fields → Result Fields
  location_of fs =
      fields_of (or_default (object no_fields) (get_field "most_recent_instance" fs)) >>= λ place.
      fields_of (or_default (object no_fields) (get_field "location" place))

  unfoldable pub code_scanning_finding : Fields → Result SecurityFinding
  code_scanning_finding fs = section "rule" fs >>= λ rule. location_of fs >>= λ location.
      ok (record {
        source = "codeql";
        alert_id = str_field "number" "unknown" fs;
        severity = str_of (
            or_else (or_default null (get_field "security_severity_level" rule))
              (or_default (text "unknown") (get_field "severity" rule)));
        path = str_field "path" "" location;
        summary = str_field "description" "Code scanning alert" rule;
        url = str_field "html_url" "" fs;
      })

  -- `fetch_report`: both lists are fetched before an item of either is read.
  unfoldable pub fetch_report :
      GithubReviewClient → Server → String → String → ℕ → ℕ → Result ReviewReport × ℕ
  fetch_report client server owner repo pull_number sent =
      let root =
        client.base_url <> "/repos/" <> owner <> "/" <> repo <> "/pulls/" <> decimal pull_number in
      let (reviews, sent1) = all_pages client server (root <> "/reviews") sent in
      elim reviews [
        | err e ↦ (err e, sent1)
        | ok items ↦
            let (comments, sent2) = all_pages client server (root <> "/comments") sent1 in
            (
              comments >>= λ notes. each review_summary items >>= λ summaries.
                  each inline_comment notes >>= λ inline.
                  ok (record { summaries = summaries; comments = inline }),
              sent2,
            )
      ]

  abbrev pub in_scope : String → List String → List SecurityFinding → List SecurityFinding
  in_scope scope changed_paths findings =
      if scope == "diff" then keep (λ f. contains changed_paths f.path) findings else findings

  unfoldable pub fetch_security_findings :
      GithubReviewClient
      → Server
      → String
      → String
      → List String
      → String
      → ℕ
      → Result (List SecurityFinding) × ℕ
  fetch_security_findings client server owner repo changed_paths scope sent =
      let root = client.base_url <> "/repos/" <> owner <> "/" <> repo in
      let (dependabot, sent1) =
        all_pages client server (root <> "/dependabot/alerts?state=open") sent in
      let (scanning, sent2) =
        all_pages client server (root <> "/code-scanning/alerts?state=open") sent1 in
      if not (contains ("diff" ∷ "repo" ∷ []) scope)
      then (err (value_error "security scope must be diff or repo"), sent)
      else elim dependabot [
        | err e ↦ (err e, sent1)
        | ok alerts ↦ (
          scanning >>= λ scans. each dependabot_finding alerts >>= λ found.
              each code_scanning_finding scans >>= λ scanned.
              ok (in_scope scope changed_paths (found ++ scanned)),
          sent2,
        )
      ]
