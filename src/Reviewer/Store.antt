-- ===== src/Reviewer/Store.antt =====
-- platforms/reviewer/store.py: the table of the reviews, one payload for each key.
use openmodelops.Base.{
  ℕ, String, ◌≡◌, refl, ap, inl, inr, Bool, Option, none, some, List, [], ◌∷◌, if◌then◌else◌,
  Bool-cases, ◌==◌, eq_of_nat, eq_of_string,
}
use openmodelops.Base.Decimal.{decimal, parse_decimal, parse-decimal}
use openmodelops.Base.Dict.{Dict, lookup, insert, lookup-insert}
use openmodelops.Reviewer.Domain.{
  ReviewSummary, InlineComment, SecurityFinding, PullRequestReview, review_key, key,
}

-- The payload's JSON. Texts, numbers, lists and the items' fields come back from JSON as they were;
-- the keys of `approvals` are written as texts, since the keys of a JSON object are.
pub record Payload : Type 0 where
  pub owner : String
  pub repository : String
  pub pull_number : ℕ
  pub head_sha : String
  pub base_branch : String
  pub from_fork : Bool
  pub eligible_at_open : Bool
  pub changed_paths : List String
  pub summaries : List ReviewSummary
  pub inline_comments : List InlineComment
  pub security_findings : List SecurityFinding
  pub fetched_at : Option String
  pub approvals : Dict String String

-- The table `pull_reviews`
abbrev pub ReviewStore : Type 0
ReviewStore = Dict String Payload

-- `{str(key): value for key, value in approvals.items()}`
unfoldable pub written : Dict ℕ String → Dict String String
written [] = []
written ((k, v) ∷ d) = (decimal k, v) ∷ written d

-- `{int(key): value for key, value in approvals.items()}`
unfoldable pub unwritten : Dict String String → Dict ℕ String
unwritten [] = []
unwritten ((k, v) ∷ d) = (parse_decimal k, v) ∷ unwritten d

unfoldable pub encode : PullRequestReview → Payload
encode r = record {
  owner = r.owner;
  repository = r.repository;
  pull_number = r.pull_number;
  head_sha = r.head_sha;
  base_branch = r.base_branch;
  from_fork = r.from_fork;
  eligible_at_open = r.eligible_at_open;
  changed_paths = r.changed_paths;
  summaries = r.summaries;
  inline_comments = r.inline_comments;
  security_findings = r.security_findings;
  fetched_at = r.fetched_at;
  approvals = written r.approvals;
}

unfoldable pub decode : Payload → PullRequestReview
decode p = record {
  owner = p.owner;
  repository = p.repository;
  pull_number = p.pull_number;
  head_sha = p.head_sha;
  base_branch = p.base_branch;
  from_fork = p.from_fork;
  eligible_at_open = p.eligible_at_open;
  changed_paths = p.changed_paths;
  summaries = p.summaries;
  inline_comments = p.inline_comments;
  security_findings = p.security_findings;
  fetched_at = p.fetched_at;
  approvals = unwritten p.approvals;
}

unfoldable pub save : PullRequestReview → ReviewStore → ReviewStore
save r store = insert (key r) (encode r) store

unfoldable pub get : String → String → ℕ → ReviewStore → Option PullRequestReview
get owner repository pull_number store =
    elim (lookup (review_key owner repository pull_number) store) [
      | none ↦ none
      | some p ↦ some (decode p)
    ]

unwritten-written : (d : Dict ℕ String) → unwritten (written d) ≡ d
unfolding unwritten written
unwritten-written [] = refl
unwritten-written ((k, v) ∷ d) = rw (parse-decimal k, unwritten-written d) refl

pub decode-encode : (r : PullRequestReview) → decode (encode r) ≡ r
unfolding decode encode
decode-encode r = ap (λ d. record r { approvals = d }) (unwritten-written r.approvals)

-- What was saved under a key is what `get` returns for it, and no other key's review changes.
pub get-saved_review :
    (r : PullRequestReview) (owner repository : String) (pull_number : ℕ) (store : ReviewStore)
    → get owner repository pull_number (save r store) ≡ (
        if key r == review_key owner repository pull_number
        then some r
        else get owner repository pull_number store)
unfolding get save
get-saved_review r owner repository pull_number store =
    elim (Bool-cases (key r == review_key owner repository pull_number)) [
      | inl e ↦ rw (get, save, lookup-insert, e) (ap some (decode-encode r))
      | inr e ↦ rw (get, save, lookup-insert, e) refl
    ]
