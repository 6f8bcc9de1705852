-- ===== src/Judgeops/Annotation.antt =====
-- platforms/judgeops/annotation.py: the ledger of reviewers' labels.
pub mod Rows
pub mod Consensus
use openmodelops.Base.{
  text_leb, ℕ, zero, suc, ◌+◌, ◌-◌, ◌*◌, ◌/◌, ◌%◌, ◌^◌, ◌≤◌, ◌<◌, String, ◌<>◌, ◌≡◌, refl, sym, ap,
  ◌∙◌, subst, ◌≢◌, ◌↔◌, ◌⊎◌, inl, inr, Bool, true, false, not, ◌&&◌, ◌||◌, false≢true, Option, none,
  some, List, [], ◌∷◌, ◌++◌, map, arith, str_eq, starts_with, eq_iff, ltb, leb, nat_eq, nat_eq_iff,
  if◌then◌else◌, Bool-cases, Option-cases, Eq, ◌==◌, eq_of_nat, eq_of_string, length, take,
  length-append, keep, length-keep, any, any-append, all, All, All-append, All-take, All-keep,
  All-every, All-map, length-take, contains, is_space, is_blank, is_empty, codes, is_lower,
  is_digit, name_tail, is_name, repr_items, repr_list, Error, value_error, runtime_error, key_error,
  permission_error, concurrency_error, policy_denied, safety_violation, guardrail_unavailable,
  integrity_error, http_error, Result, ok, err, ◌>>=◌, ◌>>◌, raise_if, is_ok, >>=-eq-ok,
  Result-cases,
}
use openmodelops.Base.Dict.{
  Dict, keys, values, lookup, insert, has_key, lookup-nil, lookup-insert, lookup-insert_self,
  lookup-insert_ne, lookup-insert_inv, has_key_lem,
}
use openmodelops.Base.Floats.{
  Float, nan, neg_inf, pos_inf, fin, ℤ, lt_float, le_float, double, ltb_ℤ,
}
use openmodelops.Base.Audit.{Entry, Chain, Chain-append, length-audit}

pub data Verdict : Type 0 where
  pass fail review : Verdict

-- A row of the table `annotations`; the instant of its insertion is left out.
pub record Annotation : Type 0 where
  pub sample_id : String
  pub reviewer : String
  pub verdict : Verdict
  pub rationale : String

-- The rows in the order of their insertion.
abbrev pub AnnotationLedger : Type 0
AnnotationLedger = List Annotation

-- `str.strip`, on the code points of a text
unfoldable pub lstrip : List ℕ → List ℕ
lstrip [] = []
lstrip (c ∷ cs) = let rest = lstrip cs in if is_space c then rest else c ∷ cs

abbrev pub is_nil {ℓ} : {A : Type ℓ} → List A → Bool
is_nil [] = true
is_nil (x ∷ xs) = false

unfoldable pub rstrip : List ℕ → List ℕ
rstrip [] = []
rstrip (c ∷ cs) = let rest = rstrip cs in if is_nil rest && is_space c then [] else c ∷ rest

-- `len(text.strip())`
unfoldable pub stripped_length : String → ℕ
unfolding lstrip rstrip
stripped_length s = length (rstrip (lstrip (codes s)))

abbrev pub is_review : Verdict → Bool
is_review review = true
is_review _ = false

abbrev pub has_key_of : String → String → Annotation → Bool
has_key_of sample_id reviewer a = a.sample_id == sample_id && a.reviewer == reviewer

unfoldable pub label :
    String → String → Verdict → String → AnnotationLedger → Result (Unit {0}) × AnnotationLedger
label sample_id reviewer verdict rationale ledger =
    if is_review verdict
    then (err (value_error "reviewers must resolve labels to pass or fail"), ledger)
    else if is_blank sample_id || is_blank reviewer || ltb (stripped_length rationale) 10
    then (err (value_error "sample ID, reviewer and a meaningful rationale are required"), ledger)
    else if any (has_key_of sample_id reviewer) ledger
    then (
      err (integrity_error "UNIQUE constraint failed: annotations.sample_id, annotations.reviewer"),
      ledger,
    )
    else (
      ok tt,
      ledger
          ++ (record {
            sample_id = sample_id;
            reviewer = reviewer;
            verdict = verdict;
            rationale = rationale;
          })
            ∷ [],
    )

-- `ORDER BY reviewer`
unfoldable pub place : Annotation → List Annotation → List Annotation
place a [] = a ∷ []
place a (b ∷ bs) =
    let rest = place a bs in
    if text_leb (codes a.reviewer) (codes b.reviewer) then a ∷ b ∷ bs else b ∷ rest

unfoldable pub order_by_reviewer : List Annotation → List Annotation
order_by_reviewer [] = []
order_by_reviewer (a ∷ xs) = place a (order_by_reviewer xs)

unfoldable pub labels_of : String → AnnotationLedger → List Annotation
labels_of sample_id ledger = order_by_reviewer (keep (λ a. a.sample_id == sample_id) ledger)

abbrev pub verdict_rank : Verdict → ℕ
verdict_rank pass = 0
verdict_rank fail = 1
verdict_rank review = 2

-- `{row["verdict"] for row in rows}`, each verdict once
unfoldable pub verdicts_of : List Annotation → List Verdict
verdicts_of [] = []
verdicts_of (a ∷ xs) =
    let rest = verdicts_of xs in
    if any (λ v. nat_eq (verdict_rank v) (verdict_rank a.verdict)) rest
    then rest
    else a.verdict ∷ rest

pub record LedgerStatus : Type 0 where
  pub sample_id : String
  pub labels : List Annotation
  pub status : String

abbrev pub status_of : ℕ → ℕ → String
status_of labels verdicts =
    if leb 2 labels && nat_eq verdicts 1
    then "consensus"
    else if ltb 1 verdicts
    then "conflict"
    else "pending"

unfoldable pub status : String → AnnotationLedger → LedgerStatus
status sample_id ledger =
    let labels = labels_of sample_id ledger in
    record {
      sample_id = sample_id;
      labels = labels;
      status = status_of (length labels) (length (verdicts_of labels));
    }
