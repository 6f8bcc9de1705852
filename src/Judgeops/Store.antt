-- ===== src/Judgeops/Store.antt =====
-- platforms/judgeops/store.py: the evaluations and the reviews that people resolve. Ids and instants are
-- arguments; a payload is kept as the result that it is made of.
pub mod Resolved
use openmodelops.Base.{
  ℕ, zero, suc, ◌+◌, ◌-◌, ◌*◌, ◌/◌, ◌%◌, ◌^◌, ◌≤◌, ◌<◌, String, ◌<>◌, ◌≡◌, refl, sym, ap, ◌∙◌,
  subst, ◌≢◌, ◌↔◌, ◌⊎◌, inl, inr, Bool, true, false, not, ◌&&◌, ◌||◌, false≢true, Option, none,
  some, List, [], ◌∷◌, ◌++◌, map, arith, str_eq, starts_with, eq_iff, ltb, leb, nat_eq, nat_eq_iff,
  if◌then◌else◌, Bool-cases, Option-cases, Eq, ◌==◌, eq_of_nat, eq_of_string, length, take,
  length-append, keep, length-keep, any, any-append, all, All, All-append, All-take, All-keep,
  All-every, All-map, length-take, contains, is_space, is_blank, is_empty, ends_with, text_leb,
  codes, is_lower, is_digit, name_tail, is_name, repr_items, repr_list, sorted_set, upper,
  same_codes, is_part, lower_char, type_error, attribute_error, integration_error, index_error,
  Error, value_error, runtime_error, key_error, permission_error, concurrency_error, policy_denied,
  safety_violation, guardrail_unavailable, integrity_error, http_error, Result, ok, err, ◌>>=◌,
  ◌>>◌, raise_if, is_ok, >>=-eq-ok, Result-cases,
}
use openmodelops.Base.Decimal.{decimal, parse_decimal, parse-decimal}
use openmodelops.Base.Json.{
  Json, null, boolean, number, text, array, object, Items, no_items, item, Fields, no_fields, field,
  to_list, get_field, or_default, truthy, or_else, fields_of,
}
use openmodelops.Base.Dict.{
  Dict, keys, values, lookup, insert, has_key, lookup-nil, lookup-insert, lookup-insert_self,
  lookup-insert_ne, lookup-insert_inv, has_key_lem,
}
use openmodelops.Base.Floats.{
  Float, nan, neg_inf, pos_inf, fin, ℤ, lt_float, le_float, double, ltb_ℤ, add_float, sub_float,
  half_float,
}
use openmodelops.Base.Audit.{Entry, Chain, Chain-append, length-audit}
use openmodelops.Judgeops.Annotation.{Verdict, pass, fail, review, is_review}
use openmodelops.Judgeops.Rubric.{JudgeResult}
use openmodelops.Judgeops.Ensemble.{EnsembleResult}

pub record Evaluation : Type 0 where
  pub evaluation_id : String
  pub result : EnsembleResult
  pub created_at : String

pub record Resolution : Type 0 where
  pub human_verdict : Verdict
  pub reviewer : String
  pub reason : String
  pub resolved_at : String

-- A row of `judge_reviews`: its status is resolved where the other columns are filled.
pub record Review : Type 0 where
  pub evaluation_id : String
  pub resolution : Option Resolution

pub record JudgeStore : Type 0 where
  pub evaluations : List Evaluation
  pub reviews : List Review

abbrev pub has_evaluation : String → Evaluation → Bool
has_evaluation id e = e.evaluation_id == id

-- `queue_review if queue_review is not None else verdict == REVIEW`
abbrev pub is_queued : Option Bool → EnsembleResult → Bool
is_queued none r = is_review r.verdict
is_queued (some b) r = b

abbrev pub has_first : List JudgeResult → Bool
has_first [] = false
has_first (r ∷ rs) = true

unfoldable pub record_result :
    String → String → EnsembleResult → Option Bool → JudgeStore → Result String × JudgeStore
record_result uuid now result queue_review store =
    if not (has_first result.judge_results)
    then (err (index_error "tuple index out of range"), store)
    else if any (has_evaluation uuid) store.evaluations
    then (err (integrity_error "UNIQUE constraint failed: judge_evaluations.evaluation_id"), store)
    else let evaluation : Evaluation = record {
      evaluation_id = uuid;
      result = result;
      created_at = now;
    } in
      (
        ok uuid,
        record {
          evaluations = store.evaluations ++ evaluation ∷ [];
          reviews =
              if is_queued queue_review result
              then store.reviews ++ (record { evaluation_id = uuid; resolution = none }) ∷ []
              else store.reviews;
        },
      )

abbrev pub is_pending : String → Review → Bool
is_pending id r = r.evaluation_id == id && elim r.resolution [ none ↦ true | some x ↦ false ]

unfoldable pub resolve_rows : String → Resolution → List Review → List Review
resolve_rows id x [] = []
resolve_rows id x (r ∷ rs) =
    let rest = resolve_rows id x rs in
    if is_pending id r then record r { resolution = some x } ∷ rest else r ∷ rest

-- `cursor.rowcount`
unfoldable pub count_pending : String → List Review → ℕ
count_pending id [] = 0
count_pending id (r ∷ rs) =
    let rest = count_pending id rs in if is_pending id r then suc rest else rest

-- An exception inside `with connection` rolls the update back.
unfoldable pub resolve :
    String → String → String → Verdict → String → JudgeStore → Result Resolution × JudgeStore
unfolding resolve_rows count_pending
resolve now evaluation_id reviewer verdict reason store =
    let x : Resolution = record {
      human_verdict = verdict;
      reviewer = reviewer;
      reason = reason;
      resolved_at = now;
    } in
    if is_review verdict
    then (err (value_error "a human review must resolve to pass or fail"), store)
    else if is_blank reviewer || is_blank reason
    then (err (value_error "reviewer and reason are required"), store)
    else if not (nat_eq (count_pending evaluation_id store.reviews) 1)
    then (err (key_error "pending review not found"), store)
    else (ok x, record store { reviews = resolve_rows evaluation_id x store.reviews })
