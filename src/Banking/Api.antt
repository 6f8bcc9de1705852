-- ===== src/Banking/Api.antt =====
-- platforms/banking/api.py: the scoring handler, which remembers the answers of the last transactions. The
-- lock makes each call one step; the metrics are left out.
pub mod Kept
pub mod Remembered
use openmodelops.Base.{
  ℕ, zero, suc, ◌+◌, ◌-◌, ◌*◌, ◌/◌, ◌%◌, ◌^◌, ◌≤◌, ◌<◌, String, ◌<>◌, ◌≡◌, refl, sym, ap, ◌∙◌,
  subst, ◌≢◌, ◌↔◌, ◌⊎◌, inl, inr, Bool, true, false, not, ◌&&◌, ◌||◌, false≢true, Option, none,
  some, List, [], ◌∷◌, ◌++◌, map, arith, str_eq, starts_with, eq_iff, ltb, leb, nat_eq, nat_eq_iff,
  if◌then◌else◌, Bool-cases, Option-cases, Eq, ◌==◌, eq_of_nat, eq_of_string, length, take,
  length-append, keep, length-keep, any, any-append, all, All, All-append, All-take, All-keep,
  All-every, All-map, length-take, contains, is_space, is_blank, is_empty, ends_with, text_leb,
  codes, is_lower, is_digit, name_tail, is_name, repr_items, repr_list, sorted_set, upper,
  same_codes, is_part, lower_char, type_error, attribute_error, integration_error, index_error,
  Error, value_error, runtime_error, key_error, permission_error, concurrency_error, policy_denied,
  safety_violation, guardrail_unavailable, integrity_error, http_error, Result, ok, err, ◌>>=◌,
  ◌>>◌, raise_if, is_ok, >>=-eq-ok, Result-cases,
}
use openmodelops.Base.Decimal.{decimal, parse_decimal, parse-decimal}
use openmodelops.Base.Json.{
  Json, null, boolean, number, text, array, object, Items, no_items, item, Fields, no_fields, field,
  to_list, get_field, or_default, truthy, or_else, fields_of,
}
use openmodelops.Base.Dict.{
  Dict, keys, values, lookup, insert, has_key, lookup-nil, lookup-insert, lookup-insert_self,
  lookup-insert_ne, lookup-insert_inv, has_key_lem,
}
use openmodelops.Base.Floats.{
  Float, nan, neg_inf, pos_inf, fin, ℤ, lt_float, le_float, double, ltb_ℤ, add_float, sub_float,
  half_float,
}
use openmodelops.Base.Audit.{Entry, Chain, Chain-append, length-audit}
use openmodelops.Banking.Score.{Transaction, Decision, score, decision_for}

pub record ScoreResponse : Type 0 where
  pub event_id : String
  pub decision : Decision
  pub risk_score : Float
  pub reason_codes : List String
  pub model_version : String
  pub duplicate : Bool

-- `_seen`, the oldest entry first
abbrev pub Seen : Type 0
Seen = Dict String ScoreResponse

unfoldable pub without_event : String → Seen → Seen
without_event id [] = []
without_event id ((k, r) ∷ seen) =
    let rest = without_event id seen in if k == id then rest else (k, r) ∷ rest

-- `popitem(last=False)`
abbrev pub drop_first : Seen → Seen
drop_first [] = []
drop_first (e ∷ seen) = seen

abbrev pub trimmed : ℕ → Seen → Seen
trimmed maximum seen = if ltb maximum (length seen) then drop_first seen else seen

abbrev pub response_of : Transaction → ScoreResponse
response_of t = record {
  event_id = t.event_id;
  decision = decision_for (score t).score;
  risk_score = (score t).score;
  reason_codes = (score t).reasons;
  model_version = "rules-v1";
  duplicate = false;
}

unfoldable pub score_transaction : ℕ → Transaction → Seen → ScoreResponse × Seen
score_transaction maximum t seen = elim (lookup t.event_id seen) [
  | some previous ↦ (
    record previous { duplicate = true },
    without_event t.event_id seen ++ (t.event_id, previous) ∷ [],
  )
  | none ↦ (response_of t, trimmed maximum (seen ++ (t.event_id, response_of t) ∷ []))
]

-- The calls one after the other
unfoldable pub score_all : ℕ → List Transaction → Seen → Seen
score_all maximum [] seen = seen
score_all maximum (t ∷ ts) seen = score_all maximum ts (score_transaction maximum t seen).1
