-- ===== src/Banking/Score.antt =====
-- platforms/banking/domain.py: the score of a transaction and the decision that it leads to. An amount
-- is counted in cents, since the field allows two decimal places.
pub mod Points
use openmodelops.Base.{
  ℕ, zero, suc, ◌+◌, ◌-◌, ◌*◌, ◌/◌, ◌%◌, ◌^◌, ◌≤◌, ◌<◌, String, ◌<>◌, ◌≡◌, refl, sym, ap, ◌∙◌,
  subst, ◌≢◌, ◌↔◌, ◌⊎◌, inl, inr, Bool, true, false, not, ◌&&◌, ◌||◌, false≢true, Option, none,
  some, List, [], ◌∷◌, ◌++◌, map, arith, str_eq, starts_with, eq_iff, ltb, leb, nat_eq, nat_eq_iff,
  if◌then◌else◌, Bool-cases, Option-cases, Eq, ◌==◌, eq_of_nat, eq_of_string, length, take,
  length-append, keep, length-keep, any, any-append, all, All, All-append, All-take, All-keep,
  All-every, All-map, length-take, contains, is_space, is_blank, is_empty, ends_with, text_leb,
  codes, is_lower, is_digit, name_tail, is_name, repr_items, repr_list, sorted_set, upper,
  same_codes, is_part, lower_char, type_error, attribute_error, integration_error, index_error,
  Error, value_error, runtime_error, key_error, permission_error, concurrency_error, policy_denied,
  safety_violation, guardrail_unavailable, integrity_error, http_error, Result, ok, err, ◌>>=◌,
  ◌>>◌, raise_if, is_ok, >>=-eq-ok, Result-cases,
}
use openmodelops.Base.Decimal.{decimal, parse_decimal, parse-decimal}
use openmodelops.Base.Json.{
  Json, null, boolean, number, text, array, object, Items, no_items, item, Fields, no_fields, field,
  to_list, get_field, or_default, truthy, or_else, fields_of,
}
use openmodelops.Base.Dict.{
  Dict, keys, values, lookup, insert, has_key, lookup-nil, lookup-insert, lookup-insert_self,
  lookup-insert_ne, lookup-insert_inv, has_key_lem,
}
use openmodelops.Base.Floats.{
  Float, nan, neg_inf, pos_inf, fin, ℤ, lt_float, le_float, double, ltb_ℤ, add_float, sub_float,
  half_float,
}
use openmodelops.Base.Audit.{Entry, Chain, Chain-append, length-audit}

pub data Channel : Type 0 where
  card_present ecommerce transfer bill_payment : Channel

pub record Transaction : Type 0 where
  pub event_id : String
  pub account_token : String
  pub amount_cents : ℕ
  pub province : String
  pub channel : Channel
  pub merchant_category : String
  pub occurred_at : String
  pub device_trusted : Bool
  pub international : Bool
  pub transactions_last_10m : ℕ
  pub failed_auth_last_24h : ℕ

abbrev pub provinces : List String
provinces =
    "AB" ∷ "BC" ∷ "MB" ∷ "NB" ∷ "NL" ∷ "NS" ∷ "NT" ∷ "NU" ∷ "ON" ∷ "PE" ∷ "QC" ∷ "SK" ∷ "YT" ∷ []

abbrev pub has_length : ℕ → ℕ → String → Bool
has_length least most s = leb least (length (codes s)) && leb (length (codes s)) most

-- The fields' limits and the two validators; whether the instant has a timezone is an argument.
unfoldable pub check_transaction : (String → Bool) → Transaction → Result Transaction
check_transaction has_timezone t =
    if not (
      has_length 8 128 t.event_id
      && has_length 12 128 t.account_token
      && (ltb 0 t.amount_cents && leb t.amount_cents 100000000)
      && has_length 2 64 t.merchant_category
      && leb t.transactions_last_10m 1000
      && leb t.failed_auth_last_24h 1000)
    then err (value_error "a field is out of its range")
    else if not (contains provinces t.province)
    then err (value_error "province must be a Canadian province or territory code")
    else if not (has_timezone t.occurred_at)
    then err (value_error "occurred_at must include a timezone")
    else ok t

pub data Decision : Type 0 where
  approve review decline : Decision

pub record ScoredTransaction : Type 0 where
  pub score : Float
  pub reasons : List String

abbrev pub is_ecommerce : Channel → Bool
is_ecommerce ecommerce = true
is_ecommerce _ = false

-- `if test: value += amount`
abbrev pub add_if : Bool → Float → Float → Float
add_if true amount value = add_float value amount
add_if false amount value = value

abbrev pub name_if : Bool → String → List String → List String
name_if true name reasons = reasons ++ name ∷ []
name_if false name reasons = reasons

-- The doubles that 0.02, 0.28, 0.18, 0.24, 0.25 and 0.04 stand for, added in the source's order
abbrev pub sum_of : Bool → Bool → Bool → Bool → Bool → Bool → Float
sum_of high international untrusted velocity auth online =
    add_if online (double 5764607523034235 1017) (
      add_if auth (double 1 1072) (
        add_if velocity (double 1 1072) (
          add_if untrusted (double 1080863910568919 1022) (
            add_if international (double 3242591731706757 1020)
              (add_if high (double 1261007895663739 1022) (double 5764607523034235 1016))))))

abbrev pub or_baseline : List String → List String
or_baseline [] = "BASELINE_ACTIVITY" ∷ []
or_baseline (r ∷ rs) = r ∷ rs

abbrev pub is_high : Transaction → Bool
is_high t = leb 500000 t.amount_cents

abbrev pub is_fast : Transaction → Bool
is_fast t = leb 8 t.transactions_last_10m

abbrev pub is_failing : Transaction → Bool
is_failing t = leb 3 t.failed_auth_last_24h

-- `min(value, 1.0)`
abbrev pub at_most_one : Float → Float
at_most_one x = if lt_float (double 1 1074) x then double 1 1074 else x

unfoldable pub score : Transaction → ScoredTransaction
score t = record {
  score = at_most_one (
      sum_of (is_high t) t.international (not t.device_trusted) (is_fast t) (is_failing t)
        (is_ecommerce t.channel));
  reasons = or_baseline (
      name_if (is_failing t) "AUTH_FAILURES" (
        name_if (is_fast t) "HIGH_VELOCITY" (
          name_if (not t.device_trusted) "UNTRUSTED_DEVICE"
            (name_if t.international "INTERNATIONAL" (name_if (is_high t) "HIGH_AMOUNT" [])))));
}

unfoldable pub decision_for : Float → Decision
decision_for value =
    if le_float (double 3152519739159347 1022) value
    then decline
    else if le_float (double 3152519739159347 1021) value
    then review
    else approve
