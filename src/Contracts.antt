-- ===== src/Contracts.antt =====
-- packages/contracts/models.py: the endpoints and releases of models that the services exchange.
mod Tests
use openmodelops.Base.{
  ℕ, zero, suc, ◌+◌, ◌-◌, ◌*◌, ◌/◌, ◌%◌, ◌^◌, ◌≤◌, ◌<◌, String, ◌<>◌, ◌≡◌, refl, sym, ap, ◌∙◌,
  subst, ◌≢◌, ◌↔◌, ◌⊎◌, inl, inr, Bool, true, false, not, ◌&&◌, ◌||◌, false≢true, Option, none,
  some, List, [], ◌∷◌, ◌++◌, map, arith, str_eq, starts_with, eq_iff, ltb, leb, nat_eq, nat_eq_iff,
  if◌then◌else◌, Bool-cases, Option-cases, Eq, ◌==◌, eq_of_nat, eq_of_string, length, take,
  length-append, keep, length-keep, any, any-append, all, All, All-append, All-take, All-keep,
  All-every, All-map, length-take, contains, is_space, is_blank, is_empty, ends_with, text_leb,
  codes, is_lower, is_digit, name_tail, is_name, repr_items, repr_list, Error, value_error,
  runtime_error, key_error, permission_error, concurrency_error, policy_denied, safety_violation,
  guardrail_unavailable, integrity_error, http_error, Result, ok, err, ◌>>=◌, ◌>>◌, raise_if, is_ok,
  >>=-eq-ok, Result-cases,
}
use openmodelops.Base.Dict.{
  Dict, keys, values, lookup, insert, has_key, lookup-nil, lookup-insert, lookup-insert_self,
  lookup-insert_ne, lookup-insert_inv, has_key_lem,
}
use openmodelops.Base.Floats.{
  Float, nan, neg_inf, pos_inf, fin, ℤ, lt_float, le_float, double, ltb_ℤ,
}
use openmodelops.Base.Audit.{Entry, Chain, Chain-append, length-audit}

pub record ModelEndpoint : Type 0 where
  pub name : String
  pub revision : String
  pub base_url : String
  pub protocol : String
  pub timeout_seconds : ℤ

-- `timeout_seconds < 1 or timeout_seconds > 600`
abbrev pub is_out_of_range : ℤ → Bool
is_out_of_range seconds = ltb_ℤ seconds (ℤ.pos 1) || ltb_ℤ (ℤ.pos 600) seconds

unfoldable pub check_endpoint : ModelEndpoint → Result ModelEndpoint
check_endpoint e =
    if is_empty e.name
      || is_empty e.revision
      || not (starts_with e.base_url "http://" || starts_with e.base_url "https://")
    then err (value_error "model endpoint requires a name, revision and HTTP(S) base URL")
    else if is_out_of_range e.timeout_seconds
    then err (value_error "timeout_seconds must be between 1 and 600")
    else ok e

pub record ModelRelease : Type 0 where
  pub model_name : String
  pub version : String
  pub artifact_digest : String
  pub stage : String

abbrev pub stages : List String
stages = "candidate" ∷ "staging" ∷ "production" ∷ "retired" ∷ []

unfoldable pub check_release : ModelRelease → Result ModelRelease
check_release r =
    if not (contains stages r.stage)
    then err (value_error ("unsupported stage: " <> r.stage))
    else if not (starts_with r.artifact_digest "sha256:")
    then err (value_error "artifact_digest must be content-addressed with sha256")
    else ok r
