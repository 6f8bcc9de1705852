-- ===== src/Agents/Runtime.antt =====
-- platforms/agents/runtime.py: one invocation of an agent behind its guardrail. The digest, the model
-- and the ids are arguments; a model may raise.
pub mod Traced
pub mod Screened
use openmodelops.Base.{
  ℕ, zero, suc, ◌+◌, ◌-◌, ◌*◌, ◌/◌, ◌%◌, ◌^◌, ◌≤◌, ◌<◌, String, ◌<>◌, ◌≡◌, refl, sym, ap, ◌∙◌,
  subst, ◌≢◌, ◌↔◌, ◌⊎◌, inl, inr, Bool, true, false, not, ◌&&◌, ◌||◌, false≢true, Option, none,
  some, List, [], ◌∷◌, ◌++◌, map, arith, str_eq, starts_with, eq_iff, ltb, leb, nat_eq, nat_eq_iff,
  if◌then◌else◌, Bool-cases, Option-cases, Eq, ◌==◌, eq_of_nat, eq_of_string, length, take,
  length-append, keep, length-keep, any, any-append, all, All, All-append, All-take, All-keep,
  All-every, All-map, length-take, contains, is_space, is_blank, is_empty, ends_with, text_leb,
  codes, is_lower, is_digit, name_tail, is_name, repr_items, repr_list, sorted_set, upper,
  same_codes, is_part, lower_char, type_error, attribute_error, integration_error, Error,
  value_error, runtime_error, key_error, permission_error, concurrency_error, policy_denied,
  safety_violation, guardrail_unavailable, integrity_error, http_error, Result, ok, err, ◌>>=◌,
  ◌>>◌, raise_if, is_ok, >>=-eq-ok, Result-cases,
}
use openmodelops.Base.Decimal.{decimal, parse_decimal, parse-decimal}
use openmodelops.Base.Json.{
  Json, null, boolean, number, text, array, object, Items, no_items, item, Fields, no_fields, field,
  to_list, get_field, or_default, truthy, or_else, fields_of,
}
use openmodelops.Base.Dict.{
  Dict, keys, values, lookup, insert, has_key, lookup-nil, lookup-insert, lookup-insert_self,
  lookup-insert_ne, lookup-insert_inv, has_key_lem,
}
use openmodelops.Base.Floats.{
  Float, nan, neg_inf, pos_inf, fin, ℤ, lt_float, le_float, double, ltb_ℤ,
}
use openmodelops.Base.Audit.{Entry, Chain, Chain-append, length-audit}
use openmodelops.Contracts.{ModelEndpoint}
use openmodelops.Agents.Policy.{Unicode, GuardrailResult, check}

pub record AgentRelease : Type 0 where
  pub name : String
  pub revision : String
  pub prompt : String
  pub model : ModelEndpoint
  pub allowed_tools : List String
  pub is_protected : Bool

pub record Trace : Type 0 where
  pub trace_id : String
  pub agent : String
  pub revision : String
  pub model_revision : String
  pub status : String
  pub latency_ms : Float
  pub prompt_digest : String
  pub input_digest : String
  pub reasons : List String

-- `ModelClient.generate`
abbrev pub ModelClient : Type 0
ModelClient = ModelEndpoint → String → String → Result String

-- `EchoModel`
unfoldable pub echo_model : ModelClient
echo_model endpoint system_prompt user_input =
    ok ("[" <> endpoint.name <> "@" <> endpoint.revision <> "] " <> user_input)

pub record AgentRuntime : Type 0 where
  pub model_client : ModelClient
  pub guardrail : Option (String → GuardrailResult)
  pub traces : List Trace

pub record Response : Type 0 where
  pub trace_id : String
  pub status : String
  pub response : String

abbrev pub passed : String → GuardrailResult
passed s = record { allowed = true; safe_text = s; reasons = [] }

-- `_check`
unfoldable pub check_text :
    Option (String → GuardrailResult) → AgentRelease → String → Result GuardrailResult
check_text none release s =
    if release.is_protected
    then err (guardrail_unavailable "protected agent requires an available guardrail")
    else ok (passed s)
check_text (some guardrail) release s = ok (guardrail s)

-- The locals `status` and `reasons` beside what the body of the `try` returns or raises
pub record Run : Type 0 where
  pub result : Result Response
  pub status : String
  pub reasons : List String

abbrev pub failed : Error → Run
failed e = record { result = err e; status = "error"; reasons = [] }

abbrev pub returned : String → String → List String → String → Run
returned trace_id status reasons s = record {
  result = ok (record { trace_id = trace_id; status = status; response = s });
  status = status;
  reasons = reasons;
}

abbrev pub after_outbound : String → Result GuardrailResult → Run
after_outbound trace_id (err e) = failed e
after_outbound trace_id (ok outbound) =
    if not outbound.allowed
    then returned trace_id "blocked_output" outbound.reasons outbound.safe_text
    else returned trace_id "success" [] outbound.safe_text

module _ (sha256 : String → String) (runtime : AgentRuntime) (release : AgentRelease) where
  abbrev pub after_generate : String → Result String → Run
  after_generate trace_id (err e) = failed e
  after_generate trace_id (ok s) = after_outbound trace_id (check_text runtime.guardrail release s)

  abbrev pub after_inbound : String → Result GuardrailResult → Run
  after_inbound trace_id (err e) = failed e
  after_inbound trace_id (ok inbound) =
      if not inbound.allowed
      then returned trace_id "blocked_input" inbound.reasons inbound.safe_text
      else after_generate trace_id
          (runtime.model_client release.model release.prompt inbound.safe_text)

  -- The `try` block of `_invoke_guarded`
  unfoldable pub run : String → String → Run
  unfolding check_text
  run user_input trace_id = after_inbound trace_id (check_text runtime.guardrail release user_input)

  -- `_digest`
  abbrev pub digest : String → String
  digest s = "sha256:" <> sha256 s

  abbrev pub trace_of : String → String → Float → Run → Trace
  trace_of user_input trace_id latency_ms r = record {
    trace_id = trace_id;
    agent = release.name;
    revision = release.revision;
    model_revision = release.model.revision;
    status = r.status;
    latency_ms = latency_ms;
    prompt_digest = digest release.prompt;
    input_digest = digest user_input;
    reasons = r.reasons;
  }

  -- `invoke`: the `finally` block appends the trace however the body ends.
  unfoldable pub invoke : String → String → Float → Result Response × AgentRuntime
  unfolding run
  invoke user_input trace_id latency_ms =
      let r = run user_input trace_id in
      (
        r.result,
        record runtime {
          traces = runtime.traces ++ trace_of user_input trace_id latency_ms r ∷ [];
        },
      )
