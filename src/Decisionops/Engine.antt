-- ===== src/Decisionops/Engine.antt =====
-- platforms/decisionops/engine.py: the engine. The digests, the JSON of the cache key, the instants of
-- the clock and the new ids are arguments; a provider may raise anything.
pub mod Cache
pub mod Sound
pub mod Accepted
use openmodelops.Base.{
  ℕ, zero, suc, ◌+◌, ◌-◌, ◌*◌, ◌/◌, ◌%◌, ◌^◌, ◌≤◌, ◌<◌, String, ◌<>◌, ◌≡◌, refl, sym, ap, ◌∙◌,
  subst, ◌≢◌, ◌↔◌, ◌⊎◌, inl, inr, Bool, true, false, not, ◌&&◌, ◌||◌, false≢true, Option, none,
  some, List, [], ◌∷◌, ◌++◌, map, arith, str_eq, starts_with, eq_iff, ltb, leb, nat_eq, nat_eq_iff,
  if◌then◌else◌, Bool-cases, Option-cases, Eq, ◌==◌, eq_of_nat, eq_of_string, length, take,
  length-append, keep, length-keep, any, any-append, all, All, All-append, All-take, All-keep,
  All-every, All-map, length-take, contains, is_space, is_blank, is_empty, ends_with, text_leb,
  codes, is_lower, is_digit, name_tail, is_name, repr_items, repr_list, sorted_set, upper,
  same_codes, is_part, lower_char, type_error, attribute_error, integration_error, Error,
  value_error, runtime_error, key_error, permission_error, concurrency_error, policy_denied,
  safety_violation, guardrail_unavailable, integrity_error, http_error, Result, ok, err, ◌>>=◌,
  ◌>>◌, raise_if, is_ok, >>=-eq-ok, Result-cases,
}
use openmodelops.Base.Decimal.{decimal, parse_decimal, parse-decimal}
use openmodelops.Base.Json.{
  Json, null, boolean, number, text, array, object, Items, no_items, item, Fields, no_fields, field,
  to_list, get_field, or_default, truthy, or_else, fields_of,
}
use openmodelops.Base.Dict.{
  Dict, keys, values, lookup, insert, has_key, lookup-nil, lookup-insert, lookup-insert_self,
  lookup-insert_ne, lookup-insert_inv, has_key_lem,
}
use openmodelops.Base.Floats.{
  Float, nan, neg_inf, pos_inf, fin, ℤ, lt_float, le_float, double, ltb_ℤ,
}
use openmodelops.Base.Audit.{Entry, Chain, Chain-append, length-audit}
use openmodelops.Decisionops.Breaker.{CircuitBreaker, allow, success, failure}
use openmodelops.Decisionops.Question.{QuestionDefinition, DecisionOutput, validate}

-- A state by its fields, each in its JSON form
abbrev pub Facts : Type 0
Facts = Dict String String

pub record DecisionProvider : Type 0 where
  pub provider_id : String
  pub provider_revision : String
  pub decide : Facts → QuestionDefinition → Result DecisionOutput

-- What the engine takes from outside
pub record World : Type 0 where
  pub state_digest : Facts → String
  pub question_digest : QuestionDefinition → String
  pub dumps : List String → String
  pub sums_to_one : List Float → Bool

pub record DecisionEngine : Type 0 where
  pub provider : DecisionProvider
  pub fallback : DecisionProvider
  pub policy_version : String
  pub state_schema_version : String
  pub cache_capacity : ℕ
  pub breaker : CircuitBreaker
  pub cache : Dict String DecisionOutput

pub record DecisionRecord : Type 0 where
  pub decision_id : String
  pub trace_id : String
  pub provider : String
  pub provider_revision : String
  pub question_id : String
  pub question_version : String
  pub question_digest : String
  pub policy_version : String
  pub state_schema_version : String
  pub state_digest : String
  pub output : DecisionOutput
  pub disposition : String

unfoldable pub without_key : String → Dict String DecisionOutput → Dict String DecisionOutput
without_key key [] = []
without_key key ((k, o) ∷ d) =
    let rest = without_key key d in if k == key then rest else (k, o) ∷ rest

-- `while len(cache) > capacity: cache.popitem(last=False)`
unfoldable pub drop_oldest : ℕ → Dict String DecisionOutput → Dict String DecisionOutput
drop_oldest capacity [] = []
drop_oldest capacity (e ∷ d) =
    let rest = drop_oldest capacity d in if ltb capacity (suc (length d)) then rest else e ∷ d

abbrev pub is_nil : List String → Bool
is_nil [] = true
is_nil (x ∷ xs) = false

-- `set(question.required_state) - set(state)`
abbrev pub omitted : Facts → QuestionDefinition → List String
omitted state question = keep (λ k. not (has_key k state)) question.required_state

module _ (world : World) where
  abbrev pub cache_key : Facts → QuestionDefinition → DecisionEngine → String
  cache_key state question engine = world.dumps (
      world.state_digest state
      ∷ world.question_digest question
      ∷ engine.provider.provider_revision
      ∷ engine.policy_version
      ∷ engine.state_schema_version
      ∷ [])

  -- `decide` and `_validate`
  unfoldable pub valid_decision :
      DecisionProvider → Facts → QuestionDefinition → Result DecisionOutput
  valid_decision provider state question = provider.decide state question >>= λ output.
      validate world.sums_to_one output question >> ok output

  abbrev pub cached_output : Facts → QuestionDefinition → DecisionEngine → Option DecisionOutput
  cached_output state question engine =
      if question.cacheable then lookup (cache_key state question engine) engine.cache else none

  abbrev pub remember :
      String → DecisionOutput → QuestionDefinition → DecisionEngine → DecisionEngine
  remember key output question engine =
      if question.cacheable
      then record engine {
        cache = drop_oldest engine.cache_capacity (insert key output engine.cache);
      }
      else engine

  abbrev pub disposition_of : Bool → DecisionOutput → QuestionDefinition → String
  disposition_of used_fallback output question =
      if lt_float output.confidence question.confidence_threshold
      then "human_review"
      else if used_fallback
      then "fallback"
      else "accepted"

  abbrev pub record_of :
      String
      → String
      → Facts
      → QuestionDefinition
      → Bool
      → DecisionOutput
      → DecisionEngine
      → DecisionRecord
  record_of decision_id trace_id state question used_fallback output engine = record {
    decision_id = decision_id;
    trace_id = trace_id;
    provider = (if used_fallback then engine.fallback else engine.provider).provider_id;
    provider_revision =
        (if used_fallback then engine.fallback else engine.provider).provider_revision;
    question_id = question.question_id;
    question_version = question.version;
    question_digest = world.question_digest question;
    policy_version = engine.policy_version;
    state_schema_version = engine.state_schema_version;
    state_digest = world.state_digest state;
    output = output;
    disposition = disposition_of used_fallback output question;
  }

  -- How an output was come by
  pub data Chosen : Type 0 where
    from_cache from_provider from_fallback : DecisionOutput → Chosen
    nothing : Error → Chosen

  abbrev pub fall_back : Result DecisionOutput → Chosen
  fall_back (ok output) = from_fallback output
  fall_back (err e) = nothing e

  abbrev pub try_provider :
      ℕ
      → Facts
      → QuestionDefinition
      → Result DecisionOutput
      → DecisionEngine
      → Chosen × DecisionEngine
  try_provider failed_at state question (ok output) engine =
      (from_provider output, record engine { breaker = success engine.breaker })
  try_provider failed_at state question (err e) engine = (
    fall_back (valid_decision engine.fallback state question),
    record engine { breaker = failure failed_at engine.breaker },
  )

  abbrev pub ask :
      ℕ
      → Facts
      → QuestionDefinition
      → Bool × CircuitBreaker
      → DecisionEngine
      → Chosen × DecisionEngine
  ask failed_at state question (true, breaker) engine =
      try_provider failed_at state question (valid_decision engine.provider state question)
        (record engine { breaker = breaker })
  ask failed_at state question (false, breaker) engine = (
    fall_back (valid_decision engine.fallback state question),
    record engine { breaker = breaker },
  )

  -- The cache, then the provider if the breaker allows it, then the fallback
  unfoldable pub choose :
      ℕ → ℕ → Facts → QuestionDefinition → DecisionEngine → Chosen × DecisionEngine
  unfolding valid_decision
  choose now failed_at state question engine =
      let key = cache_key state question engine in
      elim (cached_output state question engine) [
        | some output ↦ (
          from_cache output,
          record engine { cache = without_key key engine.cache ++ (key, output) ∷ [] },
        )
        | none ↦ ask failed_at state question (allow now engine.breaker) engine
      ]

  abbrev pub concluded :
      String
      → String
      → Facts
      → QuestionDefinition
      → Chosen × DecisionEngine
      → Result DecisionRecord × DecisionEngine
  concluded decision_id trace_id state question (from_cache output, engine) =
      (ok (record_of decision_id trace_id state question false output engine), engine)
  concluded decision_id trace_id state question (from_provider output, engine) = (
    ok (record_of decision_id trace_id state question false output engine),
    remember (cache_key state question engine) output question engine,
  )
  concluded decision_id trace_id state question (from_fallback output, engine) =
      (ok (record_of decision_id trace_id state question true output engine), engine)
  concluded decision_id trace_id state question (nothing e, engine) = (err e, engine)

  -- `now` is the instant of `breaker.allow`, `failed_at` that of `breaker.failure`.
  unfoldable pub evaluate :
      ℕ
      → ℕ
      → String
      → String
      → Facts
      → QuestionDefinition
      → DecisionEngine
      → Result DecisionRecord × DecisionEngine
  unfolding choose
  evaluate now failed_at decision_id trace_id state question engine =
      if not (is_nil (omitted state question))
      then (
        err (
            value_error (
              "state omitted required fields: "
              <> repr_list (sorted_set (omitted state question)))),
        engine,
      )
      else concluded decision_id trace_id state question
          (choose now failed_at state question engine)
