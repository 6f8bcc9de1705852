-- ===== src/Decisionops/Tests.antt =====
-- Runs of the circuit breaker, and its theorem at a concrete input.
use openmodelops.Base.{
  ◌≤◌, ◌≡◌, refl, true, none, [], ◌∷◌, eq_of_nat, eq_of_string, length, keep, any, all, contains,
  codes, value_error, ok, err,
}
use openmodelops.Base.Dict.{keys, values, lookup, insert, has_key}
use openmodelops.Base.Floats.{fin, ℤ, double}
use openmodelops.Decisionops.Question.{
  choice, QuestionDefinition, has_fields_in_range, check_question, word, DecisionOutput, validate,
}
use openmodelops.Decisionops.Engine.{
  DecisionProvider, World, DecisionEngine, DecisionRecord, valid_decision, choose, evaluate,
  drop_oldest, without_key,
}
use openmodelops.Decisionops.Engine.Accepted.{
  Call, evaluate_all, answer_call, Warranted, accepted_decision,
}
use openmodelops.Decisionops.Breaker.{CircuitBreaker, allow, success, failure, failures_at}

abbrev breaker : CircuitBreaker
breaker = record { failure_threshold = 3; reset_seconds = 30; failures = 0; opened_at = none }

two_failures : (allow 9 (failures_at (1 ∷ 2 ∷ []) breaker)).0 ≡ true
unfolding allow failures_at failure
two_failures = refl

recovered : success (failures_at (1 ∷ 2 ∷ []) breaker) ≡ breaker
unfolding success failures_at failure
recovered = refl

abbrev route : QuestionDefinition
route = record {
  question_id = "route.ticket";
  version = "1";
  decision_type = choice;
  description = "Which team takes the ticket?";
  owner = "support";
  required_state = "subject" ∷ [];
  options = "billing" ∷ "technical" ∷ [];
  score_levels = [];
  minimum_score = fin (ℤ.pos 0);
  maximum_score = double 1 1074;
  confidence_threshold = double 1 1073;
  cacheable = true;
  risk_tier = "standard";
}

route_allowed : check_question route ≡ ok route
unfolding check_question has_fields_in_range codes contains all
route_allowed = refl

critical_refused :
    check_question (record route { risk_tier = "critical" })
    ≡ err (value_error "critical decisions cannot be cached")
unfolding check_question has_fields_in_range codes contains all
critical_refused = refl

abbrev billing : DecisionOutput
billing = record {
  value = word "billing";
  confidence = double 1 1074;
  probabilities = [];
  rationale = "";
}

abbrev sure : DecisionProvider
sure = record { provider_id = "p"; provider_revision = "1"; decide = λ state question. ok billing }

abbrev rules : DecisionProvider
rules = record { provider_id = "f"; provider_revision = "1"; decide = λ state question. ok billing }

abbrev world : World
world = record {
  state_digest = λ state. "s";
  question_digest = λ question. "q";
  dumps = λ parts. "k";
  sums_to_one = λ xs. true;
}

abbrev engine : DecisionEngine
engine = record {
  provider = sure;
  fallback = rules;
  policy_version = "1";
  state_schema_version = "1";
  cache_capacity = 1;
  breaker = breaker;
  cache = [];
}

abbrev ask_route : Call
ask_route = record {
  now = 5;
  failed_at = 6;
  decision_id = "d1";
  trace_id = "t1";
  state = ("subject", "invoice") ∷ [];
  question = route;
}

abbrev accepted : DecisionRecord
accepted = record {
  decision_id = "d1";
  trace_id = "t1";
  provider = "p";
  provider_revision = "1";
  question_id = "route.ticket";
  question_version = "1";
  question_digest = "q";
  policy_version = "1";
  state_schema_version = "1";
  state_digest = "s";
  output = billing;
  disposition = "accepted";
}

accepted_decision_example :
    (length (answer_call world ask_route (evaluate_all world (ask_route ∷ []) engine)).1.cache
      ≤ (answer_call world ask_route (evaluate_all world (ask_route ∷ []) engine)).1.cache_capacity)
    × ((answer_call world ask_route (evaluate_all world (ask_route ∷ []) engine)).0 ≡ ok accepted
        → accepted.disposition ≡ "accepted"
        → Warranted world ask_route.state route
            (evaluate_all world (ask_route ∷ []) engine)
            billing)
accepted_decision_example =
    accepted_decision world (ask_route ∷ []) engine ask_route {r = accepted} refl

answered_so :
    (answer_call world ask_route (evaluate_all world (ask_route ∷ []) engine)).0 ≡ ok accepted
unfolding evaluate_all evaluate choose valid_decision allow validate keep has_key lookup contains
    insert drop_oldest without_key all any keys values success
answered_so = refl
