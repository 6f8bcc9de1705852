-- ===== src/Integrations/Tests.antt =====
-- Runs of the outbox and its dispatcher, and their theorems at concrete inputs.
use openmodelops.Base.{
  ◌≡◌, refl, true, none, some, List, [], ◌∷◌, nat_eq, if◌then◌else◌, eq_of_nat, eq_of_string, keep,
  is_empty, ok,
}
use openmodelops.Base.Json.{object, no_fields}
use openmodelops.Base.Dict.{lookup, insert}
use openmodelops.Base.Floats.{double}
use openmodelops.Integrations.Http.{
  blank_body, response, unreachable, Server, JsonResponse, JsonHttpClient, attempt, request,
}
use openmodelops.Integrations.Http.Retries.{Answered, request_answer}
use openmodelops.Integrations.Outbox.{
  dead_letter, OutboxMessage, IntegrationOutbox, enqueue, pending_messages, find_key,
  insert_message, violates, order_by_available, place, mark_failed, update,
}
use openmodelops.Integrations.Outbox.Unique.{enqueue_idempotent}
use openmodelops.Integrations.Outbox.Due.{find_message}
use openmodelops.Integrations.Dispatcher.{
  returned, raised, Handlers, run_once, dispatch, dispatch_all,
}
use openmodelops.Integrations.Dispatcher.Settled.{
  Inv, Op, enqueueing, running, step, steps, outbox_bounded,
}

abbrev outbox : IntegrationOutbox
outbox = (enqueue "m1" 0 "mlflow" "k1" "{}" []).1

first_enqueued : (enqueue "m1" 0 "mlflow" "k1" "{}" []).0 ≡ ok "m1"
unfolding enqueue find_key insert_message violates
first_enqueued = refl

enqueue_idempotent_example : enqueue "m2" 9 "aria" "k1" "{\"a\": 1}" outbox ≡ (ok "m1", outbox)
unfolding is_empty
enqueue_idempotent_example =
    enqueue_idempotent "m1" "m2" 0 9 "mlflow" "aria" "k1" "{}" "{\"a\": 1}" [] first_enqueued refl

abbrev broken : Handlers
broken = ("mlflow", λ payload key. raised "RuntimeError") ∷ []

abbrev working : Handlers
working = ("mlflow", λ payload key. returned) ∷ []

one_failure :
    (run_once 100 1 broken outbox).0 ≡ ok (record { delivered = 0; failed = 1; dead_lettered = 0 })
unfolding run_once dispatch_all pending_messages order_by_available keep enqueue find_key
    insert_message violates place dispatch lookup
one_failure = refl

-- Five failures, each after the wait of the one before it.
abbrev failing : List Op
failing =
    enqueueing "m1" 0 "mlflow" "k1" "{}"
    ∷ running 100 0 broken
    ∷ running 100 2000000 broken
    ∷ running 100 6000000 broken
    ∷ running 100 14000000 broken
    ∷ running 100 30000000 broken
    ∷ []

abbrev dead : OutboxMessage
dead = record {
  message_id = "m1";
  destination = "mlflow";
  idempotency_key = "k1";
  payload = "{}";
  status = dead_letter;
  attempts = 5;
  available_at = 62000000;
  last_error = "RuntimeError";
}

fifth_failure : find_message "m1" (steps failing []) ≡ some dead
unfolding steps find_message step run_once dispatch_all pending_messages order_by_available keep
    enqueue find_key insert_message violates place dispatch lookup mark_failed update
fifth_failure = refl

outbox_bounded_example : Inv (steps failing [])
outbox_bounded_example = outbox_bounded failing

abbrev http_client : JsonHttpClient
http_client = record { timeout_seconds = double 5 1074; maximum_attempts = 3 }

-- The first request does not get through.
abbrev slow_server : Server
slow_server r n = if nat_eq n 0 then unreachable else response 200 blank_body

abbrev empty_answer : JsonResponse
empty_answer = record { status = 200; body = object no_fields }

second_attempt :
    request http_client slow_server "GET" "https://api" none [] true 0 ≡ (ok empty_answer, 2)
unfolding request attempt insert
second_attempt = refl

request_answer_example :
    Answered slow_server
      (record {
        method = "GET";
        url = "https://api";
        payload = none;
        headers = ("Accept", "application/json") ∷ [];
      })
      3
      0
      empty_answer
      2
request_answer_example =
    request_answer (double 5 1074) 3 http_client slow_server "GET" "https://api" none [] 0 true
      second_attempt
