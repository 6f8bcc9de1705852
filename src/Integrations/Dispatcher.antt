-- ===== src/Integrations/Dispatcher.antt =====
-- platforms/integrations/dispatcher.py: one run over the messages that are due.
pub mod Attempts
pub mod Settled
use openmodelops.Base.{
  ℕ, zero, suc, ◌+◌, ◌-◌, ◌*◌, ◌/◌, ◌%◌, ◌^◌, ◌≤◌, ◌<◌, String, ◌<>◌, ◌≡◌, refl, sym, ap, ◌∙◌,
  subst, ◌≢◌, ◌↔◌, ◌⊎◌, inl, inr, Bool, true, false, not, ◌&&◌, ◌||◌, false≢true, Option, none,
  some, List, [], ◌∷◌, ◌++◌, map, arith, str_eq, starts_with, eq_iff, ltb, leb, nat_eq, nat_eq_iff,
  if◌then◌else◌, Bool-cases, Option-cases, Eq, ◌==◌, eq_of_nat, eq_of_string, length, take,
  length-append, keep, length-keep, any, any-append, all, All, All-append, contains, is_space,
  is_blank, is_empty, codes, is_lower, is_digit, name_tail, is_name, repr_items, repr_list, Error,
  value_error, runtime_error, key_error, permission_error, concurrency_error, policy_denied,
  safety_violation, guardrail_unavailable, integrity_error, http_error, Result, ok, err, ◌>>=◌,
  ◌>>◌, raise_if, is_ok, >>=-eq-ok, Result-cases,
}
use openmodelops.Base.Dict.{
  Dict, keys, values, lookup, insert, has_key, lookup-nil, lookup-insert, lookup-insert_self,
  lookup-insert_ne, lookup-insert_inv, has_key_lem,
}
use openmodelops.Base.Floats.{
  Float, nan, neg_inf, pos_inf, fin, ℤ, lt_float, le_float, double, ltb_ℤ,
}
use openmodelops.Base.Audit.{Entry, Chain, Chain-append, length-audit}
use openmodelops.Integrations.Outbox.{
  OutboxMessage, IntegrationOutbox, pending_messages, mark_delivered, mark_failed,
}

pub record DispatchResult : Type 0 where
  pub delivered : ℕ
  pub failed : ℕ
  pub dead_lettered : ℕ

-- How a handler ends: it returns, it raises a `RuntimeError` or a `ValueError`, of which the class
-- has a name, or it raises anything else, which the dispatcher does not catch.
pub data Outcome : Type 0 where
  returned : Outcome
  raised : String → Outcome
  crashed : Error → Outcome

-- The handlers by destination, called with the payload and the idempotency key.
abbrev pub Handlers : Type 0
Handlers = Dict String (String → String → Outcome)

-- What the body of the loop changes: the counters and the table.
abbrev pub Loop : Type 0
Loop = DispatchResult × IntegrationOutbox

abbrev pub count_delivered : DispatchResult → DispatchResult
count_delivered r = record r { delivered = suc r.delivered }

abbrev pub count_dead : DispatchResult → DispatchResult
count_dead r = record r { dead_lettered = suc r.dead_lettered }

abbrev pub count_failed : ℕ → DispatchResult → DispatchResult
count_failed attempts r =
    if leb 5 attempts then count_dead r else record r { failed = suc r.failed }

-- The `try` block, after the handler has ended so.
abbrev pub settle : ℕ → OutboxMessage → Outcome → Loop → Result Loop
settle now m returned (r, outbox) = ok (count_delivered r, mark_delivered m.message_id outbox)
settle now m (raised name) (r, outbox) =
    ok (count_failed (suc m.attempts) r, mark_failed now m.message_id name (suc m.attempts) outbox)
settle now m (crashed e) loop = err e

-- The body of the loop for one message, an error where the handler crashed. The run reads the clock
-- once.
unfoldable pub dispatch : ℕ → Handlers → OutboxMessage → Loop → Result Loop
dispatch now handlers m (r, outbox) = elim (lookup m.destination handlers) [
  | none ↦
      ok (
        count_dead r,
        mark_failed now m.message_id "destination has no registered handler" 5 outbox,
      )
  | some handler ↦ settle now m (handler m.payload m.idempotency_key) (r, outbox)
]

-- The rest of the loop; a crash leaves the table as the messages before it left it.
unfoldable pub dispatch_all :
    ℕ → Handlers → List OutboxMessage → Loop → Result DispatchResult × IntegrationOutbox
dispatch_all now handlers [] (r, outbox) = (ok r, outbox)
dispatch_all now handlers (m ∷ ms) (r, outbox) = elim (dispatch now handlers m (r, outbox)) [
  | err e ↦ (err e, outbox)
  | ok loop ↦ dispatch_all now handlers ms loop
]

abbrev pub no_results : DispatchResult
no_results = record { delivered = 0; failed = 0; dead_lettered = 0 }

unfoldable pub run_once :
    ℕ → ℕ → Handlers → IntegrationOutbox → Result DispatchResult × IntegrationOutbox
run_once limit now handlers outbox =
    dispatch_all now handlers (pending_messages limit now outbox) (no_results, outbox)
