-- ===== src/Metal/Scheduler.antt =====
-- platforms/metal_runtime/scheduler.py: a bounded queue and its workers. What asyncio runs between
-- two awaits is one operation; the futures are numbered in the order of their submission.
pub mod Bounded
pub mod Order
pub mod Once
use openmodelops.Base.{
  ℕ, zero, suc, ◌+◌, ◌-◌, ◌*◌, ◌/◌, ◌%◌, ◌^◌, ◌≤◌, ◌<◌, String, ◌<>◌, ◌≡◌, refl, sym, ap, ◌∙◌,
  subst, ◌≢◌, ◌↔◌, ◌⊎◌, inl, inr, Bool, true, false, not, ◌&&◌, ◌||◌, false≢true, Option, none,
  some, List, [], ◌∷◌, ◌++◌, map, arith, str_eq, starts_with, eq_iff, ltb, leb, nat_eq, nat_eq_iff,
  if◌then◌else◌, Bool-cases, Option-cases, Eq, ◌==◌, eq_of_nat, eq_of_string, length, take,
  length-append, keep, length-keep, any, any-append, all, All, All-append, All-take, All-keep,
  All-every, All-map, length-take, contains, is_space, is_blank, is_empty, ends_with, text_leb,
  codes, is_lower, is_digit, name_tail, is_name, repr_items, repr_list, sorted_set, upper,
  same_codes, is_part, lower_char, type_error, attribute_error, integration_error, index_error,
  overflow_error, Error, value_error, runtime_error, key_error, permission_error, concurrency_error,
  policy_denied, safety_violation, guardrail_unavailable, integrity_error, http_error, Result, ok,
  err, ◌>>=◌, ◌>>◌, raise_if, is_ok, >>=-eq-ok, Result-cases,
}
use openmodelops.Base.Decimal.{decimal, parse_decimal, parse-decimal}
use openmodelops.Base.Json.{
  Json, null, boolean, number, text, array, object, Items, no_items, item, Fields, no_fields, field,
  to_list, get_field, or_default, truthy, or_else, fields_of,
}
use openmodelops.Base.Dict.{
  Dict, keys, values, lookup, insert, has_key, lookup-nil, lookup-insert, lookup-insert_self,
  lookup-insert_ne, lookup-insert_inv, has_key_lem,
}
use openmodelops.Base.Floats.{
  Float, nan, neg_inf, pos_inf, fin, ℤ, lt_float, le_float, double, ltb_ℤ, add_float, sub_float,
  half_float, div_float, div_whole, times_whole, whole_float,
}
use openmodelops.Base.Audit.{Entry, Chain, Chain-append, length-audit}

-- `asyncio.Future`
pub data Future : Type 0 where
  waiting cancelled : Future
  returned : String → Future
  failed : Error → Future

pub record WorkItem : Type 0 where
  pub prompt : String
  pub maximum_tokens : ℕ
  pub result : ℕ

-- The workers are counted: those that wait for an item, and those that hold one, with the item.
pub record BoundedScheduler : Type 0 where
  pub slots : ℕ
  pub queue_limit : ℕ
  pub queue : List WorkItem
  pub workers : ℕ
  pub idle : ℕ
  pub running : List WorkItem
  pub active : ℕ
  pub futures : List Future

abbrev pub new_scheduler : ℕ → ℕ → BoundedScheduler
new_scheduler slots queue_limit = record {
  slots = slots;
  queue_limit = queue_limit;
  queue = [];
  workers = 0;
  idle = 0;
  running = [];
  active = 0;
  futures = [];
}

unfoldable pub make_scheduler : ℕ → ℕ → Result BoundedScheduler
make_scheduler slots queue_limit =
    if ltb slots 1 || ltb queue_limit 1
    then err (value_error "slots and queue_limit must be positive")
    else ok (new_scheduler slots queue_limit)

unfoldable pub start : BoundedScheduler → BoundedScheduler
start s =
    if nat_eq s.workers 0 then record s { workers = s.slots; idle = s.slots; running = [] } else s

-- A worker that is cancelled inside `generate` leaves its future as it is: `CancelledError` is no
-- `Exception`, and only the `finally` runs.
unfoldable pub stop : BoundedScheduler → BoundedScheduler
stop s = record s { workers = 0; idle = 0; running = []; active = s.active - length s.running }

-- The queue is not full, so `put` does not wait. The number of the future is returned.
unfoldable pub submit : String → ℕ → BoundedScheduler → Result ℕ × BoundedScheduler
submit prompt maximum_tokens s =
    if leb s.queue_limit (length s.queue)
    then (err (overflow_error "inference queue is full"), s)
    else let n = length s.futures in
      (
        ok n,
        record s {
          queue =
              s.queue
              ++ record { prompt = prompt; maximum_tokens = maximum_tokens; result = n } ∷ [];
          futures = s.futures ++ waiting ∷ [];
        },
      )

unfoldable pub future_at : ℕ → List Future → Option Future
future_at n [] = none
future_at zero (f ∷ fs) = some f
future_at (suc n) (f ∷ fs) = future_at n fs

-- A future that is done is not changed.
unfoldable pub settle : ℕ → Future → List Future → List Future
settle n f [] = []
settle zero f (waiting ∷ fs) = f ∷ fs
settle zero f (g ∷ fs) = g ∷ fs
settle (suc n) f (g ∷ fs) = g ∷ settle n f fs

-- `wait_for` cancels the future when its time is over.
unfoldable pub expire : ℕ → BoundedScheduler → BoundedScheduler
expire n s = record s { futures = settle n cancelled s.futures }

-- An idle worker gets the oldest item.
abbrev pub take_from : ℕ → List WorkItem → BoundedScheduler → BoundedScheduler
take_from zero items s = s
take_from (suc n) [] s = s
take_from (suc n) (i ∷ items) s = record s {
  queue = items;
  idle = n;
  running = s.running ++ i ∷ [];
  active = s.active + 1;
}

unfoldable pub take_item : BoundedScheduler → BoundedScheduler
take_item s = take_from s.idle s.queue s

abbrev pub future_of : Result String → Future
future_of (ok answer) = returned answer
future_of (err e) = failed e

unfoldable pub remove_at : ℕ → List WorkItem → List WorkItem
remove_at n [] = []
remove_at zero (i ∷ items) = items
remove_at (suc n) (i ∷ items) = i ∷ remove_at n items

unfoldable pub item_at : ℕ → List WorkItem → Option WorkItem
item_at n [] = none
item_at zero (i ∷ items) = some i
item_at (suc n) (i ∷ items) = item_at n items

abbrev pub finish_item : ℕ → Option WorkItem → Result String → BoundedScheduler → BoundedScheduler
finish_item k none outcome s = s
finish_item k (some i) outcome s = record s {
  idle = s.idle + 1;
  running = remove_at k s.running;
  active = s.active - 1;
  futures = settle i.result (future_of outcome) s.futures;
}

-- The worker of the running item `k` gets the backend's outcome.
unfoldable pub finish : ℕ → Result String → BoundedScheduler → BoundedScheduler
finish k outcome s = finish_item k (item_at k s.running) outcome s

-- What the event loop runs next
pub data Step (s : BoundedScheduler) : BoundedScheduler → Type 0 where
  starts : Step s (start s)
  stops : Step s (stop s)
  submits : (prompt : String) (maximum_tokens : ℕ) → Step s (submit prompt maximum_tokens s).1
  expires : (n : ℕ) → Step s (expire n s)
  takes : Step s (take_item s)
  finishes : (k : ℕ) (outcome : Result String) → Step s (finish k outcome s)

pub data Reach (s : BoundedScheduler) : BoundedScheduler → Type 0 where
  here : Reach s s
  later : {t u : BoundedScheduler} → Reach s t → Step t u → Reach s u
