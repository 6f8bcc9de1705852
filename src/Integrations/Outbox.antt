-- ===== src/Integrations/Outbox.antt =====
-- platforms/integrations/outbox.py: the table of messages and its operations.
pub mod Unique
pub mod Due
use openmodelops.Base.{
  ℕ, zero, suc, ◌+◌, ◌-◌, ◌*◌, ◌/◌, ◌%◌, ◌^◌, ◌≤◌, ◌<◌, String, ◌<>◌, ◌≡◌, refl, sym, ap, ◌∙◌,
  subst, ◌≢◌, ◌↔◌, ◌⊎◌, inl, inr, Bool, true, false, not, ◌&&◌, ◌||◌, false≢true, Option, none,
  some, List, [], ◌∷◌, ◌++◌, map, arith, str_eq, starts_with, eq_iff, ltb, leb, nat_eq, nat_eq_iff,
  if◌then◌else◌, Bool-cases, Option-cases, Eq, ◌==◌, eq_of_nat, eq_of_string, length, take,
  length-append, keep, length-keep, any, any-append, all, All, All-append, contains, is_space,
  is_blank, is_empty, codes, is_lower, is_digit, name_tail, is_name, repr_items, repr_list, Error,
  value_error, runtime_error, key_error, permission_error, concurrency_error, policy_denied,
  safety_violation, guardrail_unavailable, integrity_error, http_error, Result, ok, err, ◌>>=◌,
  ◌>>◌, raise_if, is_ok, >>=-eq-ok, Result-cases,
}
use openmodelops.Base.Dict.{
  Dict, keys, values, lookup, insert, has_key, lookup-nil, lookup-insert, lookup-insert_self,
  lookup-insert_ne, lookup-insert_inv, has_key_lem,
}
use openmodelops.Base.Floats.{
  Float, nan, neg_inf, pos_inf, fin, ℤ, lt_float, le_float, double, ltb_ℤ,
}
use openmodelops.Base.Audit.{Entry, Chain, Chain-append, length-audit}
use Prim.Native.String.{slice}

-- The texts of the column `status`.
pub data Status : Type 0 where
  pending delivered dead_letter : Status

-- The payload is its JSON text, an instant is counted in microseconds.
pub record OutboxMessage : Type 0 where
  pub message_id : String
  pub destination : String
  pub idempotency_key : String
  pub payload : String
  pub status : Status
  pub attempts : ℕ
  pub available_at : ℕ
  pub last_error : String

-- `integration_outbox`, in the order of the inserts.
abbrev pub IntegrationOutbox : Type 0
IntegrationOutbox = List OutboxMessage

-- `SELECT message_id ... WHERE idempotency_key = ?`
unfoldable pub find_key : String → IntegrationOutbox → Option String
find_key key [] = none
find_key key (m ∷ ms) = if m.idempotency_key == key then some m.message_id else find_key key ms

-- The primary key and the unique column.
unfoldable pub violates : String → String → IntegrationOutbox → Bool
violates id key [] = false
violates id key (m ∷ ms) = m.message_id == id || m.idempotency_key == key || violates id key ms

abbrev pub new_message : String → ℕ → String → String → String → OutboxMessage
new_message uuid now destination key payload = record {
  message_id = uuid;
  destination = destination;
  idempotency_key = key;
  payload = payload;
  status = pending;
  attempts = 0;
  available_at = now;
  last_error = "";
}

unfoldable pub insert_message :
    OutboxMessage → IntegrationOutbox → Result String × IntegrationOutbox
insert_message m outbox =
    if violates m.message_id m.idempotency_key outbox
    then (err (integrity_error "UNIQUE constraint failed"), outbox)
    else (ok m.message_id, outbox ++ m ∷ [])

-- `if existing_id:`, which an empty id fails
abbrev pub existing : Option String → Option String
existing none = none
existing (some id) = if is_empty id then none else some id

unfoldable pub enqueue :
    String → ℕ → String → String → String → IntegrationOutbox → Result String × IntegrationOutbox
enqueue uuid now destination key payload outbox = elim (existing (find_key key outbox)) [
  | some id ↦ (ok id, outbox)
  | none ↦ insert_message (new_message uuid now destination key payload) outbox
]

abbrev pub is_pending : Status → Bool
is_pending pending = true
is_pending _ = false

-- `ORDER BY available_at`; messages of one instant keep the order of the table.
unfoldable pub place : OutboxMessage → List OutboxMessage → List OutboxMessage
place m [] = m ∷ []
place m (n ∷ ns) =
    let rest = place m ns in if leb m.available_at n.available_at then m ∷ n ∷ ns else n ∷ rest

unfoldable pub order_by_available : List OutboxMessage → List OutboxMessage
order_by_available [] = []
order_by_available (m ∷ ms) = place m (order_by_available ms)

unfoldable pub pending_messages : ℕ → ℕ → IntegrationOutbox → List OutboxMessage
pending_messages limit now outbox =
    take limit
      (order_by_available (keep (λ m. is_pending m.status && leb m.available_at now) outbox))

-- `UPDATE ... WHERE message_id = ?`
unfoldable pub update :
    String → (OutboxMessage → OutboxMessage) → IntegrationOutbox → IntegrationOutbox
update id change [] = []
update id change (m ∷ ms) = (if m.message_id == id then change m else m) ∷ update id change ms

abbrev pub set_delivered : OutboxMessage → OutboxMessage
set_delivered m = record m { status = delivered }

unfoldable pub mark_delivered : String → IntegrationOutbox → IntegrationOutbox
mark_delivered id outbox = update id set_delivered outbox

-- `timedelta(seconds=min(300, 2**attempts))`
abbrev pub backoff : ℕ → ℕ
backoff attempts = (if leb 300 (2 ^ attempts) then 300 else (2 ^ attempts)) * 1000000

abbrev pub set_failed : ℕ → String → ℕ → OutboxMessage → OutboxMessage
set_failed now error attempts m = record m {
  status = if leb 5 attempts then dead_letter else pending;
  attempts = attempts;
  available_at = now + backoff attempts;
  last_error = slice error 0 256;
}

unfoldable pub mark_failed : ℕ → String → String → ℕ → IntegrationOutbox → IntegrationOutbox
mark_failed now id error attempts outbox = update id (set_failed now error attempts) outbox
