-- ===== src/Integrations/Outbox/Unique.antt =====
-- platforms/integrations/outbox.py: one message for each idempotency key.
use openmodelops.Base.{
  ℕ, String, ◌≡◌, refl, sym, ap, ◌∙◌, inl, inr, false, ◌||◌, Option, none, some, [], ◌∷◌, ◌++◌,
  arith, eq_iff, Bool-cases, Option-cases, ◌==◌, eq_of_nat, eq_of_string, is_empty, ok,
}
use openmodelops.Integrations.Outbox.{
  OutboxMessage, IntegrationOutbox, find_key, violates, new_message, insert_message, existing,
  enqueue,
}

-- No two messages have an id or a key in common.
abbrev pub IsUnique : IntegrationOutbox → Type 0
IsUnique [] = Unit
IsUnique (m ∷ ms) = (violates m.message_id m.idempotency_key ms ≡ false) × IsUnique ms

violates-append :
    (id key : String) (ms : IntegrationOutbox) (m : OutboxMessage)
    → violates id key (ms ++ m ∷ [])
      ≡ (violates id key ms || (m.message_id == id || m.idempotency_key == key))
unfolding violates
violates-append id key [] m = ground arith
violates-append id key (n ∷ ms) m = ground (arith, violates-append id key ms m)

IsUnique-append :
    (ms : IntegrationOutbox) (m : OutboxMessage)
    → violates m.message_id m.idempotency_key ms ≡ false
    → IsUnique ms
    → IsUnique (ms ++ m ∷ [])
unfolding violates
IsUnique-append [] m v u = (refl, tt)
IsUnique-append (n ∷ ms) m v (w, u) = (
  ground (
    arith,
    violates-append n.message_id n.idempotency_key ms m,
    eq_iff n.message_id m.message_id,
    eq_iff m.message_id n.message_id,
    eq_iff n.idempotency_key m.idempotency_key,
    eq_iff m.idempotency_key n.idempotency_key,
  ),
  IsUnique-append ms m (ground arith) u,
)

insert_message-IsUnique :
    (m : OutboxMessage) (ms : IntegrationOutbox) → IsUnique ms → IsUnique (insert_message m ms).1
unfolding insert_message
insert_message-IsUnique m ms u = elim (Bool-cases (violates m.message_id m.idempotency_key ms)) [
  | inl e ↦ rw e u
  | inr e ↦ rw e (IsUnique-append ms m e u)
]

pub enqueue-IsUnique :
    (uuid : String) (now : ℕ) (destination key payload : String) (ms : IntegrationOutbox)
    → IsUnique ms
    → IsUnique (enqueue uuid now destination key payload ms).1
unfolding enqueue
enqueue-IsUnique uuid now destination key payload ms u =
    elim (Option-cases (existing (find_key key ms))) [
      | inl e ↦ rw (enqueue, e) (insert_message-IsUnique _ ms u)
      | inr (id, e) ↦ rw (enqueue, e) u
    ]

find_key-append :
    (id key : String) (ms : IntegrationOutbox) (m : OutboxMessage)
    → violates id key ms ≡ false
    → m.idempotency_key ≡ key
    → find_key key (ms ++ m ∷ []) ≡ some m.message_id
unfolding violates find_key
find_key-append id key [] m v e = ground (arith, eq_iff m.idempotency_key key)
find_key-append id key (n ∷ ms) m v e = ground (arith, find_key-append id key ms m (ground arith) e)

insert_message_found :
    (m : OutboxMessage) (ms : IntegrationOutbox) {id : String}
    → (insert_message m ms).0 ≡ ok id
    → (id ≡ m.message_id) × (find_key m.idempotency_key (insert_message m ms).1 ≡ some m.message_id)
unfolding insert_message
insert_message_found m ms {id} = elim (Bool-cases (violates m.message_id m.idempotency_key ms)) [
  | inl e ↦ rw e (λ h. ground arith)
  | inr e ↦ rw e (λ h. (ground arith, find_key-append m.message_id m.idempotency_key ms m e refl))
]

existing_found : (o : Option String) {id : String} → existing o ≡ some id → o ≡ some id
existing_found none h = ground arith
existing_found (some i) h = ground arith

enqueue_found :
    (uuid : String) (now : ℕ) (destination key payload : String) (ms : IntegrationOutbox)
    {id : String}
    → (enqueue uuid now destination key payload ms).0 ≡ ok id
    → find_key key (enqueue uuid now destination key payload ms).1 ≡ some id
unfolding enqueue
enqueue_found uuid now destination key payload ms {id} =
    elim (Option-cases (existing (find_key key ms))) [
      | inl e ↦
          rw (enqueue, e)
            (λ h.
              let (same, found) =
                insert_message_found (new_message uuid now destination key payload) ms h in
              found ∙ ap some (sym same))
      | inr (i, e) ↦ rw (enqueue, e) (λ h. existing_found (find_key key ms) e ∙ ground arith)
    ]

again :
    (uuid : String) (now : ℕ) (destination key payload : String) (ms : IntegrationOutbox)
    {id : String}
    → find_key key ms ≡ some id
    → is_empty id ≡ false
    → enqueue uuid now destination key payload ms ≡ (ok id, ms)
unfolding enqueue
again uuid now destination key payload ms f n = rw (enqueue, f, n) refl

-- A message that was put into the outbox is not put in again: whatever else a second call with its
-- idempotency key says, it gets the id of the first one, if that is not empty, and leaves the outbox
-- as it is.
pub enqueue_idempotent :
    (uuid uuid' : String) (now now' : ℕ) (destination destination' key payload payload' : String)
    (ms : IntegrationOutbox) {id : String}
    → (enqueue uuid now destination key payload ms).0 ≡ ok id
    → is_empty id ≡ false
    → let outbox = (enqueue uuid now destination key payload ms).1 in
      enqueue uuid' now' destination' key payload' outbox ≡ (ok id, outbox)
enqueue_idempotent uuid uuid' now now' destination destination' key payload payload' ms h n =
    again uuid' now' destination' key payload' _
      (enqueue_found uuid now destination key payload ms h) n
