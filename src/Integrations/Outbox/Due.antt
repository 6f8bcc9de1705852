-- ===== src/Integrations/Outbox/Due.antt =====
-- platforms/integrations/outbox.py: the messages of `pending`, and what an update leaves alone.
use openmodelops.Base.{
  ℕ, String, ◌≡◌, refl, ◌∙◌, ◌≢◌, inl, inr, true, false, ◌&&◌, Option, none, some, List, [], ◌∷◌,
  arith, eq_iff, leb, if◌then◌else◌, Bool-cases, ◌==◌, eq_of_nat, eq_of_string, All, All-take,
  All-keep,
}
use openmodelops.Integrations.Outbox.{
  OutboxMessage, IntegrationOutbox, violates, is_pending, place, order_by_available,
  pending_messages, update,
}
use openmodelops.Integrations.Outbox.Unique.{IsUnique}

module _ (P : OutboxMessage → Type 0) where
  place-All : (m : OutboxMessage) (ms : List OutboxMessage) → P m → All P ms → All P (place m ms)
  unfolding place
  place-All m [] p h = (p, tt)
  place-All m (n ∷ ns) p h = elim (Bool-cases (leb m.available_at n.available_at)) [
    | inl e ↦ rw e (p, h)
    | inr e ↦ rw e (h.0, place-All m ns p h.1)
  ]

  order-All : (ms : List OutboxMessage) → All P ms → All P (order_by_available ms)
  unfolding order_by_available
  order-All [] h = tt
  order-All (m ∷ ms) h = place-All m (order_by_available ms) h.0 (order-All ms h.1)

  pub pending_messages-All :
      (limit now : ℕ) (outbox : IntegrationOutbox)
      → All (λ m. (is_pending m.status && leb m.available_at now) ≡ true → P m) outbox
      → All P (pending_messages limit now outbox)
  unfolding pending_messages
  pending_messages-All limit now outbox h = All-take P limit _ (order-All _ (All-keep P _ outbox h))

-- `SELECT ... WHERE message_id = ?`
unfoldable pub find_message : String → IntegrationOutbox → Option OutboxMessage
find_message id [] = none
find_message id (m ∷ ms) = if m.message_id == id then some m else find_message id ms

other_ids :
    (id key : String) (ms : IntegrationOutbox)
    → violates id key ms ≡ false
    → All (λ m. m.message_id ≢ id) ms
unfolding violates
other_ids id key [] v = tt
other_ids id key (m ∷ ms) v =
    (ground (arith, eq_iff m.message_id id), other_ids id key ms (ground arith))

skip_first :
    (m : OutboxMessage) (ms ns : IntegrationOutbox)
    → All (λ n. n.message_id ≢ m.message_id) ns
    → All (λ n. find_message n.message_id ms ≡ some n) ns
    → All (λ n. find_message n.message_id (m ∷ ms) ≡ some n) ns
unfolding find_message
skip_first m ms [] d h = tt
skip_first m ms (n ∷ ns) d h =
    (ground (arith, eq_iff m.message_id n.message_id, d.0, h.0), skip_first m ms ns d.1 h.1)

-- In an outbox without two messages of one id each is found under its own.
pub IsUnique-found :
    (ms : IntegrationOutbox) → IsUnique ms → All (λ m. find_message m.message_id ms ≡ some m) ms
unfolding find_message
IsUnique-found [] u = tt
IsUnique-found (m ∷ ms) (v, u) = (
  ground (arith, eq_iff m.message_id m.message_id),
  skip_first m ms ms (other_ids m.message_id m.idempotency_key ms v) (IsUnique-found ms u),
)

module _ (id : String) (change : OutboxMessage → OutboxMessage)
    (same_id : (m : OutboxMessage) → (change m).message_id ≡ m.message_id)
    (same_key : (m : OutboxMessage) → (change m).idempotency_key ≡ m.idempotency_key) where
  update-violates :
      (i k : String) (ms : IntegrationOutbox) → violates i k (update id change ms) ≡ violates i k ms
  unfolding violates update
  update-violates i k [] = refl
  update-violates i k (m ∷ ms) = elim (Bool-cases (m.message_id == id)) [
    | inl e ↦ rw (e, same_id m, same_key m, update-violates i k ms) refl
    | inr e ↦ rw (e, update-violates i k ms) refl
  ]

  pub update-IsUnique : (ms : IntegrationOutbox) → IsUnique ms → IsUnique (update id change ms)
  unfolding update
  update-IsUnique [] u = tt
  update-IsUnique (m ∷ ms) (v, u) = elim (Bool-cases (m.message_id == id)) [
    | inl e ↦
        rw (e, same_id m, same_key m)
          (update-violates m.message_id m.idempotency_key ms ∙ v, update-IsUnique ms u)
    | inr e ↦ rw e (update-violates m.message_id m.idempotency_key ms ∙ v, update-IsUnique ms u)
  ]

  pub find_message-update :
      (j : String) (ms : IntegrationOutbox)
      → id ≢ j
      → find_message j (update id change ms) ≡ find_message j ms
  unfolding update find_message
  find_message-update j [] n = refl
  find_message-update j (m ∷ ms) n = elim (Bool-cases (m.message_id == id)) [
    | inl e ↦
        rw (e, same_id m, find_message-update j ms n)
          (ground (arith, eq_iff m.message_id id, eq_iff m.message_id j))
    | inr e ↦ rw (e, find_message-update j ms n) refl
  ]
