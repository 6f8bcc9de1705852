-- ===== src/Integrations/Dispatcher/Settled.antt =====
-- platforms/integrations: what producers and dispatchers can make of an outbox.
use openmodelops.Base.{
  ℕ, ◌≤◌, String, ◌≡◌, refl, sym, ap, ◌∙◌, ◌≢◌, inl, inr, true, false, ◌&&◌, false≢true, some, List,
  [], ◌∷◌, arith, leb, Bool-cases, Option-cases, eq_of_nat, eq_of_string, All, All-append, All-map,
  Result-cases,
}
use openmodelops.Integrations.Outbox.{
  OutboxMessage, IntegrationOutbox, is_pending, pending_messages, new_message, insert_message,
  existing, find_key, violates, enqueue,
}
use openmodelops.Integrations.Outbox.Unique.{IsUnique, enqueue-IsUnique}
use openmodelops.Integrations.Outbox.Due.{
  pending_messages-All, find_message, IsUnique-found, update-IsUnique, find_message-update,
}
use openmodelops.Integrations.Dispatcher.{
  DispatchResult, Handlers, Loop, dispatch, dispatch_all, no_results, run_once,
}
use openmodelops.Integrations.Dispatcher.Attempts.{
  Bounded, update-Bounded, Updates, dispatch-Updates,
}

pub record Inv (outbox : IntegrationOutbox) : Type 0 where
  pub unique : IsUnique outbox
  pub bounded : All Bounded outbox

update-Inv : (m : OutboxMessage) (loop next : Loop) → Updates m loop next → Inv loop.1 → Inv next.1
update-Inv m loop next (change, c, e) h = rw e (record {
  unique = update-IsUnique m.message_id change c.same_id c.same_key loop.1 h.unique;
  bounded = update-Bounded m.message_id change loop.1 c.bounded h.bounded;
})

dispatch_all-Inv :
    (now : ℕ) (handlers : Handlers) (ms : List OutboxMessage) (r : DispatchResult)
    (outbox : IntegrationOutbox)
    → All (λ m. m.attempts ≤ 4) ms
    → Inv outbox
    → Inv (dispatch_all now handlers ms (r, outbox)).1
unfolding dispatch_all
dispatch_all-Inv now handlers [] r outbox a h = h
dispatch_all-Inv now handlers (m ∷ ms) r outbox a h =
    elim (Result-cases (dispatch now handlers m (r, outbox))) [
      | inl (loop, e) ↦
          rw (dispatch_all, e)
            (dispatch_all-Inv now handlers ms loop.0 loop.1 a.1
              (update-Inv m (r, outbox) loop (dispatch-Updates now handlers m (r, outbox) a.0 e) h))
      | inr (x, e) ↦ rw (dispatch_all, e) h
    ]

pending-few : (m : OutboxMessage) → Bounded m → is_pending m.status ≡ true → m.attempts ≤ 4
pending-few m b p = ground arith

due-few :
    (limit now : ℕ) (outbox : IntegrationOutbox)
    → All Bounded outbox
    → All (λ m. m.attempts ≤ 4) (pending_messages limit now outbox)
due-few limit now outbox h =
    pending_messages-All (λ m. m.attempts ≤ 4) limit now outbox
      (All-map (λ m b e. pending-few m b (ground arith)) outbox h)

run_once-Inv :
    (limit now : ℕ) (handlers : Handlers) (outbox : IntegrationOutbox)
    → Inv outbox
    → Inv (run_once limit now handlers outbox).1
unfolding run_once
run_once-Inv limit now handlers outbox h =
    dispatch_all-Inv now handlers _ no_results outbox (due-few limit now outbox h.bounded) h

enqueue-Bounded :
    (uuid : String) (now : ℕ) (destination key payload : String) (outbox : IntegrationOutbox)
    → All Bounded outbox
    → All Bounded (enqueue uuid now destination key payload outbox).1
unfolding enqueue insert_message
enqueue-Bounded uuid now destination key payload outbox h =
    elim (Option-cases (existing (find_key key outbox))) [
      | inr (id, e) ↦ rw (enqueue, e) h
      | inl e ↦ elim (Bool-cases (violates uuid key outbox)) [
        | inl v ↦ rw (enqueue, e, insert_message, v) h
        | inr v ↦
            rw (enqueue, e, insert_message, v)
              (All-append Bounded outbox (new_message uuid now destination key payload ∷ []) h
                (omega arith, tt))
      ]
    ]

-- A producer enqueues a message, or a dispatcher runs, at any time and with handlers that may answer
-- otherwise each time.
pub data Op : Type 0 where
  enqueueing : String → ℕ → String → String → String → Op
  running : ℕ → ℕ → Handlers → Op

unfoldable pub step : Op → IntegrationOutbox → IntegrationOutbox
step (enqueueing uuid now destination key payload) outbox =
    (enqueue uuid now destination key payload outbox).1
step (running limit now handlers) outbox = (run_once limit now handlers outbox).1

unfoldable pub steps : List Op → IntegrationOutbox → IntegrationOutbox
steps [] outbox = outbox
steps (op ∷ ops) outbox = steps ops (step op outbox)

step-Inv : (op : Op) (outbox : IntegrationOutbox) → Inv outbox → Inv (step op outbox)
unfolding step
step-Inv (enqueueing uuid now destination key payload) outbox h = record {
  unique = enqueue-IsUnique uuid now destination key payload outbox h.unique;
  bounded = enqueue-Bounded uuid now destination key payload outbox h.bounded;
}
step-Inv (running limit now handlers) outbox h = run_once-Inv limit now handlers outbox h

steps-Inv : (ops : List Op) (outbox : IntegrationOutbox) → Inv outbox → Inv (steps ops outbox)
unfolding steps
steps-Inv [] outbox h = h
steps-Inv (op ∷ ops) outbox h = steps-Inv ops (step op outbox) (step-Inv op outbox h)

-- However producers and dispatchers take turns on an empty outbox, and whatever the handlers answer,
-- no two messages have an id or an idempotency key in common, a message that is still pending has
-- failed at most four times, and a dead letter stands at exactly five attempts.
pub outbox_bounded : (ops : List Op) → Inv (steps ops [])
outbox_bounded ops = steps-Inv ops [] (record { unique = tt; bounded = tt })

untouched :
    (now : ℕ) (handlers : Handlers) (id : String) (ms : List OutboxMessage) (r : DispatchResult)
    (outbox : IntegrationOutbox)
    → All (λ m. m.attempts ≤ 4) ms
    → All (λ m. m.message_id ≢ id) ms
    → find_message id (dispatch_all now handlers ms (r, outbox)).1 ≡ find_message id outbox
unfolding dispatch_all
untouched now handlers id [] r outbox a n = refl
untouched now handlers id (m ∷ ms) r outbox a n =
    elim (Result-cases (dispatch now handlers m (r, outbox))) [
      | inl (loop, e) ↦
          let (change, c, u) = dispatch-Updates now handlers m (r, outbox) a.0 e in
          rw (dispatch_all, e)
            (untouched now handlers id ms loop.0 loop.1 a.1 n.1
              ∙ ap (find_message id) u
              ∙ find_message-update m.message_id change c.same_id c.same_key id outbox n.0)
      | inr (x, e) ↦ rw (dispatch_all, e) refl
    ]

some-injective {ℓ} : {A : Type ℓ} {x y : A} → some x ≡ some y → x ≡ y
some-injective h = ground arith

not_due :
    (now : ℕ) (n m : OutboxMessage)
    → (is_pending n.status && leb n.available_at now) ≡ true
    → (is_pending m.status && leb m.available_at now) ≡ false
    → n ≡ m
    → ⊥
not_due now n m d e p =
    false≢true (sym e ∙ ap (λ k. is_pending k.status && leb k.available_at now) (sym p) ∙ d)

-- A run leaves a message alone that is not due: in an outbox that producers and dispatchers made, a
-- message that is delivered, dead-lettered or waits for a later time is afterwards as it was, so a
-- delivered message is never sent again and the wait after a failure is kept.
pub settled_untouched :
    (ops : List Op) (limit now : ℕ) (handlers : Handlers) (id : String) {m : OutboxMessage}
    → let outbox = steps ops [] in
      find_message id outbox ≡ some m
      → (is_pending m.status && leb m.available_at now) ≡ false
      → find_message id (run_once limit now handlers outbox).1 ≡ some m
unfolding run_once
settled_untouched ops limit now handlers id {m} f e =
    let outbox = steps ops [] in
    let h = outbox_bounded ops in
    untouched now handlers id _ no_results outbox (due-few limit now outbox h.bounded) (
      pending_messages-All (λ n. n.message_id ≢ id) limit now outbox
        (All-map
          (λ n g d i.
            not_due now n m d e (some-injective (sym g ∙ ap (λ j. find_message j outbox) i ∙ f)))
          outbox (IsUnique-found outbox h.unique)))
    ∙ f
