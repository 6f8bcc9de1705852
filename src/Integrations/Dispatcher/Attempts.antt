-- ===== src/Integrations/Dispatcher/Attempts.antt =====
-- platforms/integrations/dispatcher.py: the counters of a run, and the bound on the attempts.
use openmodelops.Base.{
  ℕ, suc, ◌+◌, ◌≤◌, String, ◌≡◌, refl, inl, inr, List, [], ◌∷◌, arith, Bool-cases, Option-cases,
  ◌==◌, eq_of_nat, eq_of_string, length, All, length-take, ok, Result-cases,
}
use openmodelops.Base.Dict.{lookup}
use openmodelops.Integrations.Outbox.{
  pending, delivered, dead_letter, OutboxMessage, IntegrationOutbox, pending_messages, update,
  set_delivered, mark_delivered, set_failed, mark_failed, order_by_available,
}
use openmodelops.Integrations.Dispatcher.{
  DispatchResult, Outcome, returned, raised, crashed, Handlers, Loop, settle, dispatch,
  dispatch_all, no_results, run_once,
}

abbrev total : DispatchResult → ℕ
total r = r.delivered + r.failed + r.dead_lettered

dispatch_counts :
    (now : ℕ) (handlers : Handlers) (m : OutboxMessage) (loop : Loop) {next : Loop}
    → dispatch now handlers m loop ≡ ok next
    → total next.0 ≡ suc (total loop.0)
unfolding dispatch
dispatch_counts now handlers m (r, outbox) h = ground arith

dispatch_all_counts :
    (now : ℕ) (handlers : Handlers) (ms : List OutboxMessage) (loop : Loop) {r : DispatchResult}
    → (dispatch_all now handlers ms loop).0 ≡ ok r
    → total r ≡ total loop.0 + length ms
unfolding dispatch_all
dispatch_all_counts now handlers [] (s, outbox) {r} = λ h. ground arith
dispatch_all_counts now handlers (m ∷ ms) (s, outbox) {r} =
    elim (Result-cases (dispatch now handlers m (s, outbox))) [
      | inl (loop, e) ↦
          rw (dispatch_all, e)
            (λ h. omega (
              arith,
              dispatch_all_counts now handlers ms loop h,
              dispatch_counts now handlers m (s, outbox) e,
            ))
      | inr (x, e) ↦ rw (dispatch_all, e) (λ h. ground arith)
    ]

-- A run that ends counts every message that was due once, as delivered, failed or dead-lettered, and
-- takes no more of them than its limit.
pub run_once_counts :
    (limit now : ℕ) (handlers : Handlers) (outbox : IntegrationOutbox) {r : DispatchResult}
    → (run_once limit now handlers outbox).0 ≡ ok r
    → (r.delivered + r.failed + r.dead_lettered ≡ length (pending_messages limit now outbox))
      × (r.delivered + r.failed + r.dead_lettered ≤ limit)
unfolding run_once pending_messages
run_once_counts limit now handlers outbox h =
    let counts = dispatch_all_counts now handlers _ (no_results, outbox) h in
    (omega (arith, counts), omega (arith, counts, length-take limit (order_by_available _)))

-- What the attempts of a message say with its status.
abbrev pub Bounded : OutboxMessage → Type 0
Bounded m = elim m.status [
  | pending ↦ m.attempts ≤ 4
  | delivered ↦ m.attempts ≤ 5
  | dead_letter ↦ m.attempts ≡ 5
]

pub update-Bounded :
    (id : String) (change : OutboxMessage → OutboxMessage) (ms : IntegrationOutbox)
    → ((m : OutboxMessage) → Bounded m → Bounded (change m))
    → All Bounded ms
    → All Bounded (update id change ms)
unfolding update
update-Bounded id change [] c h = tt
update-Bounded id change (m ∷ ms) c h = elim (Bool-cases (m.message_id == id)) [
  | inl e ↦ rw e (c m h.0, update-Bounded id change ms c h.1)
  | inr e ↦ rw e (h.0, update-Bounded id change ms c h.1)
]

-- An update that a run makes.
pub record IsChange (change : OutboxMessage → OutboxMessage) : Type 0 where
  pub same_id : (m : OutboxMessage) → (change m).message_id ≡ m.message_id
  pub same_key : (m : OutboxMessage) → (change m).idempotency_key ≡ m.idempotency_key
  pub bounded : (m : OutboxMessage) → Bounded m → Bounded (change m)

delivered-IsChange : IsChange set_delivered
delivered-IsChange = record {
  same_id = λ m. refl;
  same_key = λ m. refl;
  bounded = λ m h. ground arith;
}

failed-IsChange :
    (now : ℕ) (error : String) (attempts : ℕ)
    → attempts ≤ 5
    → IsChange (set_failed now error attempts)
failed-IsChange now error attempts h = record {
  same_id = λ m. refl;
  same_key = λ m. refl;
  bounded = λ m b. ground arith;
}

-- A step that makes one update, of this message.
abbrev pub Updates : OutboxMessage → Loop → Loop → Type 0
Updates m loop next =
    (change : OutboxMessage → OutboxMessage) × IsChange change
    × (next.1 ≡ update m.message_id change loop.1)

settle-Updates :
    (now : ℕ) (m : OutboxMessage) (outcome : Outcome) (loop : Loop) {next : Loop}
    → m.attempts ≤ 4
    → settle now m outcome loop ≡ ok next
    → Updates m loop next
unfolding mark_delivered mark_failed
settle-Updates now m returned (r, outbox) le h = (set_delivered, delivered-IsChange, ground arith)
settle-Updates now m (raised name) (r, outbox) le h = (
  set_failed now name (suc m.attempts),
  failed-IsChange now name (suc m.attempts) (omega arith),
  ground arith,
)
settle-Updates now m (crashed e) (r, outbox) le h = ground arith

pub dispatch-Updates :
    (now : ℕ) (handlers : Handlers) (m : OutboxMessage) (loop : Loop) {next : Loop}
    → m.attempts ≤ 4
    → dispatch now handlers m loop ≡ ok next
    → Updates m loop next
unfolding mark_failed dispatch
dispatch-Updates now handlers m (r, outbox) {next} le =
    elim (Option-cases (lookup m.destination handlers)) [
      | inl e ↦
          rw (dispatch, e)
            (λ h. (
              set_failed now "destination has no registered handler" 5,
              failed-IsChange now "destination has no registered handler" 5 (omega arith),
              ground arith,
            ))
      | inr (handler, e) ↦
          rw (dispatch, e)
            (settle-Updates now m (handler m.payload m.idempotency_key) (r, outbox) le)
    ]
