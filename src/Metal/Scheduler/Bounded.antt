-- ===== src/Metal/Scheduler/Bounded.antt =====
-- platforms/metal_runtime/scheduler.py: the bounds of the scheduler.
use openmodelops.Base.{
  ℕ, zero, suc, ◌+◌, ◌≤◌, String, ◌≡◌, refl, ap, ◌∙◌, subst, inl, inr, ◌||◌, Option, none, some,
  List, [], ◌∷◌, arith, ltb, leb, nat_eq, Bool-cases, eq_of_nat, eq_of_string, length,
  length-append, Result, ok,
}
use openmodelops.Metal.Scheduler.{
  WorkItem, BoundedScheduler, new_scheduler, make_scheduler, start, stop, submit, expire, take_from,
  take_item, remove_at, item_at, finish_item, finish, Step, starts, stops, submits, expires, takes,
  finishes, Reach, here, later,
}

-- The counts fit: each worker is idle or holds one item.
abbrev IsBounded : BoundedScheduler → Type 0
IsBounded s =
    (s.active ≡ length s.running)
    × (s.idle + length s.running ≡ s.workers)
    × (s.workers ≤ s.slots)
    × (length s.queue ≤ s.queue_limit)

length-remove_at :
    (k : ℕ) (items : List WorkItem) (i : WorkItem)
    → item_at k items ≡ some i
    → length (remove_at k items) + 1 ≡ length items
unfolding remove_at item_at
length-remove_at k [] i h = cc
length-remove_at zero (j ∷ items) i h = omega arith
length-remove_at (suc k) (j ∷ items) i h = omega (arith, length-remove_at k items i h)

start-IsBounded : (s : BoundedScheduler) → IsBounded s → IsBounded (start s)
unfolding start
start-IsBounded s h = elim (Bool-cases (nat_eq s.workers 0)) [
  | inl e ↦ rw e (ground arith)
  | inr e ↦ rw e h
]

stop-IsBounded : (s : BoundedScheduler) → IsBounded s → IsBounded (stop s)
unfolding stop
stop-IsBounded s h = (omega arith, omega arith, omega arith, omega arith)

submit-IsBounded :
    (p : String) (m : ℕ) (s : BoundedScheduler) → IsBounded s → IsBounded (submit p m s).1
unfolding submit
submit-IsBounded p m s (a, b, c, d) = elim (Bool-cases (leb s.queue_limit (length s.queue))) [
  | inl e ↦ rw e (a, b, c, d)
  | inr e ↦ rw e (
    a,
    b,
    c,
    ground (
      arith,
      e,
      length-append s.queue
          (record { prompt = p; maximum_tokens = m; result = length s.futures } ∷ []),
    ),
  )
]

expire-IsBounded : (n : ℕ) (s : BoundedScheduler) → IsBounded s → IsBounded (expire n s)
unfolding expire
expire-IsBounded n s h = h

take_from-IsBounded :
    (n : ℕ) (items : List WorkItem) (s : BoundedScheduler)
    → s.idle ≡ n
    → s.queue ≡ items
    → IsBounded s
    → IsBounded (take_from n items s)
take_from-IsBounded zero items s e f h = h
take_from-IsBounded (suc n) [] s e f h = h
take_from-IsBounded (suc n) (i ∷ items) s e f (a, b, c, d) =
    let grown = length-append s.running (i ∷ []) in
    let taken = ap length f in
    (omega (arith, a, grown), omega (arith, b, grown, e), c, omega (arith, d, taken))

finish_item-IsBounded :
    (k : ℕ) (found : Option WorkItem) (outcome : Result String) (s : BoundedScheduler)
    → item_at k s.running ≡ found
    → IsBounded s
    → IsBounded (finish_item k found outcome s)
finish_item-IsBounded k none outcome s e h = h
finish_item-IsBounded k (some i) outcome s e (a, b, c, d) =
    let shorter = length-remove_at k s.running i e in
    (omega (arith, a, shorter), omega (arith, b, shorter), c, d)

step-IsBounded : (s t : BoundedScheduler) → Step s t → IsBounded s → IsBounded t
unfolding take_item finish
step-IsBounded s _ starts h = start-IsBounded s h
step-IsBounded s _ stops h = stop-IsBounded s h
step-IsBounded s _ (submits p m) h = submit-IsBounded p m s h
step-IsBounded s _ (expires n) h = expire-IsBounded n s h
step-IsBounded s _ takes h = take_from-IsBounded s.idle s.queue s refl refl h
step-IsBounded s _ (finishes k outcome) h =
    finish_item-IsBounded k (item_at k s.running) outcome s refl h

reach-IsBounded : (s t : BoundedScheduler) → Reach s t → IsBounded s → IsBounded t
reach-IsBounded s _ here h = h
reach-IsBounded s u (later {t} r l) h = step-IsBounded t u l (reach-IsBounded s t r h)

-- What a scheduler is set up with
abbrev SameLimits : BoundedScheduler → BoundedScheduler → Type 0
SameLimits s t = (t.slots ≡ s.slots) × (t.queue_limit ≡ s.queue_limit)

take_from-SameLimits :
    (n : ℕ) (items : List WorkItem) (s : BoundedScheduler) → SameLimits s (take_from n items s)
take_from-SameLimits zero items s = (refl, refl)
take_from-SameLimits (suc n) [] s = (refl, refl)
take_from-SameLimits (suc n) (i ∷ items) s = (refl, refl)

finish_item-SameLimits :
    (k : ℕ) (found : Option WorkItem) (outcome : Result String) (s : BoundedScheduler)
    → SameLimits s (finish_item k found outcome s)
finish_item-SameLimits k none outcome s = (refl, refl)
finish_item-SameLimits k (some i) outcome s = (refl, refl)

step-SameLimits : (s t : BoundedScheduler) → Step s t → SameLimits s t
unfolding start stop submit expire take_item finish
step-SameLimits s _ starts = elim (Bool-cases (nat_eq s.workers 0)) [
  | inl e ↦ rw e (refl, refl)
  | inr e ↦ rw e (refl, refl)
]
step-SameLimits s _ stops = (refl, refl)
step-SameLimits s _ (submits p m) = elim (Bool-cases (leb s.queue_limit (length s.queue))) [
  | inl e ↦ rw e (refl, refl)
  | inr e ↦ rw e (refl, refl)
]
step-SameLimits s _ (expires n) = (refl, refl)
step-SameLimits s _ takes = take_from-SameLimits s.idle s.queue s
step-SameLimits s _ (finishes k outcome) = finish_item-SameLimits k (item_at k s.running) outcome s

reach-SameLimits : (s t : BoundedScheduler) → Reach s t → SameLimits s t
reach-SameLimits s _ here = (refl, refl)
reach-SameLimits s u (later {t} r l) =
    let (a, b) = reach-SameLimits s t r in let (c, d) = step-SameLimits t u l in (c ∙ a, d ∙ b)

pub make_scheduler_new :
    (slots queue_limit : ℕ) (s : BoundedScheduler)
    → make_scheduler slots queue_limit ≡ ok s
    → new_scheduler slots queue_limit ≡ s
unfolding make_scheduler
make_scheduler_new slots queue_limit s = elim (Bool-cases (ltb slots 1 || ltb queue_limit 1)) [
  | inl e ↦ rw e (λ h. cc)
  | inr e ↦ rw e (λ h. cc)
]

-- However requests, timeouts, workers, starts and stops are interleaved, the queue is never longer
-- than its limit, no more items are worked on than there are slots, and `active` counts them.
pub scheduler_bounded :
    (slots queue_limit : ℕ) (s t : BoundedScheduler)
    → make_scheduler slots queue_limit ≡ ok s
    → Reach s t
    → (length t.queue ≤ queue_limit) × (length t.running ≤ slots) × (t.active ≡ length t.running)
scheduler_bounded slots queue_limit s t h =
    let made = make_scheduler_new slots queue_limit s h in
    subst
      (λ x.
        Reach x t
        → (length t.queue ≤ queue_limit)
          × (length t.running ≤ slots)
          × (t.active ≡ length t.running))
      made
      (λ r.
        let first = new_scheduler slots queue_limit in
        let (a, b, c, d) = reach-IsBounded first t r (refl, refl, omega arith, omega arith) in
        let (p, q) = reach-SameLimits first t r in (omega (arith, d, q), omega (arith, b, c, p), a))
