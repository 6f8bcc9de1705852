-- ===== src/Metal/Scheduler/Once.antt =====
-- platforms/metal_runtime/scheduler.py: every request is worked on once, in the order of submission.
use openmodelops.Base.{
  ℕ, zero, suc, ◌-◌, ◌≤◌, ◌<◌, String, ◌≡◌, refl, sym, subst, inl, inr, true, Option, none, some,
  List, [], ◌∷◌, ◌++◌, arith, leb, nat_eq, Bool-cases, eq_of_nat, eq_of_string, length,
  length-append, All, All-append, All-map, Result, ok,
}
use openmodelops.Metal.Scheduler.{
  Future, waiting, cancelled, returned, failed, WorkItem, BoundedScheduler, new_scheduler,
  make_scheduler, start, stop, submit, future_at, settle, expire, take_from, take_item, future_of,
  remove_at, item_at, finish_item, finish, Step, starts, stops, submits, expires, takes, finishes,
  Reach, here, later,
}
use openmodelops.Metal.Scheduler.Order.{
  is_open, IsOpen, IsRun, IsRun-append, IsApart, AreDistinct, AreDistinct-append, All-remove_at,
  All-item_at, AreDistinct-remove_at, others-IsApart, append-IsOpen, cancel-IsOpen, settle-IsOpen,
}
use openmodelops.Metal.Scheduler.Bounded.{make_scheduler_new}

length-settle : (n : ℕ) (g : Future) (fs : List Future) → length (settle n g fs) ≡ length fs
unfolding settle
length-settle n g [] = refl
length-settle zero g (waiting ∷ fs) = refl
length-settle zero g (cancelled ∷ fs) = refl
length-settle zero g (returned x ∷ fs) = refl
length-settle zero g (failed x ∷ fs) = refl
length-settle (suc n) g (f ∷ fs) = omega (arith, length-settle n g fs)

both-IsOpen :
    (i : WorkItem) (g : Future) (fs : List Future) (items : List WorkItem)
    → All (IsApart i) items
    → All (λ j. IsOpen fs j.result) items
    → All (λ j. IsOpen (settle i.result g fs) j.result) items
both-IsOpen i g fs [] w h = tt
both-IsOpen i g fs (j ∷ items) w h =
    (settle-IsOpen j.result i.result g fs w.0 h.0, both-IsOpen i g fs items w.1 h.1)

-- The requests from number `k` on are queued in order and open; the running ones came before them,
-- are different and open.
abbrev IsOrdered : BoundedScheduler → Type 0
IsOrdered s =
    (k : ℕ) × IsRun k s.queue (length s.futures)
    × All (λ i. i.result < k) s.running
    × AreDistinct s.running
    × ((n : ℕ) → k ≤ n → IsOpen s.futures n)
    × All (λ i. IsOpen s.futures i.result) s.running

idle-IsOrdered :
    (s : BoundedScheduler) (n m a : ℕ)
    → IsOrdered s
    → IsOrdered (record s { workers = n; idle = m; running = []; active = a })
unfolding AreDistinct
idle-IsOrdered s n m a (k, q, b, d, o, r) = (k, q, tt, tt, o, tt)

start-IsOrdered : (s : BoundedScheduler) → IsOrdered s → IsOrdered (start s)
unfolding start
start-IsOrdered s h = elim (Bool-cases (nat_eq s.workers 0)) [
  | inl e ↦ rw e (idle-IsOrdered s s.slots s.slots s.active h)
  | inr e ↦ rw e h
]

stop-IsOrdered : (s : BoundedScheduler) → IsOrdered s → IsOrdered (stop s)
unfolding stop
stop-IsOrdered s h = idle-IsOrdered s 0 0 (s.active - length s.running) h

submit-IsOrdered :
    (p : String) (m : ℕ) (s : BoundedScheduler) → IsOrdered s → IsOrdered (submit p m s).1
unfolding submit
submit-IsOrdered p m s (k, q, b, d, o, r) =
    let i : WorkItem = record { prompt = p; maximum_tokens = m; result = length s.futures } in
    let longer = length-append s.futures (waiting ∷ []) in
    elim (Bool-cases (leb s.queue_limit (length s.queue))) [
      | inl e ↦ rw e (k, q, b, d, o, r)
      | inr e ↦ rw e (
        k,
        subst (λ n. IsRun k (s.queue ++ i ∷ []) n) (omega (arith, longer))
            (IsRun-append k (length s.futures) s.queue i q refl),
        b,
        d,
        (λ n h. append-IsOpen n s.futures (o n h)),
        All-map (λ j h. append-IsOpen j.result s.futures h) s.running r,
      )
    ]

expire-IsOrdered : (n : ℕ) (s : BoundedScheduler) → IsOrdered s → IsOrdered (expire n s)
unfolding expire
expire-IsOrdered n s (k, q, b, d, o, r) = (
  k,
  subst (λ m. IsRun k s.queue m) (sym (length-settle n cancelled s.futures)) q,
  b,
  d,
  (λ m h. cancel-IsOpen m n s.futures (o m h)),
  All-map (λ i h. cancel-IsOpen i.result n s.futures h) s.running r,
)

take_from-IsOrdered :
    (n : ℕ) (items : List WorkItem) (s : BoundedScheduler)
    → s.queue ≡ items
    → IsOrdered s
    → IsOrdered (take_from n items s)
unfolding IsRun
take_from-IsOrdered zero items s e h = h
take_from-IsOrdered (suc n) [] s e h = h
take_from-IsOrdered (suc n) (i ∷ items) s e (k, q, b, d, o, r) =
    let (first, rest) = subst (λ xs. IsRun k xs (length s.futures)) e q in
    (
      suc k,
      rest,
      All-append (λ j. j.result < suc k) s.running (i ∷ [])
          (All-map (λ j h. omega (arith, h)) s.running b) (omega (arith, first), tt),
      AreDistinct-append s.running i d (All-map (λ j h. omega (arith, h, first)) s.running b),
      (λ m h. o m (omega (arith, h))),
      All-append (λ j. IsOpen s.futures j.result) s.running (i ∷ []) r
          (o i.result (omega (arith, first)), tt),
    )

finish_item-IsOrdered :
    (l : ℕ) (found : Option WorkItem) (outcome : Result String) (s : BoundedScheduler)
    → item_at l s.running ≡ found
    → IsOrdered s
    → IsOrdered (finish_item l found outcome s)
finish_item-IsOrdered l none outcome s e h = h
finish_item-IsOrdered l (some i) outcome s e (k, q, b, d, o, r) =
    let g = future_of outcome in
    let before = All-item_at (λ j. j.result < k) l s.running i e b in
    (
      k,
      subst (λ m. IsRun k s.queue m) (sym (length-settle i.result g s.futures)) q,
      All-remove_at (λ j. j.result < k) l s.running b,
      AreDistinct-remove_at l s.running d,
      (λ m h. settle-IsOpen m i.result g s.futures (λ c. omega (arith, c, h, before)) (o m h)),
      both-IsOpen i g s.futures (remove_at l s.running) (others-IsApart l s.running i e d)
          (All-remove_at (λ j. IsOpen s.futures j.result) l s.running r),
    )

step-IsOrdered : (s t : BoundedScheduler) → Step s t → IsOrdered s → IsOrdered t
unfolding take_item finish
step-IsOrdered s _ starts h = start-IsOrdered s h
step-IsOrdered s _ stops h = stop-IsOrdered s h
step-IsOrdered s _ (submits p m) h = submit-IsOrdered p m s h
step-IsOrdered s _ (expires n) h = expire-IsOrdered n s h
step-IsOrdered s _ takes h = take_from-IsOrdered s.idle s.queue s refl h
step-IsOrdered s _ (finishes k outcome) h =
    finish_item-IsOrdered k (item_at k s.running) outcome s refl h

reach-IsOrdered : (s t : BoundedScheduler) → Reach s t → IsOrdered s → IsOrdered t
reach-IsOrdered s _ here h = h
reach-IsOrdered s u (later {t} r l) h = step-IsOrdered t u l (reach-IsOrdered s t r h)

new-IsOrdered : (slots queue_limit : ℕ) → IsOrdered (new_scheduler slots queue_limit)
unfolding IsRun AreDistinct future_at
new-IsOrdered slots queue_limit = (0, refl, tt, tt, (λ n h. refl), tt)

-- However requests, timeouts, workers, starts and stops are interleaved, the items in work belong to
-- different requests, none of which has got an answer before, so no request is worked on twice;
-- those in the queue were submitted one after the other, after all those in work, and the last of
-- all requests is at its end.
pub worked_once :
    (slots queue_limit : ℕ) (s t : BoundedScheduler)
    → make_scheduler slots queue_limit ≡ ok s
    → Reach s t
    → AreDistinct t.running
      × All (λ i. is_open (future_at i.result t.futures) ≡ true) t.running
      × ((k : ℕ) × IsRun k t.queue (length t.futures) × All (λ i. i.result < k) t.running)
worked_once slots queue_limit s t h reached =
    let made = make_scheduler_new slots queue_limit s h in
    let first = subst IsOrdered made (new-IsOrdered slots queue_limit) in
    let (k, q, b, d, o, r) = reach-IsOrdered s t reached first in (d, r, (k, q, b))
