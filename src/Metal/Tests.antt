-- ===== src/Metal/Tests.antt =====
-- Runs of the index of prompts, and its theorem at a concrete input.
use openmodelops.Base.{
  ℕ, ◌≤◌, ◌<◌, String, ◌<>◌, ◌≡◌, refl, true, some, List, [], ◌∷◌, map, eq_of_nat, eq_of_string,
  length, All, ok,
}
use openmodelops.Base.Dict.{keys, lookup}
use openmodelops.Metal.Scheduler.{
  waiting, cancelled, BoundedScheduler, new_scheduler, make_scheduler, start, submit, future_at,
  settle, expire, take_item, remove_at, item_at, finish, Reach, here, later, starts, submits,
  expires, takes,
}
use openmodelops.Metal.Scheduler.Order.{is_open, IsRun, AreDistinct}
use openmodelops.Metal.Scheduler.Bounded.{scheduler_bounded}
use openmodelops.Metal.Scheduler.Once.{worked_once}
use openmodelops.Metal.Cache.{
  PromptCacheIndex, make_index, key_for, without, put_last, evict, lookup_prompt, record_prompt,
}
use openmodelops.Metal.Cache.Recency.{Op, looking, recording, step, steps, cache_bounded}

abbrev digest : String → String
digest s = "digest of " <> s

abbrev index : PromptCacheIndex
index = record { capacity = 2; entries = [] }

made_index : make_index 2 ≡ ok index
unfolding make_index
made_index = refl

abbrev calls : List Op
calls = recording "m" "a" 1 ∷ recording "m" "b" 2 ∷ looking "m" "a" ∷ recording "m" "c" 3 ∷ []

-- The prompt that was looked up last stays, the other one goes.
oldest_evicted :
    keys (steps digest calls index).entries ≡ key_for digest "m" "a" ∷ key_for digest "m" "c" ∷ []
unfolding steps keys step record_prompt evict put_last without lookup_prompt lookup
oldest_evicted = refl

cache_bounded_example :
    let after = (record_prompt digest "m" "d" 4 (steps digest calls index)).1 in
    (length (steps digest calls index).entries ≤ 2)
    × ((lookup_prompt digest "m" "d" after).0
        ≡ some (record { key = key_for digest "m" "d"; model_id = "m"; token_count = 4 }))
cache_bounded_example = cache_bounded digest 2 calls "m" "d" 4 made_index

abbrev fresh : BoundedScheduler
fresh = new_scheduler 1 2

-- Two requests, of which the first is taken and then not waited for
abbrev busy : BoundedScheduler
busy = expire 0 (take_item (submit "b" 10 (submit "a" 10 (start fresh)).1).1)

busy_reached : Reach fresh busy
busy_reached =
    later (later (later (later (later here starts) (submits "a" 10)) (submits "b" 10)) takes)
      (expires 0)

busy_queue : map (λ i. i.prompt) busy.queue ≡ "b" ∷ []
unfolding expire take_item submit start
busy_queue = refl

-- The answer to the first comes too late.
late_answer : (finish 0 (ok "late") busy).futures ≡ cancelled ∷ waiting ∷ []
unfolding expire take_item submit start finish settle item_at remove_at
late_answer = refl

fresh_made : make_scheduler 1 2 ≡ ok fresh
unfolding make_scheduler
fresh_made = refl

scheduler_bounded_example :
    (length busy.queue ≤ 2) × (length busy.running ≤ 1) × (busy.active ≡ length busy.running)
scheduler_bounded_example = scheduler_bounded 1 2 fresh busy fresh_made busy_reached

worked_once_example :
    AreDistinct busy.running
    × All (λ i. is_open (future_at i.result busy.futures) ≡ true) busy.running
    × ((k : ℕ) × IsRun k busy.queue (length busy.futures) × All (λ i. i.result < k) busy.running)
worked_once_example = worked_once 1 2 fresh busy fresh_made busy_reached
