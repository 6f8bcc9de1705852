-- ===== src/Metal/Cache/Recency.antt =====
-- platforms/metal_runtime/cache.py: the bound of the index, and what was recorded last.
use openmodelops.Base.{
  ℕ, ◌≤◌, ◌<◌, String, ◌≡◌, refl, ◌∙◌, inl, inr, none, some, List, [], ◌∷◌, ◌++◌, arith, eq_iff,
  Option-cases, eq_of_nat, eq_of_string, length, length-append, ok,
}
use openmodelops.Base.Dict.{Dict, lookup}
use openmodelops.Metal.Cache.{
  PromptCacheEntry, PromptCacheIndex, make_index, key_for, without, put_last, evict, lookup_prompt,
  record_prompt,
}

evict_bound : (n : ℕ) (es : Dict String PromptCacheEntry) → length (evict n es) ≤ n
unfolding evict
evict_bound n [] = omega arith
evict_bound n (e ∷ es) = ground (arith, evict_bound n es)

length-without :
    (key : String) (es : Dict String PromptCacheEntry) → length (without key es) ≤ length es
unfolding without
length-without key [] = omega arith
length-without key ((k, e) ∷ es) = ground (arith, length-without key es)

without_present :
    (key : String) (es : Dict String PromptCacheEntry) (entry : PromptCacheEntry)
    → lookup key es ≡ some entry
    → length (without key es) < length es
unfolding without lookup
without_present key [] entry h = ground arith
without_present key ((k, e) ∷ es) entry h =
    ground (arith, length-without key es, without_present key es entry)

kept_last :
    (key : String) (entry : PromptCacheEntry) (es : Dict String PromptCacheEntry)
    → lookup key es ≡ none
    → lookup key (es ++ (key, entry) ∷ []) ≡ some entry
unfolding lookup
kept_last key entry [] a = ground (arith, eq_iff key key)
kept_last key entry ((k, e) ∷ es) a = ground (arith, kept_last key entry es (ground arith))

absent_last :
    (key : String) (entry : PromptCacheEntry) (es : Dict String PromptCacheEntry) (n : ℕ)
    → 1 ≤ n
    → lookup key es ≡ none
    → lookup key (evict n (es ++ (key, entry) ∷ [])) ≡ some entry
unfolding evict lookup
absent_last key entry [] n h a = ground (arith, eq_iff key key)
absent_last key entry ((k, e) ∷ es) n h a = ground (
  arith,
  absent_last key entry es n h (ground arith),
  length-append es ((key, entry) ∷ []),
  kept_last key entry es,
)

pub lookup-without :
    (key : String) (es : Dict String PromptCacheEntry) → lookup key (without key es) ≡ none
unfolding without lookup
lookup-without key [] = refl
lookup-without key ((k, e) ∷ es) = ground (arith, lookup-without key es)

-- The calls that an index gets.
pub data Op : Type 0 where
  looking : String → String → Op
  recording : String → String → ℕ → Op

unfoldable pub step : (String → String) → Op → PromptCacheIndex → PromptCacheIndex
step sha256 (looking model_id prompt) index = (lookup_prompt sha256 model_id prompt index).1
step sha256 (recording model_id prompt n) index = (record_prompt sha256 model_id prompt n index).1

unfoldable pub steps : (String → String) → List Op → PromptCacheIndex → PromptCacheIndex
steps sha256 [] index = index
steps sha256 (op ∷ ops) index = steps sha256 ops (step sha256 op index)

abbrev IsBounded : PromptCacheIndex → Type 0
IsBounded index = length index.entries ≤ index.capacity

length-put_last :
    (key : String) (es : Dict String PromptCacheEntry) (entry : PromptCacheEntry)
    → lookup key es ≡ some entry
    → length (put_last key entry es) ≤ length es
unfolding put_last
length-put_last key es entry h =
    omega
      (arith, length-append (without key es) ((key, entry) ∷ []), without_present key es entry h)

looked_up :
    (sha256 : String → String) (model_id prompt : String) (index : PromptCacheIndex)
    → length index.entries ≤ index.capacity
    → let after = (lookup_prompt sha256 model_id prompt index).1 in
      (length after.entries ≤ index.capacity) × (after.capacity ≡ index.capacity)
unfolding lookup_prompt
looked_up sha256 model_id prompt index h =
    let key = key_for sha256 model_id prompt in
    elim (Option-cases (lookup key index.entries)) [
      | inl e ↦ rw (lookup_prompt, e) (h, refl)
      | inr (entry, e) ↦
          rw (lookup_prompt, e) (omega (arith, h, length-put_last key index.entries entry e), refl)
    ]

step-IsBounded :
    (sha256 : String → String) (op : Op) (index : PromptCacheIndex)
    → IsBounded index
    → IsBounded (step sha256 op index) × ((step sha256 op index).capacity ≡ index.capacity)
unfolding step record_prompt
step-IsBounded sha256 (looking model_id prompt) index h =
    let (b, c) = looked_up sha256 model_id prompt index h in (omega (arith, b, c), c)
step-IsBounded sha256 (recording model_id prompt n) index h = (evict_bound index.capacity _, refl)

steps-IsBounded :
    (sha256 : String → String) (ops : List Op) (index : PromptCacheIndex)
    → IsBounded index
    → (length (steps sha256 ops index).entries ≤ index.capacity)
      × ((steps sha256 ops index).capacity ≡ index.capacity)
unfolding steps
steps-IsBounded sha256 [] index h = (h, refl)
steps-IsBounded sha256 (op ∷ ops) index h =
    let (b, c) = step-IsBounded sha256 op index h in
    let (bs, cs) = steps-IsBounded sha256 ops (step sha256 op index) b in
    (omega (arith, bs, c), cs ∙ c)

made :
    (capacity : ℕ) (index : PromptCacheIndex)
    → make_index capacity ≡ ok index
    → (1 ≤ capacity) × (index.capacity ≡ capacity) × (index.entries ≡ [])
unfolding make_index
made capacity index h = ground arith

found_again :
    (sha256 : String → String) (model_id prompt : String) (n : ℕ) (index : PromptCacheIndex)
    → 1 ≤ index.capacity
    → let (entry, after) = record_prompt sha256 model_id prompt n index in
      (lookup_prompt sha256 model_id prompt after).0 ≡ some entry
unfolding lookup_prompt record_prompt put_last
found_again sha256 model_id prompt n index h =
    let key = key_for sha256 model_id prompt in
    let entry : PromptCacheEntry = record { key = key; model_id = model_id; token_count = n } in
    rw
      (
        lookup_prompt,
        absent_last key entry (without key index.entries) index.capacity h
            (lookup-without key index.entries),
      )
      refl

-- Whatever is looked up and recorded in a new index, it never holds more prompts than its capacity, and
-- a prompt that was recorded last is found, with the tokens that were recorded for it.
pub cache_bounded :
    (sha256 : String → String) (capacity : ℕ) (ops : List Op) (model_id prompt : String) (n : ℕ)
    {index : PromptCacheIndex}
    → make_index capacity ≡ ok index
    → let after = (record_prompt sha256 model_id prompt n (steps sha256 ops index)).1 in
      (length (steps sha256 ops index).entries ≤ capacity)
      × ((lookup_prompt sha256 model_id prompt after).0
          ≡ some (record {
            key = key_for sha256 model_id prompt;
            model_id = model_id;
            token_count = n;
          }))
unfolding record_prompt
cache_bounded sha256 capacity ops model_id prompt n {index} h =
    let (one, same, none_yet) = made capacity index h in
    let (bound, kept) = steps-IsBounded sha256 ops index (rw none_yet (omega arith)) in
    (
      omega (arith, bound, same),
      found_again sha256 model_id prompt n (steps sha256 ops index)
          (omega (arith, one, same, kept)),
    )
