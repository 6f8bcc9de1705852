-- ===== src/Metal/Cache.antt =====
-- platforms/metal_runtime/cache.py: an index of the prompts used last.
pub mod Recency
use openmodelops.Base.{
  ℕ, zero, suc, ◌+◌, ◌-◌, ◌*◌, ◌/◌, ◌%◌, ◌^◌, ◌≤◌, ◌<◌, String, ◌<>◌, ◌≡◌, refl, sym, ap, ◌∙◌,
  subst, ◌≢◌, ◌↔◌, ◌⊎◌, inl, inr, Bool, true, false, not, ◌&&◌, ◌||◌, false≢true, Option, none,
  some, List, [], ◌∷◌, ◌++◌, map, arith, str_eq, starts_with, eq_iff, ltb, leb, nat_eq, nat_eq_iff,
  if◌then◌else◌, Bool-cases, Option-cases, Eq, ◌==◌, eq_of_nat, eq_of_string, length, take,
  length-append, keep, length-keep, any, any-append, all, All, All-append, All-take, All-keep,
  All-every, All-map, length-take, contains, is_space, is_blank, is_empty, ends_with, text_leb,
  codes, is_lower, is_digit, name_tail, is_name, repr_items, repr_list, Error, value_error,
  runtime_error, key_error, permission_error, concurrency_error, policy_denied, safety_violation,
  guardrail_unavailable, integrity_error, http_error, Result, ok, err, ◌>>=◌, ◌>>◌, raise_if, is_ok,
  >>=-eq-ok, Result-cases,
}
use openmodelops.Base.Dict.{
  Dict, keys, values, lookup, insert, has_key, lookup-nil, lookup-insert, lookup-insert_self,
  lookup-insert_ne, lookup-insert_inv, has_key_lem,
}
use openmodelops.Base.Floats.{
  Float, nan, neg_inf, pos_inf, fin, ℤ, lt_float, le_float, double, ltb_ℤ,
}
use openmodelops.Base.Audit.{Entry, Chain, Chain-append, length-audit}

pub record PromptCacheEntry : Type 0 where
  pub key : String
  pub model_id : String
  pub token_count : ℕ

-- `_entries`, an ordered dict with the oldest key first; the lock makes every method one step.
pub record PromptCacheIndex : Type 0 where
  pub capacity : ℕ
  pub entries : Dict String PromptCacheEntry

unfoldable pub make_index : ℕ → Result PromptCacheIndex
make_index capacity =
    if ltb capacity 1
    then err (value_error "capacity must be positive")
    else ok (record { capacity = capacity; entries = [] })

-- `key_for`, with SHA-256 from outside
abbrev pub key_for : (String → String) → String → String → String
key_for sha256 model_id prompt = sha256 (model_id <> "\0" <> prompt)

unfoldable pub without : String → Dict String PromptCacheEntry → Dict String PromptCacheEntry
without key [] = []
without key ((k, e) ∷ es) = let rest = without key es in if k == key then rest else (k, e) ∷ rest

-- `_entries[key] = entry` and `move_to_end(key)`
unfoldable pub put_last :
    String → PromptCacheEntry → Dict String PromptCacheEntry → Dict String PromptCacheEntry
put_last key entry es = without key es ++ (key, entry) ∷ []

-- `while len(entries) > capacity: entries.popitem(last=False)`
unfoldable pub evict : ℕ → Dict String PromptCacheEntry → Dict String PromptCacheEntry
evict capacity [] = []
evict capacity (e ∷ es) =
    let rest = evict capacity es in if ltb capacity (suc (length es)) then rest else e ∷ es

unfoldable pub lookup_prompt :
    (String → String)
    → String
    → String
    → PromptCacheIndex
    → Option PromptCacheEntry × PromptCacheIndex
lookup_prompt sha256 model_id prompt index =
    let key = key_for sha256 model_id prompt in
    elim (lookup key index.entries) [
      | none ↦ (none, index)
      | some entry ↦ (some entry, record index { entries = put_last key entry index.entries })
    ]

unfoldable pub record_prompt :
    (String → String) → String → String → ℕ → PromptCacheIndex → PromptCacheEntry × PromptCacheIndex
record_prompt sha256 model_id prompt token_count index =
    let key = key_for sha256 model_id prompt in
    let entry : PromptCacheEntry = record {
      key = key;
      model_id = model_id;
      token_count = token_count;
    } in
    (entry, record index { entries = evict index.capacity (put_last key entry index.entries) })
