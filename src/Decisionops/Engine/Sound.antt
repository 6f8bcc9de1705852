-- ===== src/Decisionops/Engine/Sound.antt =====
-- platforms/decisionops/engine.py: where the outputs in the cache, and those that are accepted, come from.
use openmodelops.Base.{
  ℕ, ◌≤◌, String, ◌≡◌, refl, inl, inr, Bool, true, false, some, [], ◌∷◌, ◌++◌, arith, if◌then◌else◌,
  Bool-cases, Option-cases, eq_of_nat, eq_of_string, length, All-append, Result, ok, err,
}
use openmodelops.Base.Dict.{lookup, insert}
use openmodelops.Decisionops.Breaker.{CircuitBreaker, allow, success}
use openmodelops.Decisionops.Question.{QuestionDefinition, DecisionOutput}
use openmodelops.Decisionops.Engine.{
  Facts, World, DecisionEngine, DecisionRecord, without_key, drop_oldest, is_nil, omitted,
  cache_key, valid_decision, cached_output, Chosen, fall_back, try_provider, ask, choose, concluded,
  evaluate,
}
use openmodelops.Decisionops.Engine.Cache.{
  length-drop_oldest, length-moved, Entries, lookup-Entries, insert-Entries, drop-Entries,
  without-Entries,
}

module _ (world : World) where
  -- The output is a valid answer of the provider, never of the fallback, to a cacheable question whose
  -- cache key this is.
  abbrev pub Origin : DecisionEngine → String → DecisionOutput → Type 0
  Origin engine key output =
      (state : Facts) × (question : QuestionDefinition) × (question.cacheable ≡ true)
      × (key ≡ cache_key world state question engine)
      × (valid_decision world engine.provider state question ≡ ok output)

  pub record IsSound (engine : DecisionEngine) : Type 0 where
    pub bounded : length engine.cache ≤ engine.cache_capacity
    pub origins : Entries (Origin engine) engine.cache

  -- What one evaluation does to the engine
  pub data Change (engine : DecisionEngine) : DecisionEngine → Type 0 where
    kept : (b : CircuitBreaker) → Change engine (record engine { breaker = b })
    moved :
        (key : String) (output : DecisionOutput)
        → lookup key engine.cache ≡ some output
        → Change engine
            (record engine { cache = without_key key engine.cache ++ (key, output) ∷ [] })
    stored :
        (b : CircuitBreaker) (state : Facts) (question : QuestionDefinition)
        (output : DecisionOutput)
        → question.cacheable ≡ true
        → valid_decision world engine.provider state question ≡ ok output
        → Change engine (record engine {
          breaker = b;
          cache =
              drop_oldest engine.cache_capacity
                (insert (cache_key world state question engine) output engine.cache);
        })

  pub Change-IsSound :
      (engine after : DecisionEngine) → IsSound engine → Change engine after → IsSound after
  Change-IsSound engine _ s (kept b) = record { bounded = s.bounded; origins = s.origins }
  Change-IsSound engine _ s (moved key output l) = record {
    bounded = omega (arith, s.bounded, length-moved key engine.cache output l);
    origins =
        All-append _ (without_key key engine.cache) ((key, output) ∷ [])
          (without-Entries (Origin engine) key engine.cache s.origins)
          (lookup-Entries (Origin engine) key engine.cache output s.origins l, tt);
  }
  Change-IsSound engine _ s (stored b state question output c v) =
      let key = cache_key world state question engine in
      record {
        bounded = length-drop_oldest engine.cache_capacity (insert key output engine.cache);
        origins =
            drop-Entries (Origin engine) engine.cache_capacity (insert key output engine.cache) (
              insert-Entries (Origin engine) key output engine.cache (state, question, c, refl, v)
                s.origins);
      }

  module _ (state : Facts) (question : QuestionDefinition) (decision_id trace_id : String) where
    abbrev ending : Chosen world × DecisionEngine → Result DecisionRecord × DecisionEngine
    ending c = concluded world decision_id trace_id state question c

    fall_back-Change :
        (engine : DecisionEngine) (b : CircuitBreaker) (r : Result DecisionOutput)
        → Change engine (ending (fall_back world r, record engine { breaker = b })).1
    fall_back-Change engine b (ok output) = kept b
    fall_back-Change engine b (err e) = kept b

    remember-Change :
        (engine : DecisionEngine) (b : CircuitBreaker) (output : DecisionOutput) (c : Bool)
        → question.cacheable ≡ c
        → valid_decision world engine.provider state question ≡ ok output
        → Change engine (
            if c
            then record engine {
              breaker = b;
              cache =
                  drop_oldest engine.cache_capacity
                    (insert (cache_key world state question engine) output engine.cache);
            }
            else record engine { breaker = b })
    remember-Change engine b output true c v = stored b state question output c v
    remember-Change engine b output false c v = kept b

    provider-Change :
        (engine : DecisionEngine) (b : CircuitBreaker) (failed_at : ℕ) (r : Result DecisionOutput)
        → valid_decision world engine.provider state question ≡ r
        → Change engine
            (ending
              (try_provider world failed_at state question r (record engine { breaker = b }))).1
    provider-Change engine b failed_at (err e) v =
        fall_back-Change engine _ (valid_decision world engine.fallback state question)
    provider-Change engine b failed_at (ok output) v =
        remember-Change engine (success b) output question.cacheable refl v

    ask-Change :
        (engine : DecisionEngine) (failed_at : ℕ) (allowed : Bool × CircuitBreaker)
        → Change engine (ending (ask world failed_at state question allowed engine)).1
    ask-Change engine failed_at (true, b) =
        provider-Change engine b failed_at (valid_decision world engine.provider state question)
          refl
    ask-Change engine failed_at (false, b) =
        fall_back-Change engine b (valid_decision world engine.fallback state question)

    pub found :
        (engine : DecisionEngine) (output : DecisionOutput)
        → cached_output world state question engine ≡ some output
        → lookup (cache_key world state question engine) engine.cache ≡ some output
    found engine output e = ground arith

    choose-Change :
        (engine : DecisionEngine) (now failed_at : ℕ)
        → Change engine (ending (choose world now failed_at state question engine)).1
    unfolding choose
    choose-Change engine now failed_at =
        elim (Option-cases (cached_output world state question engine)) [
          | inl e ↦ rw (choose, e) (ask-Change engine failed_at (allow now engine.breaker))
          | inr (output, e) ↦
              rw (choose, e)
                (moved (cache_key world state question engine) output (found engine output e))
        ]

    pub evaluate-Change :
        (engine : DecisionEngine) (now failed_at : ℕ)
        → Change engine (evaluate world now failed_at decision_id trace_id state question engine).1
    unfolding evaluate
    evaluate-Change engine now failed_at = elim (Bool-cases (is_nil (omitted state question))) [
      | inl e ↦ rw (evaluate, e) (choose-Change engine now failed_at)
      | inr e ↦ rw (evaluate, e) (kept engine.breaker)
    ]
