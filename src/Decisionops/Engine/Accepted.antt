-- ===== src/Decisionops/Engine/Accepted.antt =====
-- platforms/decisionops/engine.py: what an accepted decision rests on, after any evaluations.
use openmodelops.Base.{
  ℕ, ◌≤◌, String, ◌≡◌, refl, sym, subst, inl, inr, Bool, true, false, List, [], ◌∷◌, arith, eq_iff,
  Bool-cases, Option-cases, eq_of_nat, eq_of_string, length, Result, ok, err,
}
use openmodelops.Base.Dict.{Dict}
use openmodelops.Base.Floats.{lt_float}
use openmodelops.Decisionops.Breaker.{CircuitBreaker, allow}
use openmodelops.Decisionops.Question.{QuestionDefinition, DecisionOutput}
use openmodelops.Decisionops.Engine.{
  Facts, World, DecisionEngine, DecisionRecord, is_nil, omitted, cache_key, valid_decision,
  cached_output, disposition_of, record_of, Chosen, from_cache, from_provider, from_fallback,
  nothing, fall_back, try_provider, ask, choose, concluded, evaluate,
}
use openmodelops.Decisionops.Engine.Cache.{lookup-Entries, Entries}
use openmodelops.Decisionops.Engine.Sound.{Origin, IsSound, Change-IsSound, found, evaluate-Change}

pub record Call : Type 0 where
  pub now : ℕ
  pub failed_at : ℕ
  pub decision_id : String
  pub trace_id : String
  pub state : Facts
  pub question : QuestionDefinition

module _ (world : World) where
  abbrev pub answer_call : Call → DecisionEngine → Result DecisionRecord × DecisionEngine
  answer_call c engine =
      evaluate world c.now c.failed_at c.decision_id c.trace_id c.state c.question engine

  -- The calls one after the other
  unfoldable pub evaluate_all : List Call → DecisionEngine → DecisionEngine
  evaluate_all [] engine = engine
  evaluate_all (c ∷ cs) engine = evaluate_all cs (answer_call c engine).1

  empty-IsSound : (engine : DecisionEngine) → engine.cache ≡ [] → IsSound world engine
  empty-IsSound engine z = record {
    bounded =
        subst (λ (d : Dict String DecisionOutput). length d ≤ engine.cache_capacity) (sym z)
          (omega arith);
    origins = subst (Entries (Origin world engine)) (sym z) tt;
  }

  evaluate_all-IsSound :
      (cs : List Call) (engine : DecisionEngine)
      → IsSound world engine
      → IsSound world (evaluate_all cs engine)
  unfolding evaluate_all
  evaluate_all-IsSound [] engine s = s
  evaluate_all-IsSound (c ∷ cs) engine s = evaluate_all-IsSound cs (answer_call c engine).1 (
      Change-IsSound world engine _ s (
        evaluate-Change world c.state c.question c.decision_id c.trace_id engine c.now c.failed_at))

  -- A valid answer of the provider to a question and a state with the cache key of these
  abbrev pub Backed : DecisionEngine → Facts → QuestionDefinition → DecisionOutput → Type 0
  Backed engine state question output =
      (state' : Facts) × (question' : QuestionDefinition) × (cache_key world state question engine
        ≡ cache_key world state' question' engine)
      × (valid_decision world engine.provider state' question' ≡ ok output)

  module _ (state : Facts) (question : QuestionDefinition) (engine : DecisionEngine) where
    abbrev Sourced : Chosen world → Type 0
    Sourced (from_cache output) = Backed engine state question output
    Sourced (from_provider output) = Backed engine state question output
    Sourced (from_fallback output) = Unit
    Sourced (nothing e) = Unit

    fall_back-Sourced : (r : Result DecisionOutput) → Sourced (fall_back world r)
    fall_back-Sourced (ok output) = tt
    fall_back-Sourced (err e) = tt

    provider-Sourced :
        (b : CircuitBreaker) (failed_at : ℕ) (r : Result DecisionOutput)
        → valid_decision world engine.provider state question ≡ r
        → Sourced (try_provider world failed_at state question r (record engine { breaker = b })).0
    provider-Sourced b failed_at (ok output) v = (state, question, refl, v)
    provider-Sourced b failed_at (err e) v =
        fall_back-Sourced (valid_decision world engine.fallback state question)

    ask-Sourced :
        (failed_at : ℕ) (allowed : Bool × CircuitBreaker)
        → Sourced (ask world failed_at state question allowed engine).0
    ask-Sourced failed_at (true, b) =
        provider-Sourced b failed_at (valid_decision world engine.provider state question) refl
    ask-Sourced failed_at (false, b) =
        fall_back-Sourced (valid_decision world engine.fallback state question)

    choose-Sourced :
        (now failed_at : ℕ)
        → IsSound world engine
        → Sourced (choose world now failed_at state question engine).0
    unfolding choose
    choose-Sourced now failed_at s =
        elim (Option-cases (cached_output world state question engine)) [
          | inl e ↦ rw (choose, e) (ask-Sourced failed_at (allow now engine.breaker))
          | inr (output, e) ↦
              let (state', question', c, k, v) =
                lookup-Entries (Origin world engine) (cache_key world state question engine)
                  engine.cache output s.origins
                  (found world state question "" "" engine output e) in
              rw (choose, e) (state', question', k, v)
        ]

    -- The output is backed, and its confidence is not below the question's threshold.
    abbrev pub Warranted : DecisionOutput → Type 0
    Warranted output =
        Backed engine state question output
        × (lt_float output.confidence question.confidence_threshold ≡ false)

    accepted-Warranted :
        (output : DecisionOutput)
        → Backed engine state question output
        → disposition_of world false output question ≡ "accepted"
        → Warranted output
    accepted-Warranted output b h = (b, ground (arith, eq_iff "human_review" "accepted"))

    refused_fallback :
        (output : DecisionOutput) → disposition_of world true output question ≡ "accepted" → ⊥
    refused_fallback output h =
        ground (arith, eq_iff "human_review" "accepted", eq_iff "fallback" "accepted")

    ok_inj : {a b : DecisionRecord} → ok a ≡ ok b → a ≡ b
    ok_inj {a} {b} h = ground arith

    taken :
        (r0 r : DecisionRecord)
        → r0 ≡ r
        → (r0.disposition ≡ "accepted" → Warranted r0.output)
        → r.disposition ≡ "accepted"
        → Warranted r.output
    taken r0 r e f =
        subst (λ (x : DecisionRecord). x.disposition ≡ "accepted" → Warranted x.output) e f

    concluded-Warranted :
        (decision_id trace_id : String) (c : Chosen world) (after : DecisionEngine)
        {r : DecisionRecord}
        → Sourced c
        → (concluded world decision_id trace_id state question (c, after)).0 ≡ ok r
        → r.disposition ≡ "accepted"
        → Warranted r.output
    concluded-Warranted i t (from_cache output) after {r} s h d =
        taken (record_of world i t state question false output after) r (ok_inj h)
          (accepted-Warranted output s) d
    concluded-Warranted i t (from_provider output) after {r} s h d =
        taken (record_of world i t state question false output after) r (ok_inj h)
          (accepted-Warranted output s) d
    concluded-Warranted i t (from_fallback output) after {r} s h d =
        taken (record_of world i t state question true output after) r (ok_inj h)
          (λ e. absurd (refused_fallback output e)) d
    concluded-Warranted i t (nothing e) after s h d = absurd (ground arith)

  -- Whatever evaluations an engine with an empty cache went through: the cache holds no more outputs than
  -- its capacity, after the next one as well; and if that one is accepted, its output is a valid answer
  -- of the provider itself, never of the fallback, to this question and state or to ones with the same
  -- cache key, and its confidence is not below the threshold.
  pub accepted_decision :
      (cs : List Call) (start : DecisionEngine) (call : Call) {r : DecisionRecord}
      → start.cache ≡ []
      → let engine = evaluate_all cs start in
        (length (answer_call call engine).1.cache ≤ (answer_call call engine).1.cache_capacity)
        × ((answer_call call engine).0 ≡ ok r
            → r.disposition ≡ "accepted"
            → Warranted call.state call.question engine r.output)
  unfolding evaluate
  accepted_decision cs start call {r} z =
      let engine = evaluate_all cs start in
      let s = evaluate_all-IsSound cs start (empty-IsSound start z) in
      (
        (Change-IsSound world engine _ s (
            evaluate-Change world call.state call.question call.decision_id call.trace_id engine
              call.now call.failed_at)).bounded,
        λ h d. elim (Bool-cases (is_nil (omitted call.state call.question))) [
          | inr e ↦ absurd (ground arith)
          | inl e ↦
              let c = choose world call.now call.failed_at call.state call.question engine in
              concluded-Warranted call.state call.question engine call.decision_id call.trace_id c.0
                c.1 {r = r}
                (choose-Sourced call.state call.question engine call.now call.failed_at s)
                (ground arith) d
        ],
      )
