-- ===== src/Rag/Graph.antt =====
-- platforms/rag/workflow.py: the compiled graph gives what the loop gives.
use openmodelops.Base.{
  ℕ, zero, suc, ◌+◌, ◌≤◌, ◌<◌, String, ◌≡◌, refl, ap, subst, inl, inr, true, false, Option, none,
  some, List, [], ◌∷◌, arith, ltb, if◌then◌else◌, Bool-cases, eq_of_nat, eq_of_string, is_empty,
}
use openmodelops.Rag.{
  RagResult, CorrectiveRag, relevant, insufficient, grounded, is_nil, attempt_all, invoke, State,
  Node, retrieve, rewrite, generate, refuse, query_of, visit, route, next, run_graph, start,
}

-- A final state says what a result says.
abbrev pub Agrees : Option State → RagResult → Type 0
Agrees none r = ⊥
Agrees (some s) r =
    (s.answer ≡ some r.answer)
    × (s.documents ≡ r.documents)
    × (s.attempts ≡ r.attempts)
    × (s.status ≡ some r.status)

-- Two nodes for each attempt.
abbrev pub fuel_for : ℕ → ℕ
fuel_for zero = zero
fuel_for (suc n) = suc (suc (fuel_for n))

is_nil-eq {ℓ} : {A : Type ℓ} (xs : List A) → is_nil xs ≡ true → xs ≡ []
is_nil-eq [] h = refl
is_nil-eq (x ∷ xs) h = ground arith

module _ (rag : CorrectiveRag) (s : State) where
  abbrev retrieved : State
  retrieved = visit rag retrieve s

  -- From the retrieval the run goes on where the route leads.
  run_route :
      (fuel : ℕ) {n : Node}
      → route rag retrieved ≡ n
      → run_graph rag (suc fuel) retrieve s ≡ run_graph rag fuel n retrieved
  unfolding run_graph next
  run_route fuel e = ap (λ n. run_graph rag fuel n retrieved) e

  route_found : is_nil (relevant rag (query_of s)) ≡ false → route rag retrieved ≡ generate
  unfolding route visit
  route_found f = rw f refl

  route_rewrite :
      is_nil (relevant rag (query_of s)) ≡ true
      → suc s.attempts < rag.maximum_attempts
      → route rag retrieved ≡ rewrite
  unfolding route visit
  route_rewrite t h = rw t (ground arith)

  route_refuse :
      is_nil (relevant rag (query_of s)) ≡ true
      → suc s.attempts ≡ rag.maximum_attempts
      → route rag retrieved ≡ refuse
  unfolding route visit
  route_refuse t h = rw t (ground arith)

  found_loop :
      (left attempt : ℕ)
      → is_nil (relevant rag (query_of s)) ≡ false
      → attempt_all rag s.question (suc left) attempt (query_of s)
        ≡ grounded rag s.question (relevant rag (query_of s)) attempt
  unfolding attempt_all
  found_loop left attempt f = rw f refl

  nil_loop :
      (left attempt : ℕ)
      → is_nil (relevant rag (query_of s)) ≡ true
      → attempt_all rag s.question (suc left) attempt (query_of s)
        ≡ attempt_all rag s.question left (suc attempt) (
            if ltb attempt rag.maximum_attempts
            then rag.rewriter s.question attempt
            else query_of s)
  unfolding attempt_all
  nil_loop left attempt t = rw t refl

  generated :
      (fuel : ℕ)
      → Agrees
          (run_graph rag (suc fuel) generate retrieved)
          (grounded rag s.question (relevant rag (query_of s)) (suc s.attempts))
  unfolding run_graph next visit
  generated fuel = (refl, refl, refl, refl)

  refused :
      (fuel : ℕ)
      → is_nil (relevant rag (query_of s)) ≡ true
      → suc s.attempts ≡ rag.maximum_attempts
      → Agrees (run_graph rag (suc fuel) refuse retrieved) (insufficient rag.maximum_attempts)
  unfolding run_graph next visit
  refused fuel t e = (refl, is_nil-eq (relevant rag (query_of s)) t, e, refl)

  found :
      (left fuel : ℕ)
      → is_nil (relevant rag (query_of s)) ≡ false
      → Agrees
          (run_graph rag (suc (suc fuel)) retrieve s)
          (attempt_all rag s.question (suc left) (suc s.attempts) (query_of s))
  found left fuel f =
      rw (run_route (suc fuel) (route_found f), found_loop left (suc s.attempts) f) (generated fuel)

module _ (rag : CorrectiveRag)
    (rewrites : (q : String) (n : ℕ) → is_empty (rag.rewriter q n) ≡ false) where
  -- The state after a rewriting.
  abbrev rewritten : State → State
  rewritten s = visit rag rewrite (visit rag retrieve s)

  run_rewritten :
      (fuel : ℕ) (s : State)
      → run_graph rag (suc fuel) rewrite (visit rag retrieve s)
        ≡ run_graph rag fuel retrieve (rewritten s)
  unfolding run_graph next
  run_rewritten fuel s = refl

  query_of-rewritten :
      (s : State) → query_of (rewritten s) ≡ rag.rewriter s.question (suc s.attempts)
  unfolding visit
  query_of-rewritten s = rw (rewrites s.question (suc s.attempts)) refl

  below_maximum :
      (s : State) (left : ℕ)
      → suc s.attempts + suc left ≡ rag.maximum_attempts
      → ltb (suc s.attempts) rag.maximum_attempts ≡ true
  below_maximum s left m = ground arith

  last_refused :
      (s : State) (fuel : ℕ)
      → is_nil (relevant rag (query_of s)) ≡ true
      → suc s.attempts ≡ rag.maximum_attempts
      → Agrees
          (run_graph rag (suc (suc fuel)) retrieve s)
          (attempt_all rag s.question 1 (suc s.attempts) (query_of s))
  unfolding attempt_all
  last_refused s fuel t e =
      rw (run_route rag s (suc fuel) (route_refuse rag s t e), t) (refused rag s fuel t e)

  agree :
      (left : ℕ) (s : State)
      → suc s.attempts + left ≡ rag.maximum_attempts
      → Agrees
          (run_graph rag (fuel_for (suc left)) retrieve s)
          (attempt_all rag s.question (suc left) (suc s.attempts) (query_of s))
  unfolding visit
  agree zero s m = elim (Bool-cases (is_nil (relevant rag (query_of s)))) [
    | inl t ↦ last_refused s zero t (omega (arith, m))
    | inr f ↦ found rag s zero zero f
  ]
  agree (suc left) s m = elim (Bool-cases (is_nil (relevant rag (query_of s)))) [
    | inl t ↦
        rw
          (
            run_route rag s (suc (fuel_for (suc left))) (route_rewrite rag s t (omega (arith, m))),
            run_rewritten (fuel_for (suc left)) s,
            nil_loop rag s (suc left) (suc s.attempts) t,
            below_maximum s left m,
          )
          (subst
            (λ q.
              Agrees (run_graph rag (fuel_for (suc left)) retrieve (rewritten s))
                (attempt_all rag s.question (suc left) (suc (suc s.attempts)) q))
            (query_of-rewritten s) (agree left (rewritten s) (omega (arith, m))))
    | inr f ↦ found rag s (suc left) (fuel_for (suc left)) f
  ]

agree_from_start :
    (rag : CorrectiveRag) (question : String) (n : ℕ)
    → ((q : String) (n : ℕ) → is_empty (rag.rewriter q n) ≡ false)
    → n ≡ rag.maximum_attempts
    → 1 ≤ n
    → Agrees
        (run_graph rag (fuel_for n) retrieve (start question))
        (attempt_all rag question n 1 question)
agree_from_start rag question zero rewrites e h = ground arith
agree_from_start rag question (suc n) rewrites e h =
    agree rag rewrites n (start question) (omega (arith, e))

-- The compiled graph gives what `invoke` gives: with a rewriter that never returns an empty query, and
-- at least one attempt, a run from the start ends, within two nodes for each attempt, in a state with
-- the answer, the documents, the number of attempts and the status of the invocation.
pub graph_agrees :
    (rag : CorrectiveRag) (question : String)
    → ((q : String) (n : ℕ) → is_empty (rag.rewriter q n) ≡ false)
    → 1 ≤ rag.maximum_attempts
    → Agrees
        (run_graph rag (fuel_for rag.maximum_attempts) retrieve (start question))
        (invoke rag question)
unfolding invoke
graph_agrees rag question rewrites h =
    agree_from_start rag question rag.maximum_attempts rewrites refl h
