-- ===== src/Rag.antt =====
-- platforms/rag/workflow.py: corrective retrieval, as a loop and as a graph.
pub mod Grounding
pub mod Graph
mod Tests
use openmodelops.Base.{
  ℕ, zero, suc, ◌+◌, ◌-◌, ◌*◌, ◌/◌, ◌%◌, ◌^◌, ◌≤◌, ◌<◌, String, ◌<>◌, ◌≡◌, refl, sym, ap, ◌∙◌,
  subst, ◌≢◌, ◌↔◌, ◌⊎◌, inl, inr, Bool, true, false, not, ◌&&◌, ◌||◌, false≢true, Option, none,
  some, List, [], ◌∷◌, ◌++◌, map, arith, str_eq, starts_with, eq_iff, ltb, leb, nat_eq, nat_eq_iff,
  if◌then◌else◌, Bool-cases, Option-cases, Eq, ◌==◌, eq_of_nat, eq_of_string, length, take,
  length-append, keep, length-keep, any, any-append, all, All, All-append, All-take, All-keep,
  All-every, All-map, length-take, contains, is_space, is_blank, is_empty, codes, is_lower,
  is_digit, name_tail, is_name, repr_items, repr_list, Error, value_error, runtime_error, key_error,
  permission_error, concurrency_error, policy_denied, safety_violation, guardrail_unavailable,
  integrity_error, http_error, Result, ok, err, ◌>>=◌, ◌>>◌, raise_if, is_ok, >>=-eq-ok,
  Result-cases,
}
use openmodelops.Base.Dict.{
  Dict, keys, values, lookup, insert, has_key, lookup-nil, lookup-insert, lookup-insert_self,
  lookup-insert_ne, lookup-insert_inv, has_key_lem,
}
use openmodelops.Base.Floats.{
  Float, nan, neg_inf, pos_inf, fin, ℤ, lt_float, le_float, double, ltb_ℤ,
}
use openmodelops.Base.Audit.{Entry, Chain, Chain-append, length-audit}

pub record RetrievalDocument : Type 0 where
  pub document_id : String
  pub text : String
  pub source : String
  pub score : Float

pub record RagResult : Type 0 where
  pub answer : String
  pub documents : List RetrievalDocument
  pub attempts : ℕ
  pub status : String

-- The four parts are the caller's.
pub record CorrectiveRag : Type 0 where
  pub retriever : String → List RetrievalDocument
  pub grader : String → RetrievalDocument → Bool
  pub rewriter : String → ℕ → String
  pub generator : String → List RetrievalDocument → String
  pub maximum_attempts : ℕ

-- `CorrectiveRAG(...)`
unfoldable pub make_rag :
    (String → List RetrievalDocument)
    → (String → RetrievalDocument → Bool)
    → (String → ℕ → String)
    → (String → List RetrievalDocument → String)
    → ℤ
    → Result CorrectiveRag
make_rag retriever grader rewriter generator (ℤ.pos n) =
    if leb 1 n && leb n 5
    then ok (record {
      retriever = retriever;
      grader = grader;
      rewriter = rewriter;
      generator = generator;
      maximum_attempts = n;
    })
    else err (value_error "maximum_attempts must be between 1 and 5")
make_rag retriever grader rewriter generator (ℤ.negsuc n) =
    err (value_error "maximum_attempts must be between 1 and 5")

-- `[doc for doc in retriever.retrieve(query) if grader(query, doc)]`
unfoldable pub relevant : CorrectiveRag → String → List RetrievalDocument
relevant rag query = keep (rag.grader query) (rag.retriever query)

abbrev pub no_evidence : String
no_evidence = "Insufficient evidence to answer from the approved knowledge base."

abbrev pub insufficient : ℕ → RagResult
insufficient attempts = record {
  answer = no_evidence;
  documents = [];
  attempts = attempts;
  status = "insufficient_evidence";
}

abbrev pub grounded : CorrectiveRag → String → List RetrievalDocument → ℕ → RagResult
grounded rag question documents attempt = record {
  answer = rag.generator question documents;
  documents = documents;
  attempts = attempt;
  status = "grounded";
}

abbrev pub is_nil {ℓ} : {A : Type ℓ} → List A → Bool
is_nil [] = true
is_nil (x ∷ xs) = false

-- The loop, with the attempts that are left, the number of the next one and its query.
unfoldable pub attempt_all : CorrectiveRag → String → ℕ → ℕ → String → RagResult
attempt_all rag question zero attempt query = insufficient rag.maximum_attempts
attempt_all rag question (suc left) attempt query =
    let documents = relevant rag query in
    let query' =
      if ltb attempt rag.maximum_attempts then rag.rewriter question attempt else query in
    let rest = attempt_all rag question left (suc attempt) query' in
    if is_nil documents then rest else grounded rag question documents attempt

unfoldable pub invoke : CorrectiveRag → String → RagResult
invoke rag question = attempt_all rag question rag.maximum_attempts 1 question

-- The graph's state, where an entry that no node has written is missing.
pub record State : Type 0 where
  pub question : String
  pub query : Option String
  pub attempts : ℕ
  pub documents : List RetrievalDocument
  pub answer : Option String
  pub status : Option String

pub data Node : Type 0 where
  retrieve rewrite generate refuse : Node

-- `state.get("query") or state["question"]`
abbrev pub query_of : State → String
query_of s = elim s.query [ none ↦ s.question | some q ↦ if is_empty q then s.question else q ]

-- What each node writes into the state.
unfoldable pub visit : CorrectiveRag → Node → State → State
visit rag retrieve s = record s {
  attempts = suc s.attempts;
  query = some (query_of s);
  documents = relevant rag (query_of s);
}
visit rag rewrite s = record s { query = some (rag.rewriter s.question s.attempts) }
visit rag generate s = record s {
  answer = some (rag.generator s.question s.documents);
  status = some "grounded";
}
visit rag refuse s = record s { answer = some no_evidence; status = some "insufficient_evidence" }

unfoldable pub route : CorrectiveRag → State → Node
route rag s =
    if not (is_nil s.documents)
    then generate
    else if ltb s.attempts rag.maximum_attempts
    then rewrite
    else refuse

-- The edges, `none` for `END`.
unfoldable pub next : CorrectiveRag → Node → State → Option Node
next rag retrieve s = some (route rag s)
next rag rewrite s = some retrieve
next rag generate s = none
next rag refuse s = none

-- A run from a node over so many nodes at most, `none` if that is not enough.
unfoldable pub run_graph : CorrectiveRag → ℕ → Node → State → Option State
run_graph rag zero node s = none
run_graph rag (suc fuel) node s =
    let s' = visit rag node s in
    elim (next rag node s') [ none ↦ some s' | some n ↦ run_graph rag fuel n s' ]

-- The state that the graph is started with: `{"question": question}`.
abbrev pub start : String → State
start question = record {
  question = question;
  query = none;
  attempts = 0;
  documents = [];
  answer = none;
  status = none;
}
