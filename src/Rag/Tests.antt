-- ===== src/Rag/Tests.antt =====
-- Runs of the corrective workflow, and its theorems at concrete inputs.
use openmodelops.Base.{
  ℕ, String, ◌≡◌, refl, ◌⊎◌, inl, inr, true, false, Option, none, some, [], ◌∷◌, arith, str_eq,
  nat_eq, if◌then◌else◌, Bool-cases, eq_of_nat, eq_of_string, keep, is_empty, is_ok,
}
use openmodelops.Base.Floats.{fin, ℤ}
use openmodelops.Rag.{
  RetrievalDocument, CorrectiveRag, make_rag, relevant, grounded, attempt_all, invoke, State,
  retrieve, visit, route, next, run_graph, start,
}
use openmodelops.Rag.Grounding.{IsGrounded, IsRefused, invoke_outcomes}
use openmodelops.Rag.Graph.{Agrees, fuel_for, graph_agrees}

abbrev manual : RetrievalDocument
manual = record { document_id = "d1"; text = "restart it"; source = "kb"; score = fin (ℤ.pos 3) }

-- Nothing is found for the question itself, and the manual for its second rewriting.
abbrev rag : CorrectiveRag
rag = record {
  retriever = λ q. if str_eq q "router 2" then manual ∷ [] else [];
  grader = λ q d. true;
  rewriter = λ q n. if nat_eq n 1 then "router 1" else "router 2";
  generator = λ q ds. "try: restart it";
  maximum_attempts = 3;
}

too_many : is_ok (make_rag rag.retriever rag.grader rag.rewriter rag.generator (ℤ.pos 6)) ≡ false
unfolding make_rag
too_many = refl

third_attempt : invoke rag "wifi" ≡ grounded rag "wifi" (manual ∷ []) 3
unfolding invoke attempt_all relevant keep
third_attempt = refl

never_empty : (q : String) (n : ℕ) → is_empty (rag.rewriter q n) ≡ false
unfolding is_empty
never_empty q n = elim (Bool-cases (nat_eq n 1)) [ inl t ↦ rw t refl | inr f ↦ rw f refl ]

invoke_outcomes_example :
    let r = invoke rag "wifi" in ((n : ℕ) × IsGrounded rag "wifi" n r) ⊎ IsRefused rag "wifi" r
invoke_outcomes_example = invoke_outcomes rag "wifi"

graph_agrees_example :
    Agrees (run_graph rag (fuel_for 3) retrieve (start "wifi")) (invoke rag "wifi")
graph_agrees_example = graph_agrees rag "wifi" never_empty (omega arith)

-- A rewriter that gives the empty text: the loop asks for it, the graph for the question again.
abbrev blank : CorrectiveRag
blank = record rag {
  retriever = λ q. if str_eq q "" then manual ∷ [] else [];
  rewriter = λ q n. "";
  maximum_attempts = 2;
}

loop_finds : (invoke blank "wifi").status ≡ "grounded"
unfolding invoke attempt_all relevant keep
loop_finds = refl

abbrev status_of : Option State → Option String
status_of none = none
status_of (some s) = s.status

graph_refuses :
    status_of (run_graph blank (fuel_for 2) retrieve (start "wifi")) ≡ some "insufficient_evidence"
unfolding run_graph visit route next relevant keep is_empty
graph_refuses = refl
