-- ===== src/Rag/Grounding.antt =====
-- platforms/rag/workflow.py: what an answer rests on.
use openmodelops.Base.{
  ℕ, zero, suc, ◌+◌, ◌≤◌, ◌<◌, String, ◌≡◌, refl, sym, ap, ◌∙◌, subst, ◌≢◌, ◌⊎◌, inl, inr, true,
  false≢true, List, [], ◌∷◌, arith, ltb, nat_eq, if◌then◌else◌, Bool-cases, eq_of_nat, eq_of_string,
}
use openmodelops.Rag.{RagResult, CorrectiveRag, relevant, no_evidence, is_nil, attempt_all, invoke}

-- The query of the attempt after `n` others: the question, then its rewritings by their number.
abbrev pub asked : CorrectiveRag → String → ℕ → String
asked rag question zero = question
asked rag question (suc n) = rag.rewriter question (suc n)

-- The first `n` attempts found nothing relevant.
abbrev pub AreEmpty : CorrectiveRag → String → ℕ → Type 0
AreEmpty rag question n = (j : ℕ) → j < n → relevant rag (asked rag question j) ≡ []

-- The answer of the attempt after `n` others is generated from the documents, not none, that it
-- found and graded.
pub record IsGrounded (rag : CorrectiveRag) (question : String) (n : ℕ) (r : RagResult)
    : Type 0 where
  pub status : r.status ≡ "grounded"
  pub attempts : r.attempts ≡ suc n
  pub in_bounds : suc n ≤ rag.maximum_attempts
  pub earlier : AreEmpty rag question n
  pub documents : r.documents ≡ relevant rag (asked rag question n)
  pub some_documents : r.documents ≢ []
  pub answer : r.answer ≡ rag.generator question r.documents

-- The answer says that there is no evidence, after all the attempts, and cites nothing.
pub record IsRefused (rag : CorrectiveRag) (question : String) (r : RagResult) : Type 0 where
  pub status : r.status ≡ "insufficient_evidence"
  pub answer : r.answer ≡ no_evidence
  pub documents : r.documents ≡ []
  pub attempts : r.attempts ≡ rag.maximum_attempts
  pub all_empty : AreEmpty rag question rag.maximum_attempts

is_nil-eq {ℓ} : {A : Type ℓ} (xs : List A) → is_nil xs ≡ true → xs ≡ []
is_nil-eq [] h = refl
is_nil-eq (x ∷ xs) h = ground arith

one_more :
    (rag : CorrectiveRag) (question : String) (n : ℕ)
    → AreEmpty rag question n
    → relevant rag (asked rag question n) ≡ []
    → AreEmpty rag question (suc n)
one_more rag question n h e j l = elim (Bool-cases (nat_eq j n)) [
  | inl t ↦ subst (λ k. relevant rag (asked rag question k) ≡ []) (ground arith) e
  | inr f ↦ h j (ground arith)
]

Ends : CorrectiveRag → String → RagResult → Type 0
Ends rag question r = ((n : ℕ) × IsGrounded rag question n r) ⊎ IsRefused rag question r

attempt_all_refused :
    (rag : CorrectiveRag) (question : String) (n : ℕ) (query : String)
    → n ≡ rag.maximum_attempts
    → AreEmpty rag question n
    → Ends rag question (attempt_all rag question zero (suc n) query)
unfolding attempt_all Ends
attempt_all_refused rag question n query e h = inr (record {
  status = refl;
  answer = refl;
  documents = refl;
  attempts = refl;
  all_empty = subst (AreEmpty rag question) e h;
})

more_left : (n left most : ℕ) → 0 < left → n + left ≡ most → ltb n most ≡ true
more_left n left most h e = ground arith

attempt_all-Ends :
    (rag : CorrectiveRag) (question : String) (left n : ℕ) (query : String)
    → n + left ≡ rag.maximum_attempts
    → (0 < left → query ≡ asked rag question n)
    → AreEmpty rag question n
    → Ends rag question (attempt_all rag question left (suc n) query)
unfolding attempt_all Ends
attempt_all-Ends rag question zero n query e q h =
    attempt_all_refused rag question n query (omega (arith, e)) h
attempt_all-Ends rag question (suc left) n query e q h =
    let here = q (omega arith) in
    elim (Bool-cases (is_nil (relevant rag query))) [
      | inr f ↦ rw f (
          inl (
            n,
            record {
              status = refl;
              attempts = refl;
              in_bounds = omega (arith, e);
              earlier = h;
              documents = ap (relevant rag) here;
              some_documents = λ none. false≢true (sym f ∙ ap is_nil none);
              answer = refl;
            },
          ))
      | inl t ↦ rw t (
          attempt_all-Ends rag question left (suc n)
            (if ltb (suc n) rag.maximum_attempts then rag.rewriter question (suc n) else query)
            (omega (arith, e))
            (λ more. rw (more_left (suc n) left rag.maximum_attempts more (omega (arith, e))))
            (one_more rag question n h (sym (ap (relevant rag) here) ∙ is_nil-eq _ t)))
    ]

-- An invocation tries the question, then its rewritings by their number, until one attempt finds
-- documents that are graded relevant: its answer is generated from exactly these, at least one, and
-- no earlier attempt found any. If none of all the attempts finds any, it ends with the refusal, which
-- cites nothing. It never ends in another way.
pub invoke_outcomes :
    (rag : CorrectiveRag) (question : String)
    → let r = invoke rag question in
      ((n : ℕ) × IsGrounded rag question n r) ⊎ IsRefused rag question r
unfolding invoke Ends
invoke_outcomes rag question =
    attempt_all-Ends rag question rag.maximum_attempts 0 question (omega arith) (λ more. refl)
      (λ j l. absurd (omega (arith, l)))
