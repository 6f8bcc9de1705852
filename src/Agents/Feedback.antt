-- ===== src/Agents/Feedback.antt =====
-- platforms/agents/feedback.py: feedback that waits for curation.
use openmodelops.Base.{
  String, Bool, not, List, [], ◌∷◌, ◌++◌, nat_eq, if◌then◌else◌, eq_of_nat, eq_of_string, keep,
  contains, value_error, Result, ok, err,
}
use openmodelops.Base.Floats.{ℤ, ltb_ℤ}

pub record Feedback : Type 0 where
  pub trace_id : String
  pub score : ℤ
  pub category : String
  pub comment : String
  pub created_at : String

-- `score in {-1, 1}`
abbrev pub is_score : ℤ → Bool
is_score (ℤ.pos n) = nat_eq n 1
is_score (ℤ.negsuc n) = nat_eq n 0

abbrev pub categories : List String
categories = "correctness" ∷ "safety" ∷ "tool" ∷ "retrieval" ∷ "latency" ∷ "other" ∷ []

unfoldable pub check_feedback : Feedback → Result Feedback
check_feedback f =
    if not (is_score f.score)
    then err (value_error "feedback score must be -1 or 1")
    else if not (contains categories f.category)
    then err (value_error "unsupported feedback category")
    else ok f

abbrev pub FeedbackStore : Type 0
FeedbackStore = List Feedback

abbrev pub add : Feedback → FeedbackStore → FeedbackStore
add f items = items ++ f ∷ []

unfoldable pub evaluation_candidates : FeedbackStore → List Feedback
evaluation_candidates items = keep (λ f. ltb_ℤ f.score (ℤ.pos 0)) items
