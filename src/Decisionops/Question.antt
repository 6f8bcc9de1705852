-- ===== src/Decisionops/Question.antt =====
-- platforms/decisionops/contracts.py and registry.py: questions and the outputs that answer them.
-- Whether floats sum to one within a thousandth, with the rounding of the sum, is an argument.
use openmodelops.Base.{
  ℕ, String, ◌<>◌, Bool, true, false, not, ◌&&◌, ◌||◌, List, [], ◌∷◌, ltb, leb, nat_eq,
  if◌then◌else◌, ◌==◌, eq_of_nat, eq_of_string, length, any, all, contains, codes, is_lower,
  is_digit, value_error, key_error, Result, ok, err,
}
use openmodelops.Base.Dict.{Dict, keys, values, has_key}
use openmodelops.Base.Floats.{Float, fin, ℤ, lt_float, le_float, double}

pub data DecisionType : Type 0 where
  choice score probability : DecisionType

pub record QuestionDefinition : Type 0 where
  pub question_id : String
  pub version : String
  pub decision_type : DecisionType
  pub description : String
  pub owner : String
  pub required_state : List String
  pub options : List String
  pub score_levels : List String
  pub minimum_score : Float
  pub maximum_score : Float
  pub confidence_threshold : Float
  pub cacheable : Bool
  pub risk_tier : String

abbrev pub is_id_char : ℕ → Bool
is_id_char c = is_lower c || is_digit c || nat_eq c b'_' || nat_eq c b'.' || nat_eq c b'-'

-- `^[a-z][a-z0-9_.-]{2,119}$`
abbrev pub is_question_id : List ℕ → Bool
is_question_id [] = false
is_question_id (c ∷ cs) =
    is_lower c && leb 2 (length cs) && leb (length cs) 119 && all is_id_char cs

abbrev pub has_length : ℕ → ℕ → String → Bool
has_length least most s = leb least (length (codes s)) && leb (length (codes s)) most

abbrev pub zero_float : Float
zero_float = fin (ℤ.pos 0)

abbrev pub one_float : Float
one_float = double 1 1074

-- What the fields of the model allow, before its validator runs
unfoldable pub has_fields_in_range : QuestionDefinition → Bool
has_fields_in_range q =
    is_question_id (codes q.question_id)
    && has_length 1 40 q.version
    && has_length 10 2000 q.description
    && has_length 1 120 q.owner
    && (leb 1 (length q.required_state) && leb (length q.required_state) 100)
    && leb (length q.options) 100
    && leb (length q.score_levels) 100
    && (le_float zero_float q.confidence_threshold && le_float q.confidence_threshold one_float)
    && contains ("standard" ∷ "high" ∷ "critical" ∷ []) q.risk_tier

abbrev pub is_choice : DecisionType → Bool
is_choice choice = true
is_choice _ = false

abbrev pub is_score : DecisionType → Bool
is_score score = true
is_score _ = false

abbrev pub is_some {ℓ} : {A : Type ℓ} → List A → Bool
is_some [] = false
is_some (x ∷ xs) = true

-- `validate_type_configuration`
unfoldable pub check_question : QuestionDefinition → Result QuestionDefinition
unfolding has_fields_in_range
check_question q =
    if not (has_fields_in_range q)
    then err (value_error "a field is out of its range")
    else if is_choice q.decision_type && ltb (length q.options) 2
    then err (value_error "choice questions require at least two options")
    else if not (is_choice q.decision_type) && is_some q.options
    then err (value_error "only choice questions may define options")
    else if is_score q.decision_type && ltb (length q.score_levels) 2
    then err (value_error "score questions require at least two ordered score_levels")
    else if not (is_score q.decision_type) && is_some q.score_levels
    then err (value_error "only score questions may define score_levels")
    else if is_score q.decision_type && le_float q.maximum_score q.minimum_score
    then err (value_error "score questions require minimum_score below maximum_score")
    else if q.risk_tier == "critical" && q.cacheable
    then err (value_error "critical decisions cannot be cached")
    else ok q

-- `str | float`
pub data Value : Type 0 where
  word : String → Value
  amount : Float → Value

pub record DecisionOutput : Type 0 where
  pub value : Value
  pub confidence : Float
  pub probabilities : Dict String Float
  pub rationale : String

abbrev pub is_option : List String → Value → Bool
is_option options (word s) = contains options s
is_option options (amount x) = false

-- `set(probabilities) != set(options)`
abbrev pub covers : List String → Dict String Float → Bool
covers options probabilities =
    all (λ o. has_key o probabilities) options && all (contains options) (keys probabilities)

abbrev pub is_outside : Float → Bool
is_outside p = lt_float p zero_float || lt_float one_float p

abbrev pub within : DecisionType → QuestionDefinition → Float → Result (Unit {0})
within probability q x =
    if not (le_float zero_float x && le_float x one_float)
    then err (value_error "probability decision must be between zero and one")
    else ok tt
within _ q x =
    if not (le_float q.minimum_score x && le_float x q.maximum_score)
    then err (value_error "score decision is outside the registered range")
    else ok tt

abbrev pub numeric : QuestionDefinition → Value → Result (Unit {0})
numeric q (word s) = err (value_error "score and probability decisions require numeric values")
numeric q (amount x) = within q.decision_type q x

-- `DecisionEngine._validate`
unfoldable pub validate :
    (List Float → Bool) → DecisionOutput → QuestionDefinition → Result (Unit {0})
validate sums_to_one output q =
    if is_choice q.decision_type
    then (if not (is_option q.options output.value)
        then err (value_error "choice provider returned an unknown option")
        else if is_some output.probabilities && not (covers q.options output.probabilities)
        then err (value_error "choice probabilities must cover every option exactly")
        else if any is_outside (values output.probabilities)
        then err (value_error "choice probabilities must be between zero and one")
        else if is_some output.probabilities && not (sums_to_one (values output.probabilities))
        then err (value_error "choice probabilities must sum to one")
        else ok tt)
    else numeric q output.value

-- `QuestionRegistry`: the questions by id and version
abbrev pub QuestionRegistry : Type 0
QuestionRegistry = List QuestionDefinition

abbrev pub is_named : String → String → QuestionDefinition → Bool
is_named question_id version q = q.question_id == question_id && q.version == version

unfoldable pub has_twins : List QuestionDefinition → Bool
has_twins [] = false
has_twins (q ∷ qs) = any (is_named q.question_id q.version) qs || has_twins qs

unfoldable pub make_registry : List QuestionDefinition → Result QuestionRegistry
unfolding has_twins
make_registry questions =
    if has_twins questions
    then err (value_error "question IDs and versions must be unique")
    else ok questions

unfoldable pub get_question : String → String → QuestionRegistry → Result QuestionDefinition
get_question question_id version [] =
    err (key_error ("unknown question: " <> question_id <> "@" <> version))
get_question question_id version (q ∷ qs) =
    let rest = get_question question_id version qs in
    if is_named question_id version q then ok q else rest
