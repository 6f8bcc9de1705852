-- ===== src/Agents/Policy.antt =====
-- platforms/agents/policy.py: the local guardrail and the registry of tools. What Unicode counts among
-- the decimal digits and the letters of a word beyond ASCII is an argument.
pub mod Tools
use openmodelops.Base.{
  sorted_set, ℕ, zero, suc, ◌+◌, ◌-◌, ◌*◌, ◌/◌, ◌%◌, ◌^◌, ◌≤◌, ◌<◌, String, ◌<>◌, ◌≡◌, refl, sym,
  ap, ◌∙◌, subst, ◌≢◌, ◌↔◌, ◌⊎◌, inl, inr, Bool, true, false, not, ◌&&◌, ◌||◌, false≢true, Option,
  none, some, List, [], ◌∷◌, ◌++◌, map, arith, str_eq, starts_with, eq_iff, ltb, leb, nat_eq,
  nat_eq_iff, if◌then◌else◌, Bool-cases, Option-cases, Eq, ◌==◌, eq_of_nat, eq_of_string, length,
  take, length-append, keep, length-keep, any, any-append, all, All, All-append, All-take, All-keep,
  All-every, All-map, length-take, contains, is_space, is_blank, is_empty, ends_with, text_leb,
  codes, is_lower, is_digit, name_tail, is_name, repr_items, repr_list, upper, same_codes, is_part,
  lower_char, type_error, attribute_error, integration_error, Error, value_error, runtime_error,
  key_error, permission_error, concurrency_error, policy_denied, safety_violation,
  guardrail_unavailable, integrity_error, http_error, Result, ok, err, ◌>>=◌, ◌>>◌, raise_if, is_ok,
  >>=-eq-ok, Result-cases,
}
use openmodelops.Base.Decimal.{decimal, parse_decimal, parse-decimal}
use openmodelops.Base.Json.{
  Json, null, boolean, number, text, array, object, Items, no_items, item, Fields, no_fields, field,
  to_list, get_field, or_default, truthy, or_else, fields_of,
}
use openmodelops.Base.Dict.{
  Dict, keys, values, lookup, insert, has_key, lookup-nil, lookup-insert, lookup-insert_self,
  lookup-insert_ne, lookup-insert_inv, has_key_lem,
}
use openmodelops.Base.Floats.{
  Float, nan, neg_inf, pos_inf, fin, ℤ, lt_float, le_float, double, ltb_ℤ,
}
use openmodelops.Base.Audit.{Entry, Chain, Chain-append, length-audit}

pub record GuardrailResult : Type 0 where
  pub allowed : Bool
  pub safe_text : String
  pub reasons : List String

-- The categories of the characters beyond ASCII
pub record Unicode : Type 0 where
  pub decimal_beyond : ℕ → Bool
  pub word_beyond : ℕ → Bool

-- `\d` and `\w`
abbrev pub is_decimal : Unicode → ℕ → Bool
is_decimal u c = if ltb c 128 then is_digit c else u.decimal_beyond c

abbrev pub is_word : Unicode → ℕ → Bool
is_word u c =
    if ltb c 128
    then is_lower c || (leb b'A' c && leb c b'Z') || is_digit c || nat_eq c b'_'
    else u.word_beyond c

-- A letter of a pattern under `re.IGNORECASE` matches the characters that fold to it.
abbrev pub fold : ℕ → ℕ
fold c =
    if leb b'A' c && leb c b'Z'
    then c + 32
    else if nat_eq c 304 || nat_eq c 305
    then b'i'
    else if nat_eq c 383
    then b's'
    else if nat_eq c 8490
    then b'k'
    else c

-- What follows the letters of `word` in the text, if it begins with them.
unfoldable pub past : List ℕ → List ℕ → Option (List ℕ)
past [] cs = some cs
past (w ∷ ws) [] = none
past (w ∷ ws) (c ∷ cs) = let rest = past ws cs in if nat_eq (fold c) w then rest else none

abbrev pub or_past : Option (List ℕ) → Option (List ℕ) → Option (List ℕ)
or_past none next = next
or_past (some cs) next = some cs

abbrev pub is_separator : ℕ → Bool
is_separator c = nat_eq c b'_' || nat_eq c b' ' || nat_eq c b'-'

-- `[_ -]?key`
abbrev pub past_key : List ℕ → Option (List ℕ)
past_key [] = none
past_key (c ∷ cs) = if is_separator c then past (codes "key") cs else past (codes "key") (c ∷ cs)

abbrev pub then_key : Option (List ℕ) → Option (List ℕ)
then_key none = none
then_key (some cs) = past_key cs

-- `\s*`
unfoldable pub skip_spaces : List ℕ → List ℕ
skip_spaces [] = []
skip_spaces (c ∷ cs) = let rest = skip_spaces cs in if is_space c then rest else c ∷ cs

abbrev pub is_more : List ℕ → Bool
is_more [] = false
is_more (c ∷ cs) = true

-- `[:=]\s*\S+`
abbrev pub assigns : List ℕ → Bool
assigns [] = false
assigns (c ∷ cs) = (nat_eq c b':' || nat_eq c b'=') && is_more (skip_spaces cs)

abbrev pub is_assigned : Option (List ℕ) → Bool
is_assigned none = false
is_assigned (some cs) = assigns (skip_spaces cs)

-- `(?:password|secret|api[_ -]?key)\s*[:=]\s*\S+` at the start of the text
unfoldable pub credential_at : List ℕ → Bool
credential_at cs = is_assigned (
    or_past (past (codes "password") cs)
      (or_past (past (codes "secret") cs) (then_key (past (codes "api") cs))))

-- `\d{n}`
unfoldable pub past_digits : Unicode → ℕ → List ℕ → Option (List ℕ)
past_digits u zero cs = some cs
past_digits u (suc n) [] = none
past_digits u (suc n) (c ∷ cs) =
    let rest = past_digits u n cs in if is_decimal u c then rest else none

abbrev pub past_dash : Option (List ℕ) → Option (List ℕ)
past_dash none = none
past_dash (some []) = none
past_dash (some (c ∷ cs)) = if nat_eq c b'-' then some cs else none

abbrev pub then_digits : Unicode → ℕ → Option (List ℕ) → Option (List ℕ)
then_digits u n none = none
then_digits u n (some cs) = past_digits u n cs

-- `\b` after a character of a word
abbrev pub ends_word : Unicode → Option (List ℕ) → Bool
ends_word u none = false
ends_word u (some []) = true
ends_word u (some (c ∷ cs)) = not (is_word u c)

-- `\d{3}-\d{2}-\d{4}\b` at the start of the text
unfoldable pub identifier_at : Unicode → List ℕ → Bool
identifier_at u cs =
    ends_word u (then_digits u 4 (past_dash (then_digits u 2 (past_dash (past_digits u 3 cs)))))

-- `pattern.search(text)`, where the pattern begins with `\b` and a character of a word; `before` says
-- that the character before the text is one, too.
unfoldable pub search : Unicode → (List ℕ → Bool) → Bool → List ℕ → Bool
search u at before [] = false
search u at before (c ∷ cs) = (at (c ∷ cs) && not before) || search u at (is_word u c) cs

abbrev pub blocked_text : String
blocked_text = "Request blocked by safety policy."

abbrev pub reasons_of : Bool → Bool → List String
reasons_of true true = "credential" ∷ "government_identifier" ∷ []
reasons_of true false = "credential" ∷ []
reasons_of false true = "government_identifier" ∷ []
reasons_of false false = []

abbrev pub guarded_by : String → List String → GuardrailResult
guarded_by s [] = record { allowed = true; safe_text = s; reasons = [] }
guarded_by s (r ∷ rs) = record { allowed = false; safe_text = blocked_text; reasons = r ∷ rs }

-- `LocalGuardrail.check`
unfoldable pub check : Unicode → String → GuardrailResult
unfolding credential_at identifier_at
check u s = guarded_by s (
    reasons_of (search u credential_at false (codes s))
      (search u (identifier_at u) false (codes s)))

abbrev pub is_nil : List String → Bool
is_nil [] = true
is_nil (x ∷ xs) = false

-- A tool, whose handler takes the arguments by their names; a handler may raise.
pub record ToolSpec {ℓ κ} (V : Type ℓ) (A : Type κ) : Type (ℓ ⊔ κ) where
  pub name : String
  pub handler : Dict String V → Result A
  pub required_arguments : List String
  pub allowed_roles : List String
  pub side_effecting : Bool

module _ {ℓ κ} {V : Type ℓ} {A : Type κ} where
  unfoldable pub register :
      ToolSpec V A → Dict String (ToolSpec V A) → Result (Dict String (ToolSpec V A))
  register spec tools =
      if has_key spec.name tools
      then err (value_error ("duplicate tool: " <> spec.name))
      else ok (insert spec.name spec tools)

  -- `spec.required_arguments - arguments.keys()`
  abbrev pub missing : ToolSpec V A → Dict String V → List String
  missing spec arguments = keep (λ k. not (has_key k arguments)) spec.required_arguments

  -- What follows once the tool is found
  abbrev pub call_tool : ToolSpec V A → Dict String V → String → Bool → Result A
  call_tool spec arguments role approved =
      if not (contains spec.allowed_roles role)
      then err (policy_denied "caller role is not permitted for this tool")
      else if not (is_nil (missing spec arguments))
      then err (
          policy_denied
            ("missing required arguments: " <> repr_list (sorted_set (missing spec arguments))))
      else if spec.side_effecting && not approved
      then err (policy_denied "side-effecting tool requires explicit approval")
      else spec.handler arguments

  unfoldable pub invoke_tool :
      String → Dict String V → String → Bool → Dict String (ToolSpec V A) → Result A
  invoke_tool name arguments role approved tools = elim (lookup name tools) [
    | none ↦ err (policy_denied "tool is not allow-listed")
    | some spec ↦ call_tool spec arguments role approved
  ]
