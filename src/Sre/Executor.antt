-- ===== src/Sre/Executor.antt =====
-- platforms/kubernetes_sre/actions.py: proposals, approvals and the executor's guards.
pub mod Exact
use openmodelops.Base.{
  ℕ, zero, suc, ◌+◌, ◌-◌, ◌*◌, ◌/◌, ◌%◌, ◌^◌, ◌≤◌, ◌<◌, String, ◌<>◌, ◌≡◌, refl, sym, ap, ◌∙◌,
  subst, ◌≢◌, ◌↔◌, ◌⊎◌, inl, inr, Bool, true, false, not, ◌&&◌, ◌||◌, false≢true, Option, none,
  some, List, [], ◌∷◌, ◌++◌, map, arith, str_eq, starts_with, eq_iff, ltb, leb, nat_eq, nat_eq_iff,
  if◌then◌else◌, Bool-cases, Option-cases, Eq, ◌==◌, eq_of_nat, eq_of_string, length, take,
  length-append, keep, length-keep, any, any-append, all, All, All-append, contains, is_space,
  is_blank, is_empty, codes, is_lower, is_digit, name_tail, is_name, repr_items, repr_list, Error,
  value_error, runtime_error, key_error, permission_error, concurrency_error, policy_denied,
  safety_violation, guardrail_unavailable, integrity_error, http_error, Result, ok, err, ◌>>=◌,
  ◌>>◌, raise_if, is_ok, >>=-eq-ok, Result-cases,
}
use openmodelops.Base.Dict.{
  Dict, keys, values, lookup, insert, has_key, lookup-nil, lookup-insert, lookup-insert_self,
  lookup-insert_ne, lookup-insert_inv, has_key_lem,
}
use openmodelops.Base.Floats.{
  Float, nan, neg_inf, pos_inf, fin, ℤ, lt_float, le_float, double, ltb_ℤ,
}
use openmodelops.Base.Audit.{Entry, Chain, Chain-append, length-audit}

pub data ActionType : Type 0 where
  scale_deployment restart_deployment : ActionType

-- A value of `parameters`, which is an `int` or a `str`.
pub data Parameter : Type 0 where
  number : ℤ → Parameter
  text : String → Parameter

-- Instants are counted in microseconds.
pub record ActionProposal : Type 0 where
  pub action : ActionType
  pub cluster : String
  pub namespace : String
  pub resource_name : String
  pub resource_uid : String
  pub resource_version : String
  pub requested_by : String
  pub rationale : String
  pub rollback : String
  pub parameters : Dict String Parameter
  pub proposal_id : String
  pub created_at : ℕ

pub record Approval : Type 0 where
  pub proposal_id : String
  pub proposal_digest : String
  pub approved_by : String
  pub approved_at : ℕ
  pub expires_at : ℕ

-- `timedelta(minutes=15)`
abbrev pub quarter : ℕ
quarter = 900000000

-- `Approval(proposal_id, digest, approver)`: each of the two defaults reads the clock.
abbrev pub new_approval : ℕ → ℕ → String → String → String → Approval
new_approval now later proposal_id digest approver = record {
  proposal_id = proposal_id;
  proposal_digest = digest;
  approved_by = approver;
  approved_at = now;
  expires_at = later + quarter;
}

-- The digits of `int(text)`, with single underscores between them and white space behind them:
-- `free` is true where the text may end.
unfoldable pub read_digits : Bool → ℕ → List ℕ → Option ℕ
read_digits free value [] = if free then some value else none
read_digits free value (c ∷ cs) =
    let digit = read_digits true (10 * value + (c - 48)) cs in
    let joined = read_digits false value cs in
    if is_digit c
    then digit
    else if free && nat_eq c 95
    then joined
    else if free && all is_space (c ∷ cs)
    then some value
    else none

abbrev negative : ℕ → ℤ
negative zero = ℤ.pos 0
negative (suc n) = ℤ.negsuc n

abbrev signed : (ℕ → ℤ) → Option ℕ → Option ℤ
signed sign none = none
signed sign (some n) = some (sign n)

-- `int(text)` of a text in ASCII
unfoldable pub read_int : List ℕ → Option ℤ
unfolding read_digits
read_int [] = none
read_int (c ∷ cs) =
    let rest = read_int cs in
    if is_space c
    then rest
    else if nat_eq c 45
    then signed negative (read_digits false 0 cs)
    else if nat_eq c 43
    then signed ℤ.pos (read_digits false 0 cs)
    else signed ℤ.pos (read_digits false 0 (c ∷ cs))

-- `int(proposal.parameters.get("replicas", -1))`
unfoldable pub int_of : Option Parameter → Result ℤ
int_of none = ok (ℤ.negsuc 0)
int_of (some (number n)) = ok n
int_of (some (text s)) = elim (read_int (codes s)) [
  | none ↦ err (value_error ("invalid literal for int() with base 10: '" <> s <> "'"))
  | some n ↦ ok n
]

-- A call of the `KubernetesWriter`.
pub data Call : Type 0 where
  scaling : String → String → ℕ → String → String → Call
  restarting : String → String → String → String → Call

-- `0 <= replicas <= 100`
abbrev pub replicas_of : ℤ → Result ℕ
replicas_of (ℤ.pos n) =
    if leb n 100 then ok n else err (safety_violation "replicas must be between 0 and 100")
replicas_of (ℤ.negsuc n) = err (safety_violation "replicas must be between 0 and 100")

abbrev pub scale_call : ActionProposal → ℕ → Call
scale_call p replicas =
    scaling p.namespace p.resource_name replicas p.resource_uid p.resource_version

abbrev pub restart_call : ActionProposal → Call
restart_call p = restarting p.namespace p.resource_name p.resource_uid p.resource_version

unfoldable pub call_of : ActionProposal → Result Call
call_of p = elim p.action [
  | scale_deployment ↦
      int_of (lookup "replicas" p.parameters) >>= λ n. replicas_of n >>= λ m. ok (scale_call p m)
  | restart_deployment ↦ ok (restart_call p)
]

-- What the executor is made of: the writer, whose answers are the cluster's, and the managed
-- namespaces.
pub record Executor : Type 0 where
  pub writer : Call → Result String
  pub managed_namespaces : List String

unfoldable pub check_change :
    (ActionProposal → String)
    → Executor
    → ℕ
    → ActionProposal
    → Approval
    → String
    → Result (Unit {0})
check_change digest executor now p a actor =
    if not (contains executor.managed_namespaces p.namespace)
    then err (safety_violation "target namespace is outside the managed boundary")
    else if is_blank p.rollback
    then err (safety_violation "rollback instructions are required")
    else if not (a.proposal_id == p.proposal_id) || not (a.proposal_digest == digest p)
    then err (safety_violation "approval does not match the immutable proposal")
    else if a.approved_by == p.requested_by
    then err (safety_violation "proposal author cannot approve their own change")
    else if leb a.expires_at now
    then err (safety_violation "approval has expired")
    else if actor == p.requested_by || actor == a.approved_by
    then err (safety_violation "executor must be independent from proposer and approver")
    else ok tt

abbrev pub perform : Executor → Result Call → Result String × List Call
perform executor (err e) = (err e, [])
perform executor (ok call) = (executor.writer call, call ∷ [])

-- The answer, and the calls of the writer that were made.
unfoldable pub execute :
    (ActionProposal → String)
    → Executor
    → ℕ
    → ActionProposal
    → Approval
    → String
    → Result String × List Call
execute digest executor now p a actor =
    perform executor (check_change digest executor now p a actor >> call_of p)
