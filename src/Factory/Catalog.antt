-- ===== src/Factory/Catalog.antt =====
-- platforms/factory/catalog.py: the components of the platform and the walk along their dependencies.
pub mod Fuel
pub mod Order
pub mod Exact
pub mod Ids
pub mod Whole
use openmodelops.Base.{
  sorted_set, ℕ, zero, suc, ◌+◌, ◌-◌, ◌*◌, ◌/◌, ◌%◌, ◌^◌, ◌≤◌, ◌<◌, String, ◌<>◌, ◌≡◌, refl, sym,
  ap, ◌∙◌, subst, ◌≢◌, ◌↔◌, ◌⊎◌, inl, inr, Bool, true, false, not, ◌&&◌, ◌||◌, false≢true, Option,
  none, some, List, [], ◌∷◌, ◌++◌, map, arith, str_eq, starts_with, eq_iff, ltb, leb, nat_eq,
  nat_eq_iff, if◌then◌else◌, Bool-cases, Option-cases, Eq, ◌==◌, eq_of_nat, eq_of_string, length,
  take, length-append, keep, length-keep, any, any-append, all, All, All-append, All-take, All-keep,
  All-every, All-map, length-take, contains, is_space, is_blank, is_empty, ends_with, text_leb,
  codes, is_lower, is_digit, name_tail, is_name, repr_items, repr_list, upper, same_codes, is_part,
  lower_char, type_error, attribute_error, integration_error, Error, value_error, runtime_error,
  key_error, permission_error, concurrency_error, policy_denied, safety_violation,
  guardrail_unavailable, integrity_error, http_error, Result, ok, err, ◌>>=◌, ◌>>◌, raise_if, is_ok,
  >>=-eq-ok, Result-cases,
}
use openmodelops.Base.Decimal.{decimal, parse_decimal, parse-decimal}
use openmodelops.Base.Json.{
  Json, null, boolean, number, text, array, object, Items, no_items, item, Fields, no_fields, field,
  to_list, get_field, or_default, truthy, or_else, fields_of,
}
use openmodelops.Base.Dict.{
  Dict, keys, values, lookup, insert, has_key, lookup-nil, lookup-insert, lookup-insert_self,
  lookup-insert_ne, lookup-insert_inv, has_key_lem,
}
use openmodelops.Base.Floats.{
  Float, nan, neg_inf, pos_inf, fin, ℤ, lt_float, le_float, double, ltb_ℤ,
}
use openmodelops.Base.Audit.{Entry, Chain, Chain-append, length-audit}

pub record Component : Type 0 where
  pub component_id : String
  pub name : String
  pub domain : String
  pub owner : String
  pub source : String
  pub maturity : String
  pub interface_version : String
  pub health_endpoint : String
  pub capabilities : List String
  pub evidence : List String
  pub dependencies : List String

abbrev pub maturity_levels : List String
maturity_levels = "reference" ∷ "integration-ready" ∷ "implemented" ∷ "verified" ∷ []

abbrev pub domains : List String
domains = "mlops" ∷ "llmops" ∷ "agentops" ∷ "ai-sre" ∷ "shared" ∷ []

abbrev pub is_nil {ℓ} : {A : Type ℓ} → List A → Bool
is_nil [] = true
is_nil (x ∷ xs) = false

-- `re.fullmatch(r"v\d+", s)`; which characters are decimal digits is for Unicode to say.
abbrev pub is_version : (ℕ → Bool) → List ℕ → Bool
is_version is_decimal [] = false
is_version is_decimal (c ∷ cs) = nat_eq c b'v' && not (is_nil cs) && all is_decimal cs

unfoldable pub check_component : (ℕ → Bool) → Component → Result Component
check_component is_decimal c =
    if not (is_name (codes c.component_id))
    then err (value_error ("invalid component id: " <> c.component_id))
    else if not (contains domains c.domain)
    then err (value_error ("invalid domain for " <> c.component_id))
    else if not (contains maturity_levels c.maturity)
    then err (value_error ("invalid maturity for " <> c.component_id))
    else if not (starts_with c.source "https://github.com/")
    then err (value_error ("source must be a GitHub URL for " <> c.component_id))
    else if not (is_version is_decimal (codes c.interface_version))
    then err (value_error ("invalid interface version for " <> c.component_id))
    else if is_nil c.capabilities || is_nil c.evidence
    then err (value_error ("capabilities and evidence are required for " <> c.component_id))
    else ok c

abbrev pub Components : Type 0
Components = Dict String Component

-- `{component.component_id: component for component in components}`
unfoldable pub by_id : Components → List Component → Components
by_id d [] = d
by_id d (c ∷ cs) = by_id (insert c.component_id c d) cs

-- The sets of `_validate_acyclic`, the element last added first.
pub record Marks : Type 0 where
  pub visiting : List String
  pub visited : List String

-- How a call of `visit` ends; `exhausted` is no end, but the lack of fuel.
pub data Walk : Type 0 where
  finished : Marks → Walk
  raised : Error → Walk
  exhausted : Walk

abbrev pub then_walk : Walk → (Marks → Walk) → Walk
then_walk (finished m) next = next m
then_walk (raised e) next = raised e
then_walk exhausted next = exhausted

-- `for x in xs: visit(x)`
abbrev pub visit_each : (String → Marks → Walk) → List String → Marks → Walk
visit_each visit [] m = finished m
visit_each visit (x ∷ xs) m = then_walk (visit x m) (visit_each visit xs)

-- `visiting.remove(id)` and `visited.add(id)`
abbrev pub leave : String → Marks → Walk
leave id m =
    finished (record { visiting = keep (λ v. not (v == id)) m.visiting; visited = id ∷ m.visited })

unfoldable pub visit : Components → ℕ → String → Marks → Walk
visit components zero id m = exhausted
visit components (suc fuel) id m =
    if contains m.visiting id
    then raised (value_error ("dependency cycle detected at " <> id))
    else if contains m.visited id
    then finished m
    else elim (lookup id components) [
      | none ↦ raised (key_error id)
      | some c ↦
          then_walk
            (visit_each (visit components fuel) c.dependencies
              (record m { visiting = id ∷ m.visiting }))
            (leave id)
    ]

abbrev pub no_marks : Marks
no_marks = record { visiting = []; visited = [] }

-- A call inside a call has one more component in `visiting`, so this much fuel is enough.
unfoldable pub validate_acyclic : Components → Walk
validate_acyclic components =
    visit_each (visit components (suc (length components))) (keys components) no_marks

-- `set(component.dependencies) - self.components.keys()`
abbrev pub missing : Components → Component → List String
missing components c = keep (λ d. not (has_key d components)) c.dependencies

unfoldable pub check_known : Components → List Component → Result (Unit {0})
check_known components [] = ok tt
check_known components (c ∷ cs) =
    let rest = check_known components cs in
    if not (is_nil (missing components c))
    then err (
        value_error (
          c.component_id
          <> " has unknown dependencies: "
          <> repr_list (sorted_set (missing components c))))
    else rest

abbrev pub ended : Components → Walk → Result Components
ended components (finished m) = ok components
ended components (raised e) = err e
ended components exhausted = err (runtime_error "maximum recursion depth exceeded")

-- `Catalog(components)`
unfoldable pub make_catalog : List Component → Result Components
unfolding check_known validate_acyclic
make_catalog cs =
    let components = by_id [] cs in
    if not (nat_eq (length components) (length cs))
    then err (value_error "duplicate component id")
    else check_known components cs >> ended components (validate_acyclic components)

pub record Summary : Type 0 where
  pub id : String
  pub name : String
  pub domain : String
  pub maturity : String
  pub capabilities : List String
  pub dependencies : List String

abbrev pub summary_of : Component → Summary
summary_of c = record {
  id = c.component_id;
  name = c.name;
  domain = c.domain;
  maturity = c.maturity;
  capabilities = c.capabilities;
  dependencies = c.dependencies;
}

unfoldable pub summary : Components → List Summary
summary components = map summary_of (values components)
