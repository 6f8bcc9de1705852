-- ===== src/Factory/Catalog/Exact.antt =====
-- platforms/factory/catalog.py: which lists of components make a catalog.
use openmodelops.Base.{
  ℕ, zero, suc, ◌<◌, String, ◌≡◌, refl, sym, ap, ◌∙◌, subst, inl, inr, true, false, not, none, some,
  List, [], ◌∷◌, map, arith, eq_iff, Bool-cases, Option-cases, ◌==◌, eq_of_nat, eq_of_string, keep,
  All, All-map, contains,
}
use openmodelops.Base.Dict.{keys, lookup}
use openmodelops.Factory.Catalog.{Component, Components, Marks, leave, visit}
use openmodelops.Factory.Catalog.Fuel.{Leads, then-Leads, each-Leads, Inside, IsAt, keep-add}

abbrev pub ids : List Component → List String
ids cs = map (λ (c : Component). c.component_id) cs

-- Every dependency is the id of a component.
abbrev pub AreKnown : Components → List Component → Type 0
AreKnown components cs = All (λ (c : Component). Inside c.dependencies (keys components)) cs

-- The dependencies of a component stand lower than it does.
abbrev pub Descends : Components → (String → ℕ) → Type 0
Descends components height =
    (id dependency : String) (c : Component)
    → lookup id components ≡ some c
    → contains c.dependencies dependency ≡ true
    → height dependency < height id

pub Inside-self :
    (xs ys : List String)
    → ((x : String) → contains xs x ≡ true → contains ys x ≡ true)
    → Inside xs ys
unfolding contains
Inside-self [] ys f = tt
Inside-self (x ∷ xs) ys f =
    (f x (ground (arith, eq_iff x x)), Inside-self xs ys (λ y h. f y (ground arith)))

pub contains-lookup :
    (d : Components) (id : String) → contains (keys d) id ≡ true → lookup id d ≡ none → ⊥
unfolding contains keys lookup
contains-lookup [] id h e = ground arith
contains-lookup ((k, c) ∷ d) id h e = ground (arith, eq_iff id k, eq_iff k id, contains-lookup d id)

below_itself : (height : String → ℕ) (x y : String) → height x < height y → x ≡ y → ⊥
below_itself height x y h e =
    let k : height x < height x = subst (λ z. height x < height z) (sym e) h in omega (arith, k)

-- Both facts of each element
Inside-both :
    (xs ys zs : List String)
    → Inside xs ys
    → Inside xs zs
    → All (λ x. (contains ys x ≡ true) × (contains zs x ≡ true)) xs
Inside-both [] ys zs h k = tt
Inside-both (x ∷ xs) ys zs h k = ((h.0, k.0), Inside-both xs ys zs h.1 k.1)

above_more :
    (height : String → ℕ) (x id : String) (V : List String)
    → height x < height id
    → All (λ v. height id < height v) V
    → All (λ v. height x < height v) V
above_more height x id [] h k = tt
above_more height x id (v ∷ V) h k = (omega (arith, h, k.0), above_more height x id V h k.1)

above-apart :
    (height : String → ℕ) (id : String) (V : List String)
    → All (λ v. height id < height v) V
    → contains V id ≡ false
unfolding contains
above-apart height id [] h = refl
above-apart height id (v ∷ V) h = elim (Bool-cases (id == v)) [
  | inl e ↦ absurd (below_itself height id v h.0 ((eq_iff id v).0 e))
  | inr e ↦ ground (arith, above-apart height id V h.1)
]

module _ (components : Components) (height : String → ℕ) (d : Descends components height)
    (known : (id : String) (c : Component)
      → lookup id components ≡ some c
      → Inside c.dependencies (keys components)) where
  -- No walk raises where the components have heights.
  pub visit-quiet :
      (fuel : ℕ) (id : String) (V : List String) (m : Marks)
      → contains (keys components) id ≡ true
      → All (λ v. height id < height v) V
      → IsAt V m
      → Leads (IsAt V) ⊥ Unit (visit components fuel id m)
  unfolding visit
  visit-quiet zero id V m i h at = tt
  visit-quiet (suc fuel) id V m i h at =
      let n = above-apart height id V h in
      let a : contains m.visiting id ≡ false = subst (λ vs. contains vs id ≡ false) (sym at) n in
      elim (Bool-cases (contains m.visited id)) [
        | inl b ↦ rw (visit, a, b) at
        | inr b ↦ elim (Option-cases (lookup id components)) [
          | inl l ↦ absurd (contains-lookup components id i l)
          | inr (c, l) ↦
              rw (visit, a, b, l)
                (then-Leads (IsAt (id ∷ V)) (IsAt V) ⊥ Unit _ (leave id)
                  (each-Leads (IsAt (id ∷ V)) ⊥ Unit (visit components fuel) c.dependencies _
                    (All-map
                      {P = λ x.
                        (contains (keys components) x ≡ true) × (contains c.dependencies x ≡ true)}
                      (λ x p m' j.
                        let lower = d id x c l p.1 in
                        visit-quiet fuel x (id ∷ V) m' p.0 (lower, above_more height x id V lower h)
                          j)
                      c.dependencies
                      (Inside-both c.dependencies (keys components) c.dependencies (known id c l)
                        (Inside-self c.dependencies c.dependencies (λ x p. p))))
                    (ap (λ vs. id ∷ vs) at))
                  (λ m' j. ap (keep (λ v. not (v == id))) j ∙ keep-add id V n))
        ]
      ]
