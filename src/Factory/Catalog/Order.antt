-- ===== src/Factory/Catalog/Order.antt =====
-- platforms/factory/catalog.py: a walk that does not raise has put the components in an order.
use openmodelops.Base.{
  ℕ, zero, suc, ◌≤◌, ◌<◌, String, ◌≡◌, subst, inl, inr, true, some, List, [], ◌∷◌, arith, eq_iff,
  if◌then◌else◌, Bool-cases, Option-cases, ◌==◌, eq_of_nat, eq_of_string, length, contains,
}
use openmodelops.Base.Dict.{lookup}
use openmodelops.Factory.Catalog.{Component, Components, Marks, Walk, visit_each, leave, visit}
use openmodelops.Factory.Catalog.Fuel.{Leads, Leads-map, then-Leads, Inside}

-- `visited`: the dependencies of each component come before it, that is further down the list.
abbrev pub IsOrdered : Components → List String → Type 0
IsOrdered components [] = Unit
IsOrdered components (x ∷ xs) =
    ((c : Component) → lookup x components ≡ some c → Inside c.dependencies xs)
    × IsOrdered components xs

abbrev pub Grown : List String → List String → Type 0
Grown xs ys = (x : String) → contains xs x ≡ true → contains ys x ≡ true

Inside-Grown : (ds xs ys : List String) → Grown xs ys → Inside ds xs → Inside ds ys
Inside-Grown [] xs ys g h = tt
Inside-Grown (d ∷ ds) xs ys g h = (g d h.0, Inside-Grown ds xs ys g h.1)

-- What a walk over the components `xs` adds to the elements that were visited before.
abbrev pub After : Components → List String → List String → Marks → Type 0
After components xs before m =
    IsOrdered components m.visited × Grown before m.visited × Inside xs m.visited

contains_more :
    (y x : String) (ys : List String) → contains ys x ≡ true → contains (y ∷ ys) x ≡ true
unfolding contains
contains_more y x ys h = ground arith

contains_first : (x : String) (xs : List String) → contains (x ∷ xs) x ≡ true
unfolding contains
contains_first x xs = ground (arith, eq_iff x x)

-- The place of a component in the order: the dependencies that it stands on have smaller ones.
abbrev pub rank : List String → String → ℕ
rank [] x = 0
rank (y ∷ ys) x = if contains ys x then rank ys x else if x == y then suc (length ys) else 0

rank-bound : (xs : List String) (x : String) → rank xs x ≤ length xs
rank-bound [] x = omega arith
rank-bound (y ∷ ys) x = ground (arith, rank-bound ys x)

pub Inside-member :
    (ds xs : List String) (d : String) → Inside ds xs → contains ds d ≡ true → contains xs d ≡ true
unfolding contains
Inside-member [] xs d i h = ground arith
Inside-member (e ∷ ds) xs d i h = ground (arith, eq_iff d e, i.0, Inside-member ds xs d i.1)

pub rank-lt :
    (components : Components) (xs : List String) (x d : String) (c : Component)
    → IsOrdered components xs
    → lookup x components ≡ some c
    → contains c.dependencies d ≡ true
    → contains xs x ≡ true
    → (contains xs d ≡ true) × (rank xs d < rank xs x)
unfolding contains
rank-lt components [] x d c o l h i = absurd (ground arith)
rank-lt components (y ∷ ys) x d c o l h i = elim (Bool-cases (contains ys x)) [
  | inl e ↦ ground (arith, rank-lt components ys x d c o.1 l h e)
  | inr e ↦
      let p : contains ys d ≡ true =
        Inside-member c.dependencies ys d
          (o.0 c (
            subst (λ z. lookup z components ≡ some c) {x = x} {y = y} (ground (arith, eq_iff x y))
              l))
          h in
      (ground arith, ground (arith, rank-bound ys d, eq_iff x y))
]

module _ (components : Components) where
  pub each-After :
      (f : String → Marks → Walk) (xs : List String) (m : Marks)
      → ((x : String) (m' : Marks)
          → IsOrdered components m'.visited
          → Leads (After components (x ∷ []) m'.visited) Unit Unit (f x m'))
      → IsOrdered components m.visited
      → Leads (After components xs m.visited) Unit Unit (visit_each f xs m)
  each-After f [] m h o = (o, λ x p. p, tt)
  each-After f (x ∷ xs) m h o =
      then-Leads (After components (x ∷ []) m.visited) (After components (x ∷ xs) m.visited) Unit
        Unit (f x m) (visit_each f xs) (h x m o)
        (λ n (o', g, i).
          Leads-map (After components xs n.visited) (After components (x ∷ xs) m.visited) Unit Unit
            (visit_each f xs n) (λ k (o2, g2, i2). (o2, λ y p. g2 y (g y p), (g2 x i.0, i2)))
            (each-After f xs n h o'))

  pub visit-After :
      (fuel : ℕ) (id : String) (m : Marks)
      → IsOrdered components m.visited
      → Leads (After components (id ∷ []) m.visited) Unit Unit (visit components fuel id m)
  unfolding visit
  visit-After zero id m o = tt
  visit-After (suc fuel) id m o = elim (Bool-cases (contains m.visiting id)) [
    | inl a ↦ rw (visit, a) tt
    | inr a ↦ elim (Bool-cases (contains m.visited id)) [
      | inl b ↦ rw (visit, a, b) (o, λ x p. p, (b, tt))
      | inr b ↦ elim (Option-cases (lookup id components)) [
        | inl l ↦ rw (visit, a, b, l) tt
        | inr (c, l) ↦
            rw (visit, a, b, l)
              (then-Leads (After components c.dependencies m.visited)
                (After components (id ∷ []) m.visited) Unit Unit _ (leave id)
                (each-After (visit components fuel) c.dependencies _
                  (λ x m' o'. visit-After fuel x m' o') o)
                (λ n (o', g, i). (
                  (
                    λ c' l'.
                        subst (λ (y : Component). Inside y.dependencies n.visited) {x = c} {y = c'}
                          (ground arith) i,
                    o',
                  ),
                  λ x p. contains_more id x n.visited (g x p),
                  (contains_first id n.visited, tt),
                )))
      ]
    ]
  ]
