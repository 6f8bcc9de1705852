-- ===== src/Factory/Catalog/Fuel.antt =====
-- platforms/factory/catalog.py: the walk along the dependencies ends.
use openmodelops.Base.{
  ℕ, zero, suc, ◌+◌, ◌≤◌, ◌<◌, String, ◌≡◌, refl, ap, ◌∙◌, subst, inl, inr, true, false, not, some,
  List, [], ◌∷◌, arith, eq_iff, if◌then◌else◌, Bool-cases, Option-cases, ◌==◌, eq_of_nat,
  eq_of_string, length, keep, All, All-every, contains,
}
use openmodelops.Base.Dict.{keys, lookup}
use openmodelops.Factory.Catalog.{
  Component, Components, Marks, Walk, finished, raised, exhausted, then_walk, visit_each, leave,
  no_marks, visit,
}

-- What holds of the end of a walk: `I` of its marks, `R` if it raised, `X` if fuel was lacking.
abbrev pub Leads : (Marks → Type 0) → Type 0 → Type 0 → Walk → Type 0
Leads I R X (finished m) = I m
Leads I R X (raised e) = R
Leads I R X exhausted = X

pub then-Leads :
    (I J : Marks → Type 0) (R X : Type 0) (w : Walk) (next : Marks → Walk)
    → Leads I R X w
    → ((m : Marks) → I m → Leads J R X (next m))
    → Leads J R X (then_walk w next)
then-Leads I J R X (finished m) next h k = k m h
then-Leads I J R X (raised e) next h k = h
then-Leads I J R X exhausted next h k = h

pub Leads-map :
    (I J : Marks → Type 0) (R X : Type 0) (w : Walk)
    → ((m : Marks) → I m → J m)
    → Leads I R X w
    → Leads J R X w
Leads-map I J R X (finished m) f h = f m h
Leads-map I J R X (raised e) f h = h
Leads-map I J R X exhausted f h = h

pub each-Leads :
    (I : Marks → Type 0) (R X : Type 0) (f : String → Marks → Walk) (xs : List String) (m : Marks)
    → All (λ x. (m' : Marks) → I m' → Leads I R X (f x m')) xs
    → I m
    → Leads I R X (visit_each f xs m)
each-Leads I R X f [] m h i = i
each-Leads I R X f (x ∷ xs) m h i =
    then-Leads I I R X (f x m) (visit_each f xs) (h.0 m i) (λ n j. each-Leads I R X f xs n h.1 j)

-- Each element once
abbrev pub Distinct : List String → Type 0
Distinct [] = Unit
Distinct (x ∷ xs) = (contains xs x ≡ false) × Distinct xs

abbrev pub Inside : List String → List String → Type 0
Inside xs ks = All (λ x. contains ks x ≡ true) xs

remove_one : String → List String → List String
remove_one x [] = []
remove_one x (k ∷ ks) = let rest = remove_one x ks in if k == x then ks else k ∷ rest

length-remove_one :
    (x : String) (ks : List String)
    → contains ks x ≡ true
    → suc (length (remove_one x ks)) ≡ length ks
unfolding remove_one contains
length-remove_one x [] h = ground arith
length-remove_one x (k ∷ ks) h = ground (arith, eq_iff x k, eq_iff k x, length-remove_one x ks)

contains-remove_one :
    (x y : String) (ks : List String)
    → (y == x) ≡ false
    → contains ks y ≡ true
    → contains (remove_one x ks) y ≡ true
unfolding remove_one contains
contains-remove_one x y [] n h = ground arith
contains-remove_one x y (k ∷ ks) n h =
    ground (arith, eq_iff y k, eq_iff k x, eq_iff y x, contains-remove_one x y ks n)

Inside-remove_one :
    (x : String) (xs ks : List String)
    → contains xs x ≡ false
    → Inside xs ks
    → Inside xs (remove_one x ks)
unfolding contains
Inside-remove_one x [] ks n h = tt
Inside-remove_one x (y ∷ ys) ks n h = (
  contains-remove_one x y ks (ground (arith, eq_iff x y, eq_iff y x)) h.0,
  Inside-remove_one x ys ks (ground arith) h.1,
)

-- A list without repetition is no longer than one that holds all its elements.
length-Distinct : (xs ks : List String) → Distinct xs → Inside xs ks → length xs ≤ length ks
length-Distinct [] ks d h = omega arith
length-Distinct (x ∷ xs) ks d h = omega (
  arith,
  length-remove_one x ks h.0,
  length-Distinct xs (remove_one x ks) d.1 (Inside-remove_one x xs ks d.0 h.1),
)

pub length-keys : (d : Components) → length (keys d) ≡ length d
unfolding keys
length-keys [] = refl
length-keys ((k, c) ∷ d) = ap suc (length-keys d)

pub lookup-contains :
    (d : Components) (id : String) (c : Component)
    → lookup id d ≡ some c
    → contains (keys d) id ≡ true
unfolding lookup keys contains
lookup-contains [] id c h = ground arith
lookup-contains ((k, x) ∷ d) id c h =
    ground (arith, eq_iff id k, eq_iff k id, lookup-contains d id c)

-- After `visiting.add(id)`, `visiting.remove(id)` leaves what was there.
pub keep-add :
    (id : String) (vs : List String)
    → contains vs id ≡ false
    → keep (λ v. not (v == id)) (id ∷ vs) ≡ vs
unfolding keep contains
keep-add id [] n = ground (arith, eq_iff id id)
keep-add id (v ∷ vs) n = ground (arith, eq_iff id id, eq_iff v id, eq_iff id v, keep-add id vs)

-- `visiting` is `V`, without repetition, and holds keys.
abbrev pub IsAt : List String → Marks → Type 0
IsAt V m = m.visiting ≡ V

module _ (components : Components) where
  pub visit-ends :
      (fuel : ℕ) (id : String) (V : List String) (m : Marks)
      → Distinct V
      → Inside V (keys components)
      → length components < fuel + length V
      → IsAt V m
      → Leads (IsAt V) Unit ⊥ (visit components fuel id m)
  unfolding visit
  visit-ends zero id V m d i h at =
      absurd (omega (arith, length-Distinct V (keys components) d i, length-keys components))
  visit-ends (suc fuel) id V m d i h at = elim (Bool-cases (contains m.visiting id)) [
    | inl a ↦ rw (visit, a) tt
    | inr a ↦ elim (Bool-cases (contains m.visited id)) [
      | inl b ↦ rw (visit, a, b) at
      | inr b ↦ elim (Option-cases (lookup id components)) [
        | inl l ↦ rw (visit, a, b, l) tt
        | inr (c, l) ↦
            rw (visit, a, b, l)
              (let n : contains V id ≡ false = subst (λ vs. contains vs id ≡ false) at a in
                then-Leads (IsAt (id ∷ V)) (IsAt V) Unit ⊥ _ (leave id)
                  (each-Leads (IsAt (id ∷ V)) Unit ⊥ (visit components fuel) c.dependencies _
                    (All-every _
                      (λ x m' j.
                        visit-ends fuel x (id ∷ V) m' (n, d) (lookup-contains components id c l, i)
                          (omega (arith, h)) j)
                      c.dependencies)
                    (ap (λ vs. id ∷ vs) at))
                  (λ m' j. ap (keep (λ v. not (v == id))) j ∙ keep-add id V n))
      ]
    ]
  ]

  -- The walk from every component ends: the fuel is enough for any catalog.
  pub validate-ends :
      Leads
        (IsAt [])
        Unit
        ⊥
        (visit_each (visit components (suc (length components))) (keys components) no_marks)
  validate-ends =
      each-Leads (IsAt []) Unit ⊥ _ (keys components) no_marks
        (All-every _ (λ x m j. visit-ends (suc (length components)) x [] m tt tt (omega arith) j)
          (keys components))
        refl
