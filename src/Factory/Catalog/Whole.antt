-- ===== src/Factory/Catalog/Whole.antt =====
-- platforms/factory/catalog.py: `Catalog(components)` accepts the acyclic catalogs and no other.
use openmodelops.Base.{
  ℕ, suc, String, ◌≡◌, refl, subst, ◌≢◌, ◌↔◌, ◌⊎◌, inl, inr, true, some, List, [], arith, nat_eq,
  Bool-cases, eq_of_nat, eq_of_string, length, All-map, contains, Error, ok, Result-cases,
}
use openmodelops.Base.Dict.{keys, lookup, lookup-nil}
use openmodelops.Factory.Catalog.{
  Component, Components, Marks, Walk, finished, raised, exhausted, visit_each, visit, no_marks,
  by_id, validate_acyclic, check_known, make_catalog,
}
use openmodelops.Factory.Catalog.Fuel.{
  Leads, each-Leads, Inside, Distinct, IsAt, lookup-contains, validate-ends,
}
use openmodelops.Factory.Catalog.Order.{
  After, each-After, visit-After, rank, rank-lt, Inside-member,
}
use openmodelops.Factory.Catalog.Exact.{ids, AreKnown, Descends, Inside-self, visit-quiet}
use openmodelops.Factory.Catalog.Ids.{
  by_id-Distinct, Distinct-by_id, AreNew-nil, known-AreKnown, lookup-by_id,
}

Walk-cases :
    (w : Walk)
    → ((m : Marks) × (w ≡ finished m)) ⊎ (((e : Error) × (w ≡ raised e)) ⊎ (w ≡ exhausted))
Walk-cases (finished m) = inl (m, refl)
Walk-cases (raised e) = inr (inl (e, refl))
Walk-cases exhausted = inr (inr refl)

Leads-at : (I : Marks → Type 0) (R X : Type 0) {w v : Walk} → w ≡ v → Leads I R X w → Leads I R X v
Leads-at I R X e h = subst (Leads I R X) e h

validated-Descends :
    (d : Components) (m : Marks)
    → validate_acyclic d ≡ finished m
    → (height : String → ℕ) × Descends d height
unfolding validate_acyclic
validated-Descends d m e =
    let f = visit d (suc (length d)) in
    let (o, g, i) =
      Leads-at (After d (keys d) []) Unit Unit e
        (each-After d f (keys d) no_marks (λ x m' p. visit-After d (suc (length d)) x m' p) tt) in
    (
      rank m.visited,
      λ id x c l k.
          (rank-lt d m.visited id x c o l k
            (Inside-member (keys d) m.visited id i (lookup-contains d id c l))).1,
    )

Descends-validated :
    (d : Components) (height : String → ℕ)
    → Descends d height
    → ((id : String) (c : Component) → lookup id d ≡ some c → Inside c.dependencies (keys d))
    → (m : Marks) × (validate_acyclic d ≡ finished m)
unfolding validate_acyclic
Descends-validated d height h known =
    let w = visit_each (visit d (suc (length d))) (keys d) no_marks in
    let quiet =
      each-Leads (IsAt []) ⊥ Unit (visit d (suc (length d))) (keys d) no_marks
        (All-map {P = λ x. contains (keys d) x ≡ true}
          (λ x p m j. visit-quiet d height h known (suc (length d)) x [] m p tt j) (keys d)
          (Inside-self (keys d) (keys d) (λ x p. p)))
        refl in
    elim (Walk-cases w) [
      | inl (m, e) ↦ (m, e)
      | inr (inl (x, e)) ↦ absurd (Leads-at (IsAt []) ⊥ Unit e quiet)
      | inr (inr e) ↦ absurd (Leads-at (IsAt []) Unit ⊥ e (validate-ends d))
    ]

-- The dict that the constructor makes
abbrev pub catalog_of : List Component → Components
catalog_of cs = by_id [] cs

nothing_in : (id : String) (c : Component) → lookup id [] ≡ some c → ⊥
nothing_in id c l = ground (arith, lookup-nil {V = Component} id)

accepts :
    (cs : List Component) (height : String → ℕ)
    → Distinct (ids cs)
    → AreKnown (catalog_of cs) cs
    → Descends (catalog_of cs) height
    → make_catalog cs ≡ ok (catalog_of cs)
unfolding make_catalog
accepts cs height n k t =
    let d = catalog_of cs in
    let (m, e) = Descends-validated d height t (
      lookup-by_id (λ (c : Component). Inside c.dependencies (keys d)) [] cs k
        (λ id c l. absurd (nothing_in id c l))) in
    let l : nat_eq (length d) (length cs) ≡ true =
      ground (arith, Distinct-by_id [] cs n (AreNew-nil cs)) in
    rw (make_catalog, l, (known-AreKnown d cs).1 k, e) refl

accepted :
    (cs : List Component)
    → make_catalog cs ≡ ok (catalog_of cs)
    → Distinct (ids cs)
      × AreKnown (catalog_of cs) cs
      × ((height : String → ℕ) × Descends (catalog_of cs) height)
unfolding make_catalog
accepted cs h =
    let d = catalog_of cs in
    elim (Bool-cases (nat_eq (length d) (length cs))) [
      | inr l ↦ absurd (ground arith)
      | inl l ↦ elim (Result-cases (check_known d cs)) [
        | inr (x, e) ↦ absurd (ground arith)
        | inl (x, e) ↦ elim (Walk-cases (validate_acyclic d)) [
          | inl (m, w) ↦ (
            (by_id-Distinct [] cs (ground arith)).0,
            (known-AreKnown d cs).0 e,
            validated-Descends d m w,
          )
          | inr (inl (y, w)) ↦ absurd (ground arith)
          | inr (inr w) ↦ absurd (ground arith)
        ]
      ]
    ]

-- The walk over the dependencies ends whatever they are, with no lack of fuel; and a catalog is made of
-- a list of components if and only if no two of them have an id in common, each dependency is the id
-- of one of them, and there is no cycle: numbers can be given to the ids so that each component stands
-- above all its dependencies.
pub catalog_exact :
    (cs : List Component)
    → (validate_acyclic (catalog_of cs) ≢ exhausted)
      × ((make_catalog cs ≡ ok (catalog_of cs)) ↔ (
          Distinct (ids cs)
          × AreKnown (catalog_of cs) cs
          × ((height : String → ℕ) × Descends (catalog_of cs) height)))
unfolding make_catalog validate_acyclic
catalog_exact cs =
    let d = catalog_of cs in
    (
      λ e. Leads-at (IsAt []) Unit ⊥ e (validate-ends d),
      (λ h. accepted cs h, λ (n, k, t). accepts cs t.0 n k t.1),
    )
