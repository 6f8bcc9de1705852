-- ===== src/Factory/Catalog/Ids.antt =====
-- platforms/factory/catalog.py: the dict of the components by their ids, and the dependencies it knows.
use openmodelops.Base.{
  suc, ◌+◌, ◌≤◌, String, ◌≡◌, refl, subst, ◌↔◌, inl, inr, Bool, true, false, not, ◌||◌, some, List,
  [], ◌∷◌, arith, eq_iff, if◌then◌else◌, ◌==◌, eq_of_nat, eq_of_string, length, keep, all, All,
  contains, ok,
}
use openmodelops.Base.Dict.{keys, lookup, insert, has_key, lookup-insert_inv}
use openmodelops.Factory.Catalog.{Component, Components, is_nil, by_id, check_known}
use openmodelops.Factory.Catalog.Fuel.{Inside, Distinct}
use openmodelops.Factory.Catalog.Exact.{ids, AreKnown}

length-insert :
    (k : String) (c : Component) (d : Components)
    → length (insert k c d) ≡ (if has_key k d then length d else suc (length d))
unfolding insert has_key
length-insert k c [] = refl
length-insert k c ((j, x) ∷ d) = ground (arith, length-insert k c d)

has_key-insert :
    (j k : String) (c : Component) (d : Components)
    → has_key j (insert k c d) ≡ (k == j || has_key j d)
unfolding insert has_key
has_key-insert j k c [] = ground arith
has_key-insert j k c ((i, x) ∷ d) =
    ground (arith, eq_iff i k, eq_iff i j, eq_iff k j, has_key-insert j k c d)

length-by_id : (d : Components) (cs : List Component) → length (by_id d cs) ≤ length d + length cs
unfolding by_id
length-by_id d [] = omega arith
length-by_id d (c ∷ cs) =
    ground (arith, length-by_id (insert c.component_id c d) cs, length-insert c.component_id c d)

-- None of the components is in the dict.
abbrev AreNew : Components → List Component → Type 0
AreNew d cs = All (λ (c : Component). has_key c.component_id d ≡ false) cs

new-apart :
    (k : String) (x : Component) (d : Components) (cs : List Component)
    → AreNew (insert k x d) cs
    → (contains (ids cs) k ≡ false) × AreNew d cs
unfolding contains
new-apart k x d [] h = (refl, tt)
new-apart k x d (c ∷ cs) h =
    let (p, q) = new-apart k x d cs h.1 in
    (
      ground (arith, eq_iff k c.component_id, h.0, has_key-insert c.component_id k x d),
      (ground (arith, h.0, has_key-insert c.component_id k x d), q),
    )

apart-new :
    (k : String) (x : Component) (d : Components) (cs : List Component)
    → contains (ids cs) k ≡ false
    → AreNew d cs
    → AreNew (insert k x d) cs
unfolding contains
apart-new k x d [] n h = tt
apart-new k x d (c ∷ cs) n h = (
  ground (arith, h.0, has_key-insert c.component_id k x d),
  apart-new k x d cs (ground arith) h.1,
)

pub by_id-Distinct :
    (d : Components) (cs : List Component)
    → length (by_id d cs) ≡ length d + length cs
    → Distinct (ids cs) × AreNew d cs
unfolding by_id
by_id-Distinct d [] h = (tt, tt)
by_id-Distinct d (c ∷ cs) h =
    let e = insert c.component_id c d in
    let f : has_key c.component_id d ≡ false =
      ground (arith, length-by_id e cs, length-insert c.component_id c d) in
    let (p, q) = by_id-Distinct e cs (ground (arith, length-insert c.component_id c d)) in
    let (r, s) = new-apart c.component_id c d cs q in ((r, p), (f, s))

pub Distinct-by_id :
    (d : Components) (cs : List Component)
    → Distinct (ids cs)
    → AreNew d cs
    → length (by_id d cs) ≡ length d + length cs
unfolding by_id
Distinct-by_id d [] h k = omega arith
Distinct-by_id d (c ∷ cs) h k = ground (
  arith,
  k.0,
  length-insert c.component_id c d,
  Distinct-by_id (insert c.component_id c d) cs h.1 (apart-new c.component_id c d cs h.0 k.1),
)

pub AreNew-nil : (cs : List Component) → AreNew [] cs
unfolding has_key
AreNew-nil [] = tt
AreNew-nil (c ∷ cs) = (refl, AreNew-nil cs)

has_key-keys : (x : String) (d : Components) → has_key x d ≡ contains (keys d) x
unfolding has_key keys contains
has_key-keys x [] = refl
has_key-keys x ((k, c) ∷ d) = ground (arith, eq_iff x k, eq_iff k x, has_key-keys x d)

nil-keep : (p : String → Bool) (xs : List String) → is_nil (keep (λ x. not (p x)) xs) ≡ all p xs
unfolding keep all
nil-keep p [] = refl
nil-keep p (x ∷ xs) = ground (arith, nil-keep p xs)

all-Inside :
    (d : Components) (xs : List String) → (all (λ x. has_key x d) xs ≡ true) ↔ Inside xs (keys d)
unfolding all
all-Inside d [] = (λ h. tt, λ h. refl)
all-Inside d (x ∷ xs) = (
  λ h. (ground (arith, has_key-keys x d), (all-Inside d xs).0 (ground arith)),
  λ h. ground (arith, has_key-keys x d, h.0, (all-Inside d xs).1 h.1),
)

pub known-AreKnown :
    (d : Components) (cs : List Component) → (check_known d cs ≡ ok tt) ↔ AreKnown d cs
unfolding check_known
known-AreKnown d [] = (λ h. tt, λ h. refl)
known-AreKnown d (c ∷ cs) =
    let t = nil-keep (λ x. has_key x d) c.dependencies in
    let (f, g) = all-Inside d c.dependencies in
    (
      λ h. (f (ground (arith, t)), (known-AreKnown d cs).0 (ground (arith, t))),
      λ h. ground (arith, t, g h.0, (known-AreKnown d cs).1 h.1),
    )

-- What holds of each component of the list holds of those in the dict.
pub lookup-by_id {ℓ} :
    (P : Component → Type ℓ) (d : Components) (cs : List Component)
    → All P cs
    → ((id : String) (c : Component) → lookup id d ≡ some c → P c)
    → (id : String) (c : Component) → lookup id (by_id d cs) ≡ some c
    → P c
unfolding by_id
lookup-by_id P d [] h k id c e = k id c e
lookup-by_id P d (x ∷ xs) h k id c e =
    lookup-by_id P (insert x.component_id x d) xs h.1
      (λ i y f. elim (lookup-insert_inv x.component_id i x d f) [
        | inl p ↦ subst P p.1 h.0
        | inr p ↦ k i y p
      ])
      id c e
