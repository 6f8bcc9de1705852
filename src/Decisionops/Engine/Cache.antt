-- ===== src/Decisionops/Engine/Cache.antt =====
-- platforms/decisionops/engine.py: the size of the cache.
use openmodelops.Base.{
  ℕ, suc, ◌≤◌, String, ◌≡◌, sym, subst, inl, inr, some, [], ◌∷◌, ◌++◌, arith, eq_iff, ltb,
  Bool-cases, ◌==◌, eq_of_nat, eq_of_string, length, length-append, All,
}
use openmodelops.Base.Dict.{Dict, lookup, insert}
use openmodelops.Decisionops.Question.{DecisionOutput}
use openmodelops.Decisionops.Engine.{without_key, drop_oldest}

pub length-drop_oldest :
    (capacity : ℕ) (d : Dict String DecisionOutput) → length (drop_oldest capacity d) ≤ capacity
unfolding drop_oldest
length-drop_oldest capacity [] = omega arith
length-drop_oldest capacity (e ∷ d) = ground (arith, length-drop_oldest capacity d)

length-without_key :
    (key : String) (d : Dict String DecisionOutput) → length (without_key key d) ≤ length d
unfolding without_key
length-without_key key [] = omega arith
length-without_key key ((k, o) ∷ d) = ground (arith, length-without_key key d)

shorter_without :
    (key : String) (d : Dict String DecisionOutput) (o : DecisionOutput)
    → lookup key d ≡ some o
    → suc (length (without_key key d)) ≤ length d
unfolding without_key lookup
shorter_without key [] o h = ground arith
shorter_without key ((k, x) ∷ d) o h = elim (Bool-cases (k == key)) [
  | inl e ↦ ground (arith, length-without_key key d)
  | inr e ↦ ground (arith, shorter_without key d o (ground arith))
]

-- An entry that is moved to the end is not added.
pub length-moved :
    (key : String) (d : Dict String DecisionOutput) (o : DecisionOutput)
    → lookup key d ≡ some o
    → length (without_key key d ++ (key, o) ∷ []) ≤ length d
length-moved key d o h =
    omega (arith, shorter_without key d o h, length-append (without_key key d) ((key, o) ∷ []))

-- A property of all the entries of the cache
abbrev pub Entries : (String → DecisionOutput → Type 0) → Dict String DecisionOutput → Type 0
Entries P d = All (λ (e : String × DecisionOutput). P e.0 e.1) d

module _ (P : String → DecisionOutput → Type 0) where
  pub lookup-Entries :
      (key : String) (d : Dict String DecisionOutput) (o : DecisionOutput)
      → Entries P d
      → lookup key d ≡ some o
      → P key o
  unfolding lookup
  lookup-Entries key [] o h e = absurd (ground arith)
  lookup-Entries key ((k, x) ∷ d) o h e = elim (Bool-cases (k == key)) [
    | inl b ↦
        subst (λ j. P j o) ((eq_iff k key).0 b) (subst (P k) {x = x} {y = o} (ground arith) h.0)
    | inr b ↦ lookup-Entries key d o h.1 (ground arith)
  ]

  pub insert-Entries :
      (key : String) (o : DecisionOutput) (d : Dict String DecisionOutput)
      → P key o
      → Entries P d
      → Entries P (insert key o d)
  unfolding insert
  insert-Entries key o [] p h = (p, tt)
  insert-Entries key o ((k, x) ∷ d) p h = elim (Bool-cases (k == key)) [
    | inl b ↦ rw b (subst (λ j. P j o) (sym ((eq_iff k key).0 b)) p, h.1)
    | inr b ↦ rw b (h.0, insert-Entries key o d p h.1)
  ]

  pub drop-Entries :
      (capacity : ℕ) (d : Dict String DecisionOutput)
      → Entries P d
      → Entries P (drop_oldest capacity d)
  unfolding drop_oldest
  drop-Entries capacity [] h = tt
  drop-Entries capacity (e ∷ d) h = elim (Bool-cases (ltb capacity (suc (length d)))) [
    | inl b ↦ rw b (drop-Entries capacity d h.1)
    | inr b ↦ rw b h
  ]

  pub without-Entries :
      (key : String) (d : Dict String DecisionOutput) → Entries P d → Entries P (without_key key d)
  unfolding without_key
  without-Entries key [] h = tt
  without-Entries key ((k, o) ∷ d) h = elim (Bool-cases (k == key)) [
    | inl b ↦ rw b (without-Entries key d h.1)
    | inr b ↦ rw b (h.0, without-Entries key d h.1)
  ]
