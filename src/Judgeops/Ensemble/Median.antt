-- ===== src/Judgeops/Ensemble/Median.antt =====
-- platforms/judgeops/ensemble.py: what the median is.
use mathlib.Core.List.{Perm}
use mathlib.Core.List.Perm
use openmodelops.Base.{
  ℕ, zero, suc, ◌+◌, ◌-◌, ◌/◌, ◌%◌, ◌≤◌, ◌<◌, ◌≡◌, refl, ap, ◌∙◌, subst, ◌⊎◌, inl, inr, true, false,
  List, [], ◌∷◌, ◌++◌, arith, nat_eq, Bool-cases, eq_of_nat, eq_of_string, length,
}
use openmodelops.Base.Floats.{Float, lt_float, add_float, half_float}
use openmodelops.Judgeops.Ensemble.{place_float, sort_floats, at_index, median}

-- No value is less than the one before it.
unfoldable pub Ascending : List Float → Type 0
Ascending [] = Unit {0}
Ascending (x ∷ []) = Unit {0}
Ascending (x ∷ y ∷ ys) = (lt_float y x ≡ false) × Ascending (y ∷ ys)

-- `x` is the value in the middle, or half the sum of the two in the middle.
abbrev pub IsMiddle : List Float → Float → Type 0
IsMiddle ys x =
    (before : List Float) × (after : List Float) × (length before ≡ length after)
    × ((ys ≡ before ++ x ∷ after)
        ⊎ ((a : Float) × (b : Float) × (ys ≡ before ++ a ∷ b ∷ after)
            × (x ≡ half_float (add_float a b))))

-- The values in ascending order, of which `x` is the middle
pub record IsMedian (xs : List Float) (x : Float) : Type 0 where
  pub ordered : List Float
  pub permuted : Perm xs ordered
  pub ascending : Ascending ordered
  pub middle : IsMiddle ordered x

place_float-Perm : (x : Float) (ys : List Float) → Perm (x ∷ ys) (place_float x ys)
unfolding place_float
place_float-Perm x [] = Perm.refl (x ∷ [])
place_float-Perm x (y ∷ ys) = elim (Bool-cases (lt_float y x)) [
  | inr e ↦ rw e (Perm.refl (x ∷ y ∷ ys))
  | inl e ↦ rw e (Perm.trans (Perm.swap y x ys) (Perm.cons y (place_float-Perm x ys)))
]

sort_floats-Perm : (xs : List Float) → Perm xs (sort_floats xs)
unfolding sort_floats
sort_floats-Perm [] = Perm.refl []
sort_floats-Perm (x ∷ xs) =
    Perm.trans (Perm.cons x (sort_floats-Perm xs)) (place_float-Perm x (sort_floats xs))

lt_float_asym : (a b : Float) → lt_float a b ≡ true → lt_float b a ≡ false
lt_float_asym a b h = ground arith

-- Where a value goes after `y`, it goes to the front of what follows or behind its first value.
place_float-Ascending :
    (x y : Float) (ys : List Float)
    → lt_float x y ≡ false
    → Ascending (y ∷ ys)
    → Ascending (y ∷ place_float x ys)
unfolding place_float Ascending
place_float-Ascending x y [] h a = (h, tt)
place_float-Ascending x y (z ∷ zs) h a = elim (Bool-cases (lt_float z x)) [
  | inr e ↦ rw e (h, (e, a.1))
  | inl e ↦ rw e (a.0, place_float-Ascending x z zs (lt_float_asym z x e) a.1)
]

place-Ascending : (x : Float) (ys : List Float) → Ascending ys → Ascending (place_float x ys)
unfolding place_float Ascending
place-Ascending x [] a = tt
place-Ascending x (y ∷ ys) a = elim (Bool-cases (lt_float y x)) [
  | inr e ↦ rw e (e, a)
  | inl e ↦ rw e (place_float-Ascending x y ys (lt_float_asym y x e) a)
]

sort_floats-Ascending : (xs : List Float) → Ascending (sort_floats xs)
unfolding sort_floats Ascending
sort_floats-Ascending [] = tt
sort_floats-Ascending (x ∷ xs) = place-Ascending x (sort_floats xs) (sort_floats-Ascending xs)

length-place_float : (x : Float) (ys : List Float) → length (place_float x ys) ≡ suc (length ys)
unfolding place_float
length-place_float x [] = refl
length-place_float x (y ∷ ys) = elim (Bool-cases (lt_float y x)) [
  | inr e ↦ rw e refl
  | inl e ↦ rw e (ap suc (length-place_float x ys))
]

length-sort_floats : (xs : List Float) → length (sort_floats xs) ≡ length xs
unfolding sort_floats
length-sort_floats [] = refl
length-sort_floats (x ∷ xs) = length-place_float x (sort_floats xs) ∙ ap suc (length-sort_floats xs)

-- A list around one of its places
split_at :
    (n : ℕ) (ys : List Float)
    → n < length ys
    → (before : List Float) × (after : List Float) × (length before ≡ n)
      × (length ys ≡ n + suc (length after))
      × (ys ≡ before ++ at_index n ys ∷ after)
split_at n [] h = absurd (omega (arith, h))
split_at zero (y ∷ ys) h = ([], ys, refl, omega arith, refl)
split_at (suc n) (y ∷ ys) h =
    let (before, after, l, k, e) = split_at n ys (omega (arith, h)) in
    (y ∷ before, after, ap suc l, omega (arith, k), ap (λ zs. y ∷ zs) e)

-- A list around two of its places
split_two :
    (n : ℕ) (ys : List Float)
    → suc n < length ys
    → (before : List Float) × (after : List Float) × (length before ≡ n)
      × (length ys ≡ n + suc (suc (length after)))
      × (ys ≡ before ++ at_index n ys ∷ at_index (suc n) ys ∷ after)
split_two n [] h = absurd (omega (arith, h))
split_two zero (y ∷ []) h = absurd (omega (arith, h))
split_two zero (y ∷ z ∷ ys) h = ([], ys, refl, omega arith, refl)
split_two (suc n) (y ∷ ys) h =
    let (before, after, l, k, e) = split_two n ys (omega (arith, h)) in
    (y ∷ before, after, ap suc l, omega (arith, k), ap (λ zs. y ∷ zs) e)

one-IsMiddle : (ys : List Float) (n : ℕ) → length ys ≡ n + suc n → IsMiddle ys (at_index n ys)
one-IsMiddle ys n e =
    let (before, after, l, k, s) = split_at n ys (omega (arith, e)) in
    (before, after, omega (arith, l, k, e), inl s)

two-IsMiddle :
    (ys : List Float) (n : ℕ)
    → length ys ≡ n + suc (suc n)
    → IsMiddle ys (half_float (add_float (at_index n ys) (at_index (suc n) ys)))
two-IsMiddle ys n e =
    let (before, after, l, k, s) = split_two n ys (omega (arith, e)) in
    (before, after, omega (arith, l, k, e), inr (at_index n ys, at_index (suc n) ys, s, refl))

median-IsMiddle : (xs : List Float) → 1 ≤ length xs → IsMiddle (sort_floats xs) (median xs)
unfolding median
median-IsMiddle xs h = elim (Bool-cases (nat_eq (length xs % 2) 1)) [
  | inl e ↦
      rw e
        (one-IsMiddle (sort_floats xs) (length xs / 2) (ground (arith, e, length-sort_floats xs)))
  | inr e ↦ rw e (
      subst
        (λ n. IsMiddle (sort_floats xs) (
          half_float (
            add_float (at_index (length xs / 2 - 1) (sort_floats xs))
              (at_index n (sort_floats xs)))))
        (ground (arith, e, h))
        (two-IsMiddle (sort_floats xs) (length xs / 2 - 1)
          (ground (arith, e, h, length-sort_floats xs))))
]

pub median-IsMedian : (xs : List Float) → 1 ≤ length xs → IsMedian xs (median xs)
median-IsMedian xs h = record {
  ordered = sort_floats xs;
  permuted = sort_floats-Perm xs;
  ascending = sort_floats-Ascending xs;
  middle = median-IsMiddle xs h;
}
