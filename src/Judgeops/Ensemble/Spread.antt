-- ===== src/Judgeops/Ensemble/Spread.antt =====
-- platforms/judgeops/ensemble.py: what the spread of scores is.
use mathlib.Core.Logic.Or
use mathlib.Core.List.{Mem-prop, Mem, mem-cons, mem-cons_self, mem-cons_of_mem}
use openmodelops.Base.{
  ◌≤◌, ◌≡◌, refl, sym, ap, ◌∙◌, subst, inl, inr, Bool, true, false, false≢true, List, [], ◌∷◌,
  arith, if◌then◌else◌, Bool-cases, eq_of_nat, eq_of_string, length, All,
}
use openmodelops.Base.Floats.{Float, nan, neg_inf, pos_inf, fin, lt_float, sub_float}
use openmodelops.Judgeops.Ensemble.{max_float, min_float, spread}

abbrev pub is_nan : Float → Bool
is_nan nan = true
is_nan _ = false

pub lt_float_trans :
    (a b c : Float) → lt_float a b ≡ true → lt_float b c ≡ true → lt_float a c ≡ true
lt_float_trans a b c h k = ground arith

pub lt_float_below :
    (a b c : Float)
    → is_nan b ≡ false
    → lt_float a c ≡ true
    → lt_float b c ≡ false
    → lt_float a b ≡ true
lt_float_below a b c n h k = ground arith

-- `s` is the difference of the greatest and the least of the values.
pub record IsSpread (xs : List Float) (s : Float) : Type 0 where
  pub greatest : Float
  pub least : Float
  pub greatest_among : Mem greatest xs
  pub least_among : Mem least xs
  pub none_greater : All (λ y. lt_float greatest y ≡ false) xs
  pub none_less : All (λ y. lt_float y least ≡ false) xs
  pub difference : s ≡ sub_float greatest least

skipped : (r best x : Float) (xs : List Float) → Mem r (best ∷ xs) → Mem r (best ∷ x ∷ xs)
skipped r best x xs m =
    Or.elim Mem-prop (mem-cons.0 m) (λ e. mem-cons.1 (Or.inl e))
      (λ k. mem-cons_of_mem best (mem-cons_of_mem x k))

max_float-Mem : (best : Float) (xs : List Float) → Mem (max_float best xs) (best ∷ xs)
unfolding max_float
max_float-Mem best [] = mem-cons_self
max_float-Mem best (x ∷ xs) = elim (Bool-cases (lt_float best x)) [
  | inl e ↦ rw e (mem-cons_of_mem best (max_float-Mem x xs))
  | inr e ↦ rw e (skipped _ best x xs (max_float-Mem best xs))
]

min_float-Mem : (best : Float) (xs : List Float) → Mem (min_float best xs) (best ∷ xs)
unfolding min_float
min_float-Mem best [] = mem-cons_self
min_float-Mem best (x ∷ xs) = elim (Bool-cases (lt_float x best)) [
  | inl e ↦ rw e (mem-cons_of_mem best (min_float-Mem x xs))
  | inr e ↦ rw e (skipped _ best x xs (min_float-Mem best xs))
]

max_float-nan : (xs : List Float) → max_float nan xs ≡ nan
unfolding max_float
max_float-nan [] = refl
max_float-nan (x ∷ xs) = max_float-nan xs

min_float-nan : (xs : List Float) → min_float nan xs ≡ nan
unfolding min_float
min_float-nan [] = refl
min_float-nan (nan ∷ xs) = min_float-nan xs
min_float-nan (neg_inf ∷ xs) = min_float-nan xs
min_float-nan (pos_inf ∷ xs) = min_float-nan xs
min_float-nan (fin x ∷ xs) = min_float-nan xs

lt_float_asym : (a b : Float) → lt_float a b ≡ true → lt_float b a ≡ false
lt_float_asym a b h = ground arith

nan_only : (x : Float) → is_nan x ≡ true → x ≡ nan
nan_only nan h = refl
nan_only neg_inf h = ground arith
nan_only pos_inf h = ground arith
nan_only (fin n) h = ground arith

max_of_nan : (x : Float) (xs : List Float) → is_nan x ≡ true → max_float x xs ≡ nan
max_of_nan x xs h = ap (λ y. max_float y xs) (nan_only x h) ∙ max_float-nan xs

min_of_nan : (x : Float) (xs : List Float) → is_nan x ≡ true → min_float x xs ≡ nan
min_of_nan x xs h = ap (λ y. min_float y xs) (nan_only x h) ∙ min_float-nan xs

-- What is not above the best so far is not above a result that is not below that best.
not_above :
    (best x r : Float)
    → lt_float best x ≡ false
    → lt_float r best ≡ false
    → (is_nan best ≡ true → r ≡ nan)
    → lt_float r x ≡ false
not_above best x r h k n = elim (Bool-cases (is_nan best)) [
  | inl t ↦ subst (λ y. lt_float y x ≡ false) (sym (n t)) (ground arith)
  | inr f ↦ elim (Bool-cases (lt_float r x)) [
    | inl e ↦ absurd (false≢true (sym k ∙ lt_float_below r best x f e h))
    | inr e ↦ e
  ]
]

not_below :
    (best x r : Float)
    → lt_float x best ≡ false
    → lt_float best r ≡ false
    → (is_nan best ≡ true → r ≡ nan)
    → lt_float x r ≡ false
not_below best x r h k n = elim (Bool-cases (is_nan best)) [
  | inl t ↦ subst (λ y. lt_float x y ≡ false) (sym (n t)) (ground arith)
  | inr f ↦ elim (Bool-cases (lt_float x r)) [
    | inl e ↦ absurd (false≢true (sym h ∙ lt_float_below x best r f e k))
    | inr e ↦ e
  ]
]

-- The best of the first two goes on.
max_float_next :
    (best x b : Float) (xs : List Float)
    → (if lt_float best x then x else best) ≡ b
    → max_float best (x ∷ xs) ≡ max_float b xs
unfolding max_float
max_float_next best x b xs e = ap (λ y. max_float y xs) e

min_float_next :
    (best x b : Float) (xs : List Float)
    → (if lt_float x best then x else best) ≡ b
    → min_float best (x ∷ xs) ≡ min_float b xs
unfolding min_float
min_float_next best x b xs e = ap (λ y. min_float y xs) e

abbrev NoneGreater : List Float → Float → Type 0
NoneGreater xs m = All (λ y. lt_float m y ≡ false) xs

abbrev NoneLess : List Float → Float → Type 0
NoneLess xs m = All (λ y. lt_float y m ≡ false) xs

max_float-NoneGreater :
    (best : Float) (xs : List Float) → NoneGreater (best ∷ xs) (max_float best xs)
unfolding max_float
max_float-NoneGreater best [] = (ground arith, tt)
max_float-NoneGreater best (x ∷ xs) = elim (Bool-cases (lt_float best x)) [
  | inl e ↦
      let (h, hs) = max_float-NoneGreater x xs in
      subst (NoneGreater (best ∷ x ∷ xs)) (sym (max_float_next best x x xs (rw e refl)))
        (not_above x best (max_float x xs) (lt_float_asym best x e) h (max_of_nan x xs), (h, hs))
  | inr e ↦
      let (h, hs) = max_float-NoneGreater best xs in
      subst (NoneGreater (best ∷ x ∷ xs)) (sym (max_float_next best x best xs (rw e refl)))
        (h, (not_above best x (max_float best xs) e h (max_of_nan best xs), hs))
]

min_float-NoneLess : (best : Float) (xs : List Float) → NoneLess (best ∷ xs) (min_float best xs)
unfolding min_float
min_float-NoneLess best [] = (ground arith, tt)
min_float-NoneLess best (x ∷ xs) = elim (Bool-cases (lt_float x best)) [
  | inl e ↦
      let (h, hs) = min_float-NoneLess x xs in
      subst (NoneLess (best ∷ x ∷ xs)) (sym (min_float_next best x x xs (rw e refl)))
        (not_below x best (min_float x xs) (lt_float_asym x best e) h (min_of_nan x xs), (h, hs))
  | inr e ↦
      let (h, hs) = min_float-NoneLess best xs in
      subst (NoneLess (best ∷ x ∷ xs)) (sym (min_float_next best x best xs (rw e refl)))
        (h, (not_below best x (min_float best xs) e h (min_of_nan best xs), hs))
]

pub spread-IsSpread : (xs : List Float) → 1 ≤ length xs → IsSpread xs (spread xs)
spread-IsSpread [] h = absurd (omega (arith, h))
spread-IsSpread (x ∷ xs) h = record {
  greatest = max_float x xs;
  least = min_float x xs;
  greatest_among = max_float-Mem x xs;
  least_among = min_float-Mem x xs;
  none_greater = max_float-NoneGreater x xs;
  none_less = min_float-NoneLess x xs;
  difference = refl;
}
