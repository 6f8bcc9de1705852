-- ===== src/Base/Floats.antt =====
-- Python's `float`. Every finite double is a whole number of units of 2 ^ -1074, so `fin` counts
-- those; the order is that of the language, in which a comparison with NaN is false.
use Prim.Native.Nat.{ℕ, zero, suc, ◌+◌, ◌-◌, ◌*◌, ◌/◌, ◌%◌, ◌^◌}
use mathlib.Core.Path.{◌≡◌, refl}
use mathlib.Core.Bool.{Bool, true, false, ◌&&◌, ◌||◌}
use openmodelops.Base.Tests.{ltb, nat_eq, if◌then◌else◌}

-- `negsuc n` is -(n + 1).
pub data ℤ : Type 0 where
  pos : ℕ → ℤ
  negsuc : ℕ → ℤ

abbrev pub ltb_ℤ : ℤ → ℤ → Bool
ltb_ℤ (pos a) (pos b) = ltb a b
ltb_ℤ (pos a) (negsuc b) = false
ltb_ℤ (negsuc a) (pos b) = true
ltb_ℤ (negsuc a) (negsuc b) = ltb b a

pub data Float : Type 0 where
  nan neg_inf pos_inf : Float
  fin : ℤ → Float

-- `x < y`
abbrev pub lt_float : Float → Float → Bool
lt_float nan y = false
lt_float neg_inf nan = false
lt_float neg_inf neg_inf = false
lt_float neg_inf pos_inf = true
lt_float neg_inf (fin b) = true
lt_float pos_inf y = false
lt_float (fin a) nan = false
lt_float (fin a) neg_inf = false
lt_float (fin a) pos_inf = true
lt_float (fin a) (fin b) = ltb_ℤ a b

-- `x <= y`
abbrev pub le_float : Float → Float → Bool
le_float nan y = false
le_float x nan = false
le_float x y = elim (lt_float y x) [ true ↦ false | false ↦ true ]

-- The double `m * 2 ^ (e - 1074)`; the constants of the source are written so, exactly.
abbrev pub double : ℕ → ℕ → Float
double m e = fin (pos (m * 2 ^ e))

abbrev pub negate_ℤ : ℤ → ℤ
negate_ℤ (pos zero) = pos zero
negate_ℤ (pos (suc n)) = negsuc n
negate_ℤ (negsuc n) = pos (suc n)

-- `m - n`
abbrev pub minus_ℕ : ℕ → ℕ → ℤ
minus_ℕ m n = if ltb m n then negsuc (n - m - 1) else pos (m - n)

abbrev pub add_ℤ : ℤ → ℤ → ℤ
add_ℤ (pos m) (pos n) = pos (m + n)
add_ℤ (pos m) (negsuc n) = minus_ℕ m (suc n)
add_ℤ (negsuc m) (pos n) = minus_ℕ n (suc m)
add_ℤ (negsuc m) (negsuc n) = negsuc (suc (m + n))

-- The number of binary digits of a number that has no more of them than the fuel.
unfoldable pub bit_length : ℕ → ℕ → ℕ
bit_length zero n = 0
bit_length (suc fuel) n = elim (nat_eq n 0) [ true ↦ 0 | false ↦ suc (bit_length fuel (n / 2)) ]

abbrev pub rounds_up : ℕ → ℕ → ℕ → Bool
rounds_up quotient remainder divisor =
    ltb divisor (2 * remainder) || (nat_eq divisor (2 * remainder) && nat_eq (quotient % 2) 1)

-- The quotient to 53 binary digits, to the nearest and of two to the even one. A sum of two finite
-- doubles is below 2 ^ 2100 units.
unfoldable pub round_ratio : ℕ → ℕ → ℕ
unfolding bit_length
round_ratio numerator denominator =
    let unit = 2 ^ (bit_length 2100 (numerator / denominator) - 53) in
    let divisor = denominator * unit in
    let quotient = numerator / divisor in
    if rounds_up quotient (numerator % divisor) divisor
    then suc quotient * unit
    else quotient * unit

-- `numerator / denominator` units with a sign, where the greatest double ends below 2 ^ 2098 units
unfoldable pub signed_ratio : ℤ → ℕ → Float
unfolding round_ratio
signed_ratio (pos n) d =
    let r = round_ratio n d in if ltb r (2 ^ 2098) then fin (pos r) else pos_inf
signed_ratio (negsuc n) d =
    let r = round_ratio (suc n) d in if ltb r (2 ^ 2098) then fin (negate_ℤ (pos r)) else neg_inf

-- `x + y`
abbrev pub add_float : Float → Float → Float
add_float nan y = nan
add_float neg_inf nan = nan
add_float neg_inf pos_inf = nan
add_float neg_inf y = neg_inf
add_float pos_inf nan = nan
add_float pos_inf neg_inf = nan
add_float pos_inf y = pos_inf
add_float (fin a) nan = nan
add_float (fin a) neg_inf = neg_inf
add_float (fin a) pos_inf = pos_inf
add_float (fin a) (fin b) = signed_ratio (add_ℤ a b) 1

abbrev pub negate_float : Float → Float
negate_float nan = nan
negate_float neg_inf = pos_inf
negate_float pos_inf = neg_inf
negate_float (fin a) = fin (negate_ℤ a)

-- `x - y`
abbrev pub sub_float : Float → Float → Float
sub_float x y = add_float x (negate_float y)

-- `x / 2`
abbrev pub half_float : Float → Float
half_float (fin a) = signed_ratio a 2
half_float x = x

tenth_and_fifth :
    add_float (double 7205759403792794 1018) (double 7205759403792794 1019)
    ≡ double 5404319552844596 1020
unfolding signed_ratio round_ratio bit_length
tenth_and_fifth = refl

abbrev pub scaled : ℤ → ℕ → ℤ
scaled (pos n) k = pos (n * k)
scaled (negsuc n) k = negate_ℤ (pos (suc n * k))

-- `x / y` of finite doubles, where `y` is greater than zero
abbrev pub div_float : Float → Float → Float
div_float (fin a) (fin (pos b)) = signed_ratio (scaled a (2 ^ 1074)) b
div_float x y = nan

-- `m / n` of whole numbers, where `n` is greater than zero
abbrev pub div_whole : ℕ → ℕ → Float
div_whole m n = signed_ratio (pos (m * 2 ^ 1074)) n

-- `x * n` of a finite double and a whole number
abbrev pub times_whole : Float → ℕ → Float
times_whole (fin a) n = signed_ratio (scaled a n) 1
times_whole x n = nan

-- `float(n)` of a whole number below 2 ^ 53
abbrev pub whole_float : ℕ → Float
whole_float n = fin (pos (n * 2 ^ 1074))

one_third : div_whole 1 3 ≡ double 6004799503160661 1020
unfolding signed_ratio round_ratio bit_length
one_third = refl
