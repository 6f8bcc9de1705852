-- ===== src/Banking/Score/Points.antt =====
-- platforms/banking/domain.py: the decisions are those of the whole percentages.
use openmodelops.Base.{
  ℕ, ◌+◌, ◌≡◌, refl, Bool, true, false, not, leb, if◌then◌else◌, eq_of_nat, eq_of_string,
}
use openmodelops.Base.Floats.{signed_ratio, round_ratio, bit_length}
use openmodelops.Banking.Score.{
  Transaction, Decision, approve, review, decline, is_ecommerce, sum_of, is_high, is_fast,
  is_failing, at_most_one, score, decision_for,
}

-- The percentages of the rules, added without rounding
abbrev pub percent_if : Bool → ℕ → ℕ
percent_if true n = n
percent_if false n = 0

abbrev pub points : Transaction → ℕ
points t =
    2
    + percent_if (is_high t) 28
    + percent_if t.international 18
    + percent_if (not t.device_trusted) 24
    + percent_if (is_fast t) 25
    + percent_if (is_failing t) 25
    + percent_if (is_ecommerce t.channel) 4

abbrev pub decision_of_points : ℕ → Decision
decision_of_points n = if leb 70 n then decline else if leb 35 n then review else approve

rounding_harmless :
    (h i u v a o : Bool)
    → decision_for (at_most_one (sum_of h i u v a o))
      ≡ decision_of_points (
          2
          + percent_if h 28
          + percent_if i 18
          + percent_if u 24
          + percent_if v 25
          + percent_if a 25
          + percent_if o 4)
unfolding decision_for signed_ratio round_ratio bit_length
rounding_harmless true true true true true true = refl
rounding_harmless true true true true true false = refl
rounding_harmless true true true true false true = refl
rounding_harmless true true true true false false = refl
rounding_harmless true true true false true true = refl
rounding_harmless true true true false true false = refl
rounding_harmless true true true false false true = refl
rounding_harmless true true true false false false = refl
rounding_harmless true true false true true true = refl
rounding_harmless true true false true true false = refl
rounding_harmless true true false true false true = refl
rounding_harmless true true false true false false = refl
rounding_harmless true true false false true true = refl
rounding_harmless true true false false true false = refl
rounding_harmless true true false false false true = refl
rounding_harmless true true false false false false = refl
rounding_harmless true false true true true true = refl
rounding_harmless true false true true true false = refl
rounding_harmless true false true true false true = refl
rounding_harmless true false true true false false = refl
rounding_harmless true false true false true true = refl
rounding_harmless true false true false true false = refl
rounding_harmless true false true false false true = refl
rounding_harmless true false true false false false = refl
rounding_harmless true false false true true true = refl
rounding_harmless true false false true true false = refl
rounding_harmless true false false true false true = refl
rounding_harmless true false false true false false = refl
rounding_harmless true false false false true true = refl
rounding_harmless true false false false true false = refl
rounding_harmless true false false false false true = refl
rounding_harmless true false false false false false = refl
rounding_harmless false true true true true true = refl
rounding_harmless false true true true true false = refl
rounding_harmless false true true true false true = refl
rounding_harmless false true true true false false = refl
rounding_harmless false true true false true true = refl
rounding_harmless false true true false true false = refl
rounding_harmless false true true false false true = refl
rounding_harmless false true true false false false = refl
rounding_harmless false true false true true true = refl
rounding_harmless false true false true true false = refl
rounding_harmless false true false true false true = refl
rounding_harmless false true false true false false = refl
rounding_harmless false true false false true true = refl
rounding_harmless false true false false true false = refl
rounding_harmless false true false false false true = refl
rounding_harmless false true false false false false = refl
rounding_harmless false false true true true true = refl
rounding_harmless false false true true true false = refl
rounding_harmless false false true true false true = refl
rounding_harmless false false true true false false = refl
rounding_harmless false false true false true true = refl
rounding_harmless false false true false true false = refl
rounding_harmless false false true false false true = refl
rounding_harmless false false true false false false = refl
rounding_harmless false false false true true true = refl
rounding_harmless false false false true true false = refl
rounding_harmless false false false true false true = refl
rounding_harmless false false false true false false = refl
rounding_harmless false false false false true true = refl
rounding_harmless false false false false true false = refl
rounding_harmless false false false false false true = refl
rounding_harmless false false false false false false = refl

-- The rounding of the doubles never changes a decision: a transaction is declined if the whole
-- percentages of the rules that it meets add up to 70 or more, reviewed from 35 on, and approved below
-- that, sums of exactly 70 or 35 included.
pub decision_exact :
    (t : Transaction) → decision_for (score t).score ≡ decision_of_points (points t)
unfolding score
decision_exact t =
    rounding_harmless (is_high t) t.international (not t.device_trusted) (is_fast t) (is_failing t)
      (is_ecommerce t.channel)
