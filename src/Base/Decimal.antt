-- ===== src/Base/Decimal.antt =====
-- `str` of a number and `int` of the digits that it wrote.
use Prim.Native.Char.{Char, code}
use openmodelops.Base.{
  ℕ, zero, suc, ◌+◌, ◌-◌, ◌*◌, ◌/◌, ◌%◌, ◌<◌, String, ◌≡◌, refl, ap, List, [], ◌∷◌, arith, ltb,
  if◌then◌else◌, Bool-cases, inl, inr, codes, ◌∙◌,
}

abbrev pub digit : ℕ → Char
digit zero = "0"
digit (suc zero) = "1"
digit (suc (suc zero)) = "2"
digit (suc (suc (suc zero))) = "3"
digit (suc (suc (suc (suc zero)))) = "4"
digit (suc (suc (suc (suc (suc zero))))) = "5"
digit (suc (suc (suc (suc (suc (suc zero)))))) = "6"
digit (suc (suc (suc (suc (suc (suc (suc zero))))))) = "7"
digit (suc (suc (suc (suc (suc (suc (suc (suc zero)))))))) = "8"
digit n = "9"

-- The digits of `n` before the text `s`.
unfoldable pub write : ℕ → ℕ → String → String
write zero n s = s
write (suc fuel) n s =
    let rest = write fuel (n / 10) (String.◌∷◌ (digit (n % 10)) s) in
    if ltb n 10 then String.◌∷◌ (digit n) s else rest

-- `str(n)`; a number has no more digits than its value and one.
unfoldable pub decimal : ℕ → String
unfolding write
decimal n = write (suc n) n ""

unfoldable pub read : ℕ → List ℕ → ℕ
read acc [] = acc
read acc (c ∷ cs) = read (acc * 10 + (c - b'0')) cs

-- `int(s)` of a text of digits
unfoldable pub parse_decimal : String → ℕ
unfolding read
parse_decimal s = read 0 (codes s)

code-digit : (n : ℕ) → n < 10 → code (digit n) - b'0' ≡ n
code-digit zero h = refl
code-digit (suc zero) h = refl
code-digit (suc (suc zero)) h = refl
code-digit (suc (suc (suc zero))) h = refl
code-digit (suc (suc (suc (suc zero)))) h = refl
code-digit (suc (suc (suc (suc (suc zero))))) h = refl
code-digit (suc (suc (suc (suc (suc (suc zero)))))) h = refl
code-digit (suc (suc (suc (suc (suc (suc (suc zero))))))) h = refl
code-digit (suc (suc (suc (suc (suc (suc (suc (suc zero)))))))) h = refl
code-digit (suc (suc (suc (suc (suc (suc (suc (suc (suc zero))))))))) h = refl
code-digit (suc (suc (suc (suc (suc (suc (suc (suc (suc (suc n)))))))))) h = absurd (omega arith)

read-write :
    (fuel n : ℕ) (s : String) → n < fuel → read 0 (codes (write fuel n s)) ≡ read n (codes s)
unfolding write read codes
read-write zero n s h = absurd (omega arith)
read-write (suc fuel) n s h = elim (Bool-cases (ltb n 10)) [
  | inl e ↦ rw (write, e) (ap (λ k. read k (codes s)) (omega (arith, code-digit n (ground arith))))
  | inr e ↦
      rw (write, e)
        (read-write fuel (n / 10) (String.◌∷◌ (digit (n % 10)) s) (ground arith)
          ∙ ap (λ k. read k (codes s)) (omega (arith, code-digit (n % 10) (omega arith))))
]

-- `int(str(n)) == n`
pub parse-decimal : (n : ℕ) → parse_decimal (decimal n) ≡ n
unfolding parse_decimal decimal read codes
parse-decimal n = read-write (suc n) n "" (omega arith)
