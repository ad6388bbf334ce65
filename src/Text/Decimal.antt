-- ===== src/Text/Decimal.antt =====
-- The digits of a number, read back.
use kdelta.Prelude.{
  ℕ, zero, suc, ◌+◌, ◌-◌, ◌*◌, ◌/◌, ◌%◌, ◌<◌, [], ◌∷◌, ◌≡◌, ap, ◌∙◌, arith, ltb, Bool-cases, inl,
  inr,
}
use kdelta.Text.{Text, digits, decimal}

-- What a text of digits says, behind digits that say `n`.
abbrev pub read : ℕ → Text → ℕ
read n [] = n
read n (c ∷ t) = read (n * 10 + (c - 48)) t

last_digit : (n : ℕ) → 0 * 10 + ((48 + n) - 48) ≡ n
last_digit n = omega arith

quotient : (n : ℕ) → n / 10 * 10 + ((48 + n % 10) - 48) ≡ n
quotient n = omega arith

read-digits : (fuel n : ℕ) (rest : Text) → n < fuel → read 0 (digits fuel n rest) ≡ read n rest
unfolding digits
read-digits zero n rest h = absurd (omega arith)
read-digits (suc fuel) n rest h = elim (Bool-cases (ltb n 10)) [
  | inl small ↦ rw small (ap (λ k. read k rest) (last_digit n))
  | inr large ↦ rw large (
      read-digits fuel (n / 10) ((48 + n % 10) ∷ rest) (ground arith)
      ∙ ap (λ k. read k rest) (quotient n))
]

-- Every number is read back from its digits.
pub read-decimal : (n : ℕ) → read 0 (decimal n) ≡ n
unfolding decimal
read-decimal n = read-digits (suc n) n [] (omega arith)
