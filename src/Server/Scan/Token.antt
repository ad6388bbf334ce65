-- ===== src/Server/Scan/Token.antt =====
-- The page tokens of `ListResources` in internal/server/scan.go: what the server prints, it reads.
use kdelta.Prelude.{
  ℕ, zero, suc, ◌+◌, ◌-◌, ◌*◌, ◌/◌, ◌%◌, ◌≤◌, ◌<◌, true, false, ◌&&◌, [], ◌∷◌, some, ◌≡◌, refl, ap,
  ◌∙◌, inl, inr, ◌==◌, ltb, Bool-cases, arith,
}
use kdelta.Text.{Text, truthy, digits, decimal}
use kdelta.Text.Decimal.{read, read-decimal}
use kdelta.Query.{Codes}
use kdelta.Server.Scan.{digits_value, max_int, atoi, offset_of}

-- A digit in front of digits.
abbrev Digits : Text → Type 0
Digits [] = Unit
Digits (c ∷ t) = (48 ≤ c) × (c < 58) × Digits t

digits-Digits : (fuel n : ℕ) (rest : Text) → Digits rest → Digits (digits fuel n rest)
unfolding digits
digits-Digits zero n rest h = h
digits-Digits (suc fuel) n rest h = elim (Bool-cases (ltb n 10)) [
  | inl small ↦ rw small (omega arith, ground arith, h)
  | inr large ↦
      rw large (digits-Digits fuel (n / 10) ((48 + n % 10) ∷ rest) (omega arith, omega arith, h))
]

digits_value-read : (n : ℕ) (t : Text) → Digits t → digits_value n t ≡ some (read n t)
unfolding digits_value
digits_value-read n [] h = refl
digits_value-read n (c ∷ t) (low, high, h) =
    let inside : (ltb 47 c && ltb c 58) ≡ true = ground arith in
    rw inside (digits_value-read (n * 10 + (c - 48)) t h)

atoi-Digits :
    (c : ℕ) (t : Text)
    → Digits (c ∷ t)
    → read 0 (c ∷ t) ≤ max_int
    → atoi (c ∷ t) ≡ some (false, read 0 (c ∷ t))
unfolding atoi
atoi-Digits c t (low, high, h) fits =
    let inside : (ltb 47 c && ltb c 58) ≡ true = ground arith in
    let not_minus : (c == b'-') ≡ false = ground arith in
    let not_plus : (c == b'+') ≡ false = ground arith in
    let fits' : ltb max_int (read 0 (c ∷ t)) ≡ false = ground arith in
    rw (not_minus, not_plus, inside, digits_value-read (0 * 10 + (c - 48)) t h, fits') refl

-- What the server prints, it reads.
offset_of-Digits :
    (code : Codes) (size : ℕ) (t : Text)
    → size ≤ max_int
    → Digits t
    → truthy t ≡ true
    → read 0 t ≤ size
    → offset_of code t size ≡ inr (read 0 t)
unfolding offset_of
offset_of-Digits code size [] fits h full inside = absurd (ground arith)
offset_of-Digits code size (c ∷ t) fits h full inside =
    let here : ltb size (read 0 (c ∷ t)) ≡ false = ground arith in
    rw (atoi-Digits c t h (omega arith), here) refl

digits_full : (fuel n : ℕ) (rest : Text) → truthy rest ≡ true → truthy (digits fuel n rest) ≡ true
unfolding digits
digits_full zero n rest h = h
digits_full (suc fuel) n rest h = elim (Bool-cases (ltb n 10)) [
  | inl small ↦ rw small refl
  | inr large ↦ rw large (digits_full fuel (n / 10) ((48 + n % 10) ∷ rest) refl)
]

pub decimal_full : (n : ℕ) → truthy (decimal n) ≡ true
unfolding decimal digits
decimal_full n = elim (Bool-cases (ltb n 10)) [
  | inl small ↦ rw small refl
  | inr large ↦ rw large (digits_full n (n / 10) ((48 + n % 10) ∷ []) refl)
]

pub offset_of-decimal :
    (code : Codes) (size n : ℕ)
    → size ≤ max_int
    → n ≤ size
    → offset_of code (decimal n) size ≡ inr n
offset_of-decimal code size n fits inside =
    let h : Digits (decimal n) = unfold decimal in digits-Digits (suc n) n [] tt in
    offset_of-Digits code size (decimal n) fits h (decimal_full n) (rw read-decimal inside)
    ∙ ap inr (read-decimal n)
