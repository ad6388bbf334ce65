-- ===== src/Detect/Counted.antt =====
-- When the count of `Run` agrees: how many registered names a list of names selects.
use mathlib.Core.Bool.{and-eq-true_iff}
use mathlib.Core.Path.{subst}
use kdelta.Prelude.{
  ℕ, ◌+◌, ◌≤◌, Bool, true, false, not, ◌&&◌, List, [], ◌∷◌, ◌≡◌, ◌≢◌, ◌↔◌, refl, sym, ap, ◌∙◌, inl,
  inr, if◌then◌else◌, length, filter, All, Distinct, Bool-cases, arith,
}
use kdelta.Text.{Text, text_eq, text_eq_iff}
use kdelta.Detect.{names_it}

other_text : (s t : Text) → s ≢ t → text_eq s t ≡ false
other_text s t h = elim (Bool-cases (text_eq s t)) [
  | inl same ↦ absurd (h ((text_eq_iff s t).0 same))
  | inr other ↦ other
]

names_it-All : (ts : List Text) (t : Text) → (names_it ts t ≡ false) ↔ All (λ u. t ≢ u) ts
unfolding names_it
names_it-All [] t = ((λ h. tt), λ h. refl)
names_it-All (u ∷ ts) t = elim (Bool-cases (text_eq u t)) [
  | inl same ↦
      let e : t ≡ u = sym ((text_eq_iff u t).0 same) in
      rw same ((λ h. absurd (ground arith)), λ h. absurd (h.0 e))
  | inr other ↦
      let differ : t ≢ u =
        λ e. let same : text_eq u t ≡ true = (text_eq_iff u t).1 (sym e) in absurd (ground arith) in
      rw other ((λ h. (differ, (names_it-All ts t).0 h)), λ h. (names_it-All ts t).1 h.1)
]

not_same : (s t : Text) → text_eq s t ≡ false → s ≢ t
not_same s t h e = let same = (text_eq_iff s t).1 e in absurd (ground arith)

abbrev matches : List Text → List Text → ℕ
matches only names = length (filter (names_it only) names)

abbrev one_if : Bool → ℕ
one_if b = if b then 1 else 0

matches_cons :
    (x : Text) (only names : List Text)
    → Distinct names
    → matches (x ∷ only) names
      ≡ matches only names + one_if (names_it names x && not (names_it only x))
unfolding names_it
matches_cons x only [] h = omega arith
matches_cons x only (y ∷ names) h = elim (Bool-cases (text_eq x y)) [
  | inl same ↦
      let e = (text_eq_iff x y).0 same in
      let back : text_eq y x ≡ true = (text_eq_iff y x).1 (sym e) in
      let absent : names_it names x ≡ false =
        (names_it-All names x).1 (subst (λ t. All (λ u. t ≢ u) names) (sym e) h.0) in
      let rest : matches (x ∷ only) names ≡ matches only names =
        rw absent at (matches_cons x only names h.1) ∙ omega arith in
      let both : names_it only y ≡ names_it only x = ap (names_it only) (sym e) in
      elim (Bool-cases (names_it only x)) [
        | inl old ↦ rw (same, back, both, old) (omega (arith, rest))
        | inr new ↦ rw (same, back, both, new) (omega (arith, rest))
      ]
  | inr other ↦
      let back : text_eq y x ≡ false = other_text y x (λ e. not_same x y other (sym e)) in
      elim (Bool-cases (names_it only y)) [
        | inl old ↦ rw (other, back, old) (omega (arith, matches_cons x only names h.1))
        | inr new ↦ rw (other, back, new) (matches_cons x only names h.1)
      ]
]

one_if_cases : (b : Bool) → (one_if b ≤ 1) × ((one_if b ≡ 1) ↔ (b ≡ true))
one_if_cases true = (omega arith, ((λ h. refl), λ h. refl))
one_if_cases false = (omega arith, ((λ h. absurd (omega arith)), λ h. absurd (ground arith)))

not-eq-true : (b : Bool) → (not b ≡ true) ↔ (b ≡ false)
not-eq-true true = ((λ h. absurd (ground arith)), λ h. absurd (ground arith))
not-eq-true false = ((λ h. refl), λ h. refl)

-- Distinct names that are all registered
abbrev pub Names : List Text → List Text → Type 0
Names names only = Distinct only × All (λ t. names_it names t ≡ true) only

matches_none : (names : List Text) → length (filter (names_it []) names) ≡ 0
unfolding names_it
matches_none [] = refl
matches_none (y ∷ names) = matches_none names

-- A list selects at most as many names as it holds, and as many exactly if it holds only registered
-- names, each once.
pub matches_iff :
    (only names : List Text)
    → Distinct names
    → (length (filter (names_it only) names) ≤ length only)
      × ((length (filter (names_it only) names) ≡ length only) ↔ Names names only)
matches_iff [] names h =
    (rw (matches_none names) (omega arith), ((λ e. (tt, tt)), λ k. matches_none names))
matches_iff (x ∷ only) names h =
    let (most, exact) = matches_iff only names h in
    let fresh = names_it names x && not (names_it only x) in
    let (one, is_one) = one_if_cases fresh in
    let sum = matches_cons x only names h in
    (
      omega arith,
      (
        (λ e.
            let added = (and-eq-true_iff (names_it names x) _).0 (is_one.0 (omega arith)) in
            let (distinct, registered) = exact.0 (omega arith) in
            let new = (names_it-All only x).0 ((not-eq-true _).0 added.1) in
            ((new, distinct), (added.0, registered))),
        λ k.
            let new = (not-eq-true _).1 ((names_it-All only x).1 k.0.0) in
            let added = is_one.1 ((and-eq-true_iff (names_it names x) _).1 (k.1.0, new)) in
            omega (arith, exact.1 (k.0.1, k.1.1)),
      ),
    )
