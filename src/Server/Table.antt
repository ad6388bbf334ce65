-- ===== src/Server/Table.antt =====
-- The rows of a table under its primary key: columns of text, and one of a number. The statements
-- are those of SQL that internal/store/store.go sends; the order of the rows does not show.
use mathlib.Core.Bool.{and-eq-true_iff}
use kdelta.Prelude.{
  ℕ, Bool, true, false, ◌&&◌, List, [], ◌∷◌, Option, none, some, ◌≡◌, ◌↔◌, refl, ap, ap₂, ◌∙◌, ◌==◌,
  ltb, if◌then◌else◌, is_some, Bool-cases, inl, inr, arith,
}
use kdelta.Text.{Text, text_eq, text_eq_iff}

abbrev pub Key : Type 0
Key = List Text × ℕ

unfoldable pub texts_eq : List Text → List Text → Bool
texts_eq [] [] = true
texts_eq (a ∷ s) (b ∷ t) = text_eq a b && texts_eq s t
texts_eq _ _ = false

unfoldable pub same_key : Key → Key → Bool
unfolding texts_eq
same_key j k = texts_eq j.0 k.0 && j.1 == k.1

pub texts_eq_iff : (s t : List Text) → (texts_eq s t ≡ true) ↔ (s ≡ t)
unfolding texts_eq
texts_eq_iff [] [] = ((λ h. refl), λ h. refl)
texts_eq_iff (a ∷ s) (b ∷ t) = (
  (λ h.
      let (head, tail) = (and-eq-true_iff (text_eq a b) (texts_eq s t)).0 h in
      ap₂ ◌∷◌ ((text_eq_iff a b).0 head) ((texts_eq_iff s t).0 tail)),
  λ e.
      let heads : a ≡ b = cc in
      let tails : s ≡ t = cc in
      (and-eq-true_iff _ _).1 ((text_eq_iff a b).1 heads, (texts_eq_iff s t).1 tails),
)
texts_eq_iff [] (b ∷ t) = ((λ h. cc), λ e. cc)
texts_eq_iff (a ∷ s) [] = ((λ h. cc), λ e. cc)

pub same_key_iff : (j k : Key) → (same_key j k ≡ true) ↔ (j ≡ k)
unfolding same_key
same_key_iff (s, m) (t, n) = (
  (λ h.
      let (texts, numbers) = (and-eq-true_iff (texts_eq s t) (m == n)).0 h in
      let same : m ≡ n = ground arith in ap₂ (λ x y. (x, y)) ((texts_eq_iff s t).0 texts) same),
  λ e.
      let texts : s ≡ t = ap (λ k. k.0) e in
      let numbers : m ≡ n = ap (λ k. k.1) e in
      (and-eq-true_iff _ _).1 ((texts_eq_iff s t).1 texts, ground arith),
)

same_key_self : (k : Key) → same_key k k ≡ true
same_key_self k = (same_key_iff k k).1 refl

module _ {A : Type 0} where
  -- SELECT … WHERE the key is k
  unfoldable pub select : Key → List (Key × A) → Option A
  select k [] = none
  select k ((j, a) ∷ rows) = if same_key j k then some a else select k rows

  -- INSERT … ON CONFLICT (the key) DO UPDATE
  unfoldable pub upsert : Key → A → List (Key × A) → List (Key × A)
  upsert k a [] = (k, a) ∷ []
  upsert k a ((j, b) ∷ rows) = if same_key j k then (k, a) ∷ rows else (j, b) ∷ upsert k a rows

  -- INSERT, which fails where the key is taken
  unfoldable pub insert : Key → A → List (Key × A) → Option (List (Key × A))
  unfolding select
  insert k a rows = if is_some (select k rows) then none else some ((k, a) ∷ rows)

  -- ORDER BY the number DESC LIMIT 1
  unfoldable pub newer : ℕ × A → Option (ℕ × A) → Option (ℕ × A)
  newer (n, a) none = some (n, a)
  newer (n, a) (some (m, b)) = if ltb n m then some (m, b) else some (n, a)

  unfoldable pub newest : List (ℕ × A) → Option (ℕ × A)
  unfolding newer
  newest [] = none
  newest (row ∷ rows) = newer row (newest rows)

  pub select-upsert_self :
      (k : Key) (a : A) (rows : List (Key × A)) → select k (upsert k a rows) ≡ some a
  unfolding select upsert
  select-upsert_self k a [] = rw (same_key_self k) refl
  select-upsert_self k a ((j, b) ∷ rows) = elim (Bool-cases (same_key j k)) [
    | inl same ↦ rw (same, select, same_key_self k) refl
    | inr other ↦ rw (other, select, other) (select-upsert_self k a rows)
  ]

  select-cons :
      (i k : Key) (b : A) (xs ys : List (Key × A))
      → select k xs ≡ select k ys
      → select k ((i, b) ∷ xs) ≡ select k ((i, b) ∷ ys)
  unfolding select
  select-cons i k b xs ys e = ap (λ o. if same_key i k then some b else o) e

  -- A write under one key leaves what is under the others.
  pub select-upsert_other :
      (j k : Key) (a : A) (rows : List (Key × A))
      → same_key j k ≡ false
      → select k (upsert j a rows) ≡ select k rows
  unfolding select upsert
  select-upsert_other j k a [] other = rw other refl
  select-upsert_other j k a ((i, b) ∷ rows) other = elim (Bool-cases (same_key i j)) [
    | inl same ↦
        let moved : same_key i k ≡ false =
          ap (λ h. same_key h k) ((same_key_iff i j).0 same) ∙ other in
        rw (same, select, other, moved) refl
    | inr different ↦
        rw (different, select) (select-cons i k b _ _ (select-upsert_other j k a rows other))
  ]
