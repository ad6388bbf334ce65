-- ===== src/Text/Split.antt =====
-- What `split` and `indexOf` find at the first separator.
use kdelta.Prelude.{
  ℕ, zero, suc, ◌≡◌, refl, ◌≢◌, List, [], ◌∷◌, ◌++◌, none, some, arith, ◌==◌, take, drop, All, ap,
  length, inl, inr, Bool-cases, ==_iff, ==_self, sym, ap₂,
}
use kdelta.Text.{Text, index_of, split_off, split, join}

-- No code unit of the text is `sep`.
abbrev pub Lacks : ℕ → Text → Type 0
Lacks sep = All (λ a. a ≢ sep)

module _ (sep : ℕ) where
  pub split_off_whole : (s : Text) → Lacks sep s → split_off sep s ≡ (s, [])
  unfolding split_off
  split_off_whole [] h = refl
  split_off_whole (a ∷ s) h = ground (arith, split_off_whole s h.1)

  pub split_off-append :
      (s t : Text) → Lacks sep s → split_off sep (s ++ (sep ∷ t)) ≡ (s, split sep t)
  unfolding split_off split
  split_off-append [] t h = rw (==_self sep)
  split_off-append (a ∷ s) t h = ground (arith, split_off-append s t h.1)

  pub split_off-Lacks :
      (s : Text) → Lacks sep (split_off sep s).0 × All (Lacks sep) (split_off sep s).1
  unfolding split_off
  split_off-Lacks [] = (tt, tt)
  split_off-Lacks (a ∷ s) = elim (Bool-cases (a == sep)) [
    | inl same ↦ rw same (tt, split_off-Lacks s)
    | inr other ↦ rw other ((ground arith, (split_off-Lacks s).0), (split_off-Lacks s).1)
  ]

  pub index_of_whole : (s : Text) → Lacks sep s → index_of sep s ≡ none
  unfolding index_of
  index_of_whole [] h = refl
  index_of_whole (a ∷ s) h = ground (arith, index_of_whole s h.1)

  pub index_of-append : (s t : Text) → Lacks sep s → index_of sep (s ++ (sep ∷ t)) ≡ some (length s)
  unfolding index_of
  index_of-append [] t h = rw (==_self sep)
  index_of-append (a ∷ s) t h = ground (arith, index_of-append s t h.1)

  pub index_of_missing : (s : Text) → index_of sep s ≡ none → Lacks sep s
  unfolding index_of
  index_of_missing [] h = tt
  index_of_missing (a ∷ s) h = ground (arith, index_of_missing s)

  -- The text is the part before the separator found, the separator, and the part after it.
  pub index_of_found :
      (s : Text) (i : ℕ)
      → index_of sep s ≡ some i
      → Lacks sep (take i s) × (s ≡ take i s ++ (sep ∷ drop (suc i) s))
  unfolding index_of
  index_of_found [] i h = cc
  index_of_found (a ∷ s) zero h = (tt, ground arith)
  index_of_found (a ∷ s) (suc i) h = ground (arith, index_of_found s i)

  join_cons :
      (a : ℕ) (p : Text) (ps : List Text)
      → join (sep ∷ []) ((a ∷ p) ∷ ps) ≡ a ∷ join (sep ∷ []) (p ∷ ps)
  unfolding join
  join_cons a p [] = refl
  join_cons a p (q ∷ ps) = refl

  join_sep :
      (p : Text) (ps : List Text) → join (sep ∷ []) ([] ∷ p ∷ ps) ≡ sep ∷ join (sep ∷ []) (p ∷ ps)
  unfolding join
  join_sep p ps = refl

  pub join-split : (s : Text) → join (sep ∷ []) (split sep s) ≡ s
  unfolding split split_off
  join-split [] = unfold join in refl
  join-split (a ∷ s) = elim (Bool-cases (a == sep)) [
    | inl same ↦ rw (same, join_sep) (ap₂ ◌∷◌ (sym ((==_iff a sep).0 same)) (join-split s))
    | inr other ↦ rw (other, join_cons) (ap (a ∷◌) (join-split s))
  ]

module _ {ℓ κ} {A : Type ℓ} (P : A → Type κ) where
  pub All-take : (n : ℕ) (xs : List A) → All P xs → All P (take n xs)
  All-take zero xs h = tt
  All-take (suc n) [] h = tt
  All-take (suc n) (x ∷ xs) h = (h.0, All-take n xs h.1)

  pub All-drop : (n : ℕ) (xs : List A) → All P xs → All P (drop n xs)
  All-drop zero xs h = h
  All-drop (suc n) [] h = tt
  All-drop (suc n) (x ∷ xs) h = All-drop n xs h.1

module _ {ℓ} {A : Type ℓ} where
  pub take-append : (xs ys : List A) → take (length xs) (xs ++ ys) ≡ xs
  take-append [] ys = refl
  take-append (x ∷ xs) ys = ap (x ∷◌) (take-append xs ys)

  pub drop-append : (xs ys : List A) (y : A) → drop (suc (length xs)) (xs ++ (y ∷ ys)) ≡ ys
  drop-append [] ys y = refl
  drop-append (x ∷ xs) ys y = drop-append xs ys y
