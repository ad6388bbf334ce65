-- ===== src/Prelude/Membership.antt =====
-- Membership, and properties of all elements.
use mathlib.Core.Path.{◌≡◌, refl, sym}
use mathlib.Core.Logic.{◌⊎◌, inl, inr, ◌≢◌}
use mathlib.Core.Bool.{Bool, true, false}
use mathlib.Core.List.{List, [], ◌∷◌, map}
use kdelta.Prelude.Tests.{if◌then◌else◌}
use kdelta.Prelude.Lists.{All}

module _ {A : Type 0} where
  -- `x` stands in the list.
  abbrev pub In : A → List A → Type 0
  In x [] = ⊥
  In x (y ∷ ys) = (x ≡ y) ⊎ In x ys

module _ {A : Type 0} (P : A → Type 0) where
  pub All-of_In : (xs : List A) → ((x : A) → In x xs → P x) → All P xs
  All-of_In [] h = tt
  All-of_In (x ∷ xs) h = (h x (inl refl), All-of_In xs (λ y k. h y (inr k)))

  pub All-In : (xs : List A) (x : A) → All P xs → In x xs → P x
  All-In [] x h k = absurd k
  All-In (y ∷ ys) x h (inl e) = rw e h.0
  All-In (y ∷ ys) x h (inr k) = All-In ys x h.1 k

  pub All-map :
      {B : Type 0} (f : B → A) (xs : List B) → ((x : B) → In x xs → P (f x)) → All P (map f xs)
  All-map f [] h = tt
  All-map f (x ∷ xs) h = (h x (inl refl), All-map f xs (λ y k. h y (inr k)))

  pub All-if : (b : Bool) (xs : List A) → (b ≡ false → All P xs) → All P (if b then [] else xs)
  All-if true xs h = tt
  All-if false xs h = h refl

-- The elements differ from one another.
abbrev pub Distinct : {A : Type 0} → List A → Type 0
Distinct [] = Unit
Distinct (x ∷ xs) = All (λ y. x ≢ y) xs × Distinct xs

-- The same elements in some order
pub data Shuffled {A : Type 0} : List A → List A → Type 0 where
  done : Shuffled [] []
  skip : (x : A) {xs ys : List A} → Shuffled xs ys → Shuffled (x ∷ xs) (x ∷ ys)
  swap : (x y : A) {xs ys : List A} → Shuffled xs ys → Shuffled (x ∷ y ∷ xs) (y ∷ x ∷ ys)
  chain : {xs ys zs : List A} → Shuffled xs ys → Shuffled ys zs → Shuffled xs zs

module _ {A : Type 0} where
  pub All-Shuffled : (P : A → Type 0) {xs ys : List A} → Shuffled xs ys → All P xs → All P ys
  All-Shuffled P done h = tt
  All-Shuffled P (skip x s) h = (h.0, All-Shuffled P s h.1)
  All-Shuffled P (swap x y s) h = (h.1.0, (h.0, All-Shuffled P s h.1.1))
  All-Shuffled P (chain s t) h = All-Shuffled P t (All-Shuffled P s h)

  pub In-Shuffled : (a : A) {xs ys : List A} → Shuffled xs ys → In a xs → In a ys
  In-Shuffled a done h = h
  In-Shuffled a (skip x s) (inl e) = inl e
  In-Shuffled a (skip x s) (inr h) = inr (In-Shuffled a s h)
  In-Shuffled a (swap x y s) (inl e) = inr (inl e)
  In-Shuffled a (swap x y s) (inr (inl e)) = inl e
  In-Shuffled a (swap x y s) (inr (inr h)) = inr (inr (In-Shuffled a s h))
  In-Shuffled a (chain s t) h = In-Shuffled a t (In-Shuffled a s h)

  pub Distinct-Shuffled : {xs ys : List A} → Shuffled xs ys → Distinct xs → Distinct ys
  Distinct-Shuffled done h = tt
  Distinct-Shuffled (skip x s) h = (All-Shuffled (λ y. x ≢ y) s h.0, Distinct-Shuffled s h.1)
  Distinct-Shuffled (swap x y s) h = (
    ((λ e. h.0.0 (sym e)), All-Shuffled (λ z. y ≢ z) s h.1.0),
    (All-Shuffled (λ z. x ≢ z) s h.0.1, Distinct-Shuffled s h.1.1),
  )
  Distinct-Shuffled (chain s t) h = Distinct-Shuffled t (Distinct-Shuffled s h)

  pub map-Shuffled :
      {B : Type 0} (f : A → B) {xs ys : List A} → Shuffled xs ys → Shuffled (map f xs) (map f ys)
  map-Shuffled f done = done
  map-Shuffled f (skip x s) = skip (f x) (map-Shuffled f s)
  map-Shuffled f (swap x y s) = swap (f x) (f y) (map-Shuffled f s)
  map-Shuffled f (chain s t) = chain (map-Shuffled f s) (map-Shuffled f t)
