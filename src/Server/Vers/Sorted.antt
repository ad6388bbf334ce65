-- ===== src/Server/Vers/Sorted.antt =====
-- A list that was sorted: ascending, with the elements that it had, and as many of each kind.
use kdelta.Prelude.{
  ◌+◌, Bool, true, false, List, [], ◌∷◌, ◌≡◌, ◌↔◌, refl, inl, inr, if◌then◌else◌, filter, length,
  All, In, Bool-cases, arith,
}
use kdelta.Server.Vers.{put, slice_stable}

module _ {A : Type 0} (p : A → Bool) where
  In-filter-to : (x : A) (xs : List A) → In x (filter p xs) → In x xs × (p x ≡ true)
  In-filter-to x [] h = absurd h
  In-filter-to x (y ∷ ys) h = elim (Bool-cases (p y)) [
    | inl passes ↦
        let k : In x (y ∷ filter p ys) = rw passes at h in
        elim k [
          | inl e ↦ (inl e, rw e passes)
          | inr later ↦ (inr (In-filter-to x ys later).0, (In-filter-to x ys later).1)
        ]
    | inr fails ↦
        let k : In x (filter p ys) = rw fails at h in
        (inr (In-filter-to x ys k).0, (In-filter-to x ys k).1)
  ]

  In-filter-from : (x : A) (xs : List A) → In x xs → p x ≡ true → In x (filter p xs)
  In-filter-from x [] h passes = absurd h
  In-filter-from x (y ∷ ys) (inl e) passes =
      let here : p y ≡ true = rw e at passes in rw here (inl e)
  In-filter-from x (y ∷ ys) (inr later) passes = elim (Bool-cases (p y)) [
    | inl here ↦ rw here (inr (In-filter-from x ys later passes))
    | inr gone ↦ rw gone (In-filter-from x ys later passes)
  ]

  -- The elements that pass a test.
  pub In-filter : (x : A) (xs : List A) → In x (filter p xs) ↔ (In x xs × (p x ≡ true))
  In-filter x xs = (In-filter-to x xs, λ h. In-filter-from x xs h.0 h.1)

  pub All-filter : (P : A → Type 0) (xs : List A) → All P xs → All P (filter p xs)
  All-filter P [] h = tt
  All-filter P (x ∷ xs) h = elim (Bool-cases (p x)) [
    | inl passes ↦ rw passes (h.0, All-filter P xs h.1)
    | inr fails ↦ rw fails (All-filter P xs h.1)
  ]

  count_cons :
      (x : A) (xs : List A)
      → length (filter p (x ∷ xs)) ≡ (if p x then 1 else 0) + length (filter p xs)
  count_cons x xs = elim (Bool-cases (p x)) [
    | inl passes ↦ rw passes (omega arith)
    | inr fails ↦ rw fails (omega arith)
  ]

module _ {A : Type 0} (less : A → A → Bool) where
  -- No element is less than one before it.
  abbrev pub Ascending : List A → Type 0
  Ascending [] = Unit
  Ascending (x ∷ xs) = All (λ y. less y x ≡ false) xs × Ascending xs

  pub Ascending-filter : (p : A → Bool) (xs : List A) → Ascending xs → Ascending (filter p xs)
  Ascending-filter p [] h = tt
  Ascending-filter p (x ∷ xs) h = elim (Bool-cases (p x)) [
    | inl passes ↦ rw passes (All-filter p _ xs h.0, Ascending-filter p xs h.1)
    | inr fails ↦ rw fails (Ascending-filter p xs h.1)
  ]

  In-put-to : (x a : A) (xs : List A) → In a (put less x xs) → In a (x ∷ xs)
  unfolding put
  In-put-to x a [] h = h
  In-put-to x a (y ∷ ys) h = elim (Bool-cases (less y x)) [
    | inl before ↦
        let k : In a (y ∷ put less x ys) = rw before at h in
        elim k [
          | inl e ↦ inr (inl e)
          | inr later ↦ elim (In-put-to x a ys later) [ inl e ↦ inl e | inr i ↦ inr (inr i) ]
        ]
    | inr here ↦ rw here at h
  ]

  In-put-from : (x a : A) (xs : List A) → In a (x ∷ xs) → In a (put less x xs)
  unfolding put
  In-put-from x a [] h = h
  In-put-from x a (y ∷ ys) h = elim (Bool-cases (less y x)) [
    | inl before ↦ rw before (elim h [
      | inl e ↦ inr (In-put-from x a ys (inl e))
      | inr (inl e) ↦ inl e
      | inr (inr i) ↦ inr (In-put-from x a ys (inr i))
    ])
    | inr here ↦ rw here h
  ]

  pub In-slice_stable : (a : A) (xs : List A) → In a (slice_stable less xs) ↔ In a xs
  unfolding slice_stable
  In-slice_stable a [] = ((λ h. h), λ h. h)
  In-slice_stable a (x ∷ xs) = (
    (λ h. elim (In-put-to x a (slice_stable less xs) h) [
      | inl e ↦ inl e
      | inr i ↦ inr ((In-slice_stable a xs).0 i)
    ]),
    λ h.
        In-put-from x a (slice_stable less xs)
          (elim h [ inl e ↦ inl e | inr i ↦ inr ((In-slice_stable a xs).1 i) ]),
  )

  count-put :
      (p : A → Bool) (x : A) (xs : List A)
      → length (filter p (put less x xs)) ≡ length (filter p (x ∷ xs))
  unfolding put
  count-put p x [] = refl
  count-put p x (y ∷ ys) = elim (Bool-cases (less y x)) [
    | inl before ↦ rw before (
        omega (
          arith,
          count-put p x ys,
          count_cons p y (put less x ys),
          count_cons p x ys,
          count_cons p y ys,
          count_cons p x (y ∷ ys),
        ))
    | inr here ↦ rw here refl
  ]

  -- A sort keeps how many elements pass a test.
  pub count-slice_stable :
      (p : A → Bool) (xs : List A) → length (filter p (slice_stable less xs)) ≡ length (filter p xs)
  unfolding slice_stable
  count-slice_stable p [] = refl
  count-slice_stable p (x ∷ xs) = omega (
    arith,
    count-put p x (slice_stable less xs),
    count-slice_stable p xs,
    count_cons p x xs,
    count_cons p x (slice_stable less xs),
  )

  All-put : (P : A → Type 0) (x : A) (ys : List A) → P x → All P ys → All P (put less x ys)
  unfolding put
  All-put P x [] k h = (k, tt)
  All-put P x (y ∷ ys) k h = elim (Bool-cases (less y x)) [
    | inl before ↦ rw before (h.0, All-put P x ys k h.1)
    | inr here ↦ rw here (k, h)
  ]

  pub All-slice_stable : (P : A → Type 0) (xs : List A) → All P xs → All P (slice_stable less xs)
  unfolding slice_stable
  All-slice_stable P [] h = tt
  All-slice_stable P (x ∷ xs) h = All-put P x (slice_stable less xs) h.0 (All-slice_stable P xs h.1)

  -- An order in which nothing is less both ways, and not being less is transitive over the elements
  -- that can be placed.
  module _ (Placed : A → Type 0) (asymmetric : (a b : A) → less a b ≡ true → less b a ≡ false)
      (transitive : (a b c : A)
        → Placed b
        → less b a ≡ false
        → less c b ≡ false
        → less c a ≡ false) where
    after-All :
        (x y : A) (ys : List A)
        → Placed y
        → less y x ≡ false
        → All (λ z. less z y ≡ false) ys
        → All (λ z. less z x ≡ false) ys
    after-All x y [] placed here h = tt
    after-All x y (z ∷ zs) placed here h =
        (transitive x y z placed here h.0, after-All x y zs placed here h.1)

    put-Ascending : (x : A) (ys : List A) → All Placed ys → Ascending ys → Ascending (put less x ys)
    unfolding put
    put-Ascending x [] placed h = (tt, tt)
    put-Ascending x (y ∷ ys) placed h = elim (Bool-cases (less y x)) [
      | inl before ↦ rw before (
        All-put (λ z. less z y ≡ false) x ys (asymmetric y x before) h.0,
        put-Ascending x ys placed.1 h.1,
      )
      | inr here ↦ rw here ((here, after-All x y ys placed.0 here h.0), h)
    ]

    pub slice_stable-Ascending : (xs : List A) → All Placed xs → Ascending (slice_stable less xs)
    unfolding slice_stable
    slice_stable-Ascending [] placed = tt
    slice_stable-Ascending (x ∷ xs) placed =
        put-Ascending x (slice_stable less xs) (All-slice_stable Placed xs placed.1)
          (slice_stable-Ascending xs placed.1)
