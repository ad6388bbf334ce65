-- ===== src/Resolve/Choice/Leading.antt =====
-- The leader of the candidates, in the order of trust that `decide` sorts by.
use mathlib.Core.Path.{subst}
use kdelta.Prelude.{
  ℕ, ℤ, pos, negsuc, suc, ◌≤◌, Bool, true, false, not, ◌&&◌, List, [], ◌∷◌, none, some, ◌≡◌, ◌↔◌,
  inl, inr, refl, sym, ap, ◌∙◌, filter, length, All, In, All-In, Bool-cases, arith,
}
use kdelta.Upstream.Fetch.{ArtifactHubPackage}
use kdelta.Server.Vers.{slice_stable}
use kdelta.Server.Vers.Sorted.{
  Ascending, In-slice_stable, count-slice_stable, slice_stable-Ascending,
}
use kdelta.Resolve.Choice.{trust_key, by_trust, same_trust, VerifiedCandidate, outranks, leader}

module _ {A : Type 0} where
  pub filter-filter :
      (p q : A → Bool) (xs : List A) → filter p (filter q xs) ≡ filter (λ x. q x && p x) xs
  filter-filter p q [] = refl
  filter-filter p q (x ∷ xs) = elim (Bool-cases (q x)) [
    | inl passes ↦ elim (Bool-cases (p x)) [
      | inl kept ↦ rw (passes, kept) (ap (x ∷◌) (filter-filter p q xs))
      | inr gone ↦ rw (passes, gone) (filter-filter p q xs)
    ]
    | inr fails ↦ rw fails (filter-filter p q xs)
  ]

  one-le-filter :
      (p : A → Bool) (x : A) (xs : List A) → In x xs → p x ≡ true → 1 ≤ length (filter p xs)
  one-le-filter p x [] h passes = absurd h
  one-le-filter p x (y ∷ ys) (inl e) passes =
      let here : p y ≡ true = rw e at passes in rw here (omega arith)
  one-le-filter p x (y ∷ ys) (inr h) passes = elim (Bool-cases (p y)) [
    | inl here ↦ rw here (omega arith)
    | inr gone ↦ rw gone (one-le-filter p x ys h passes)
  ]

filter_all :
    (xs : List VerifiedCandidate) → length (filter (λ (a : VerifiedCandidate). true) xs) ≡ length xs
filter_all [] = refl
filter_all (x ∷ xs) = ap (λ n. suc n) (filter_all xs)

abbrev Trust : Type 0
Trust = ℕ × ℕ × ℤ

by_trust_self : (x : Trust) → by_trust x x false ≡ false
unfolding by_trust
by_trust_self (a, b, pos c) = ground arith
by_trust_self (a, b, negsuc c) = ground arith

by_trust_flipped : (x y : Trust) → by_trust x y false ≡ true → by_trust y x false ≡ false
unfolding by_trust
by_trust_flipped (a, b, pos c) (d, e, pos f) h = ground arith
by_trust_flipped (a, b, pos c) (d, e, negsuc f) h = ground arith
by_trust_flipped (a, b, negsuc c) (d, e, pos f) h = ground arith
by_trust_flipped (a, b, negsuc c) (d, e, negsuc f) h = ground arith

by_trust_trans :
    (x y z : Trust)
    → by_trust y x false ≡ false
    → by_trust z y false ≡ false
    → by_trust z x false ≡ false
unfolding by_trust
by_trust_trans (a, b, pos c) (d, e, pos f) (g, i, pos j) h k = ground arith
by_trust_trans (a, b, pos c) (d, e, pos f) (g, i, negsuc j) h k = ground arith
by_trust_trans (a, b, pos c) (d, e, negsuc f) (g, i, pos j) h k = ground arith
by_trust_trans (a, b, pos c) (d, e, negsuc f) (g, i, negsuc j) h k = ground arith
by_trust_trans (a, b, negsuc c) (d, e, pos f) (g, i, pos j) h k = ground arith
by_trust_trans (a, b, negsuc c) (d, e, pos f) (g, i, negsuc j) h k = ground arith
by_trust_trans (a, b, negsuc c) (d, e, negsuc f) (g, i, pos j) h k = ground arith
by_trust_trans (a, b, negsuc c) (d, e, negsuc f) (g, i, negsuc j) h k = ground arith

by_trust_of_ne :
    (x y : Trust)
    → by_trust y x false ≡ false
    → (by_trust x y false ≡ true) ↔ (same_trust x y ≡ false)
unfolding by_trust
by_trust_of_ne (a, b, pos c) (d, e, pos f) h = ((λ k. ground arith), λ k. ground arith)
by_trust_of_ne (a, b, pos c) (d, e, negsuc f) h = ((λ k. ground arith), λ k. ground arith)
by_trust_of_ne (a, b, negsuc c) (d, e, pos f) h = ((λ k. ground arith), λ k. ground arith)
by_trust_of_ne (a, b, negsuc c) (d, e, negsuc f) h = ((λ k. ground arith), λ k. ground arith)

pub outranks_self : (a : VerifiedCandidate) → outranks a a ≡ false
outranks_self a = by_trust_self (trust_key a.pkg)

outranks_flipped : (a b : VerifiedCandidate) → outranks a b ≡ true → outranks b a ≡ false
outranks_flipped a b = by_trust_flipped (trust_key a.pkg) (trust_key b.pkg)

outranks_trans :
    (a b c : VerifiedCandidate) → outranks b a ≡ false → outranks c b ≡ false → outranks c a ≡ false
outranks_trans a b c = by_trust_trans (trust_key a.pkg) (trust_key b.pkg) (trust_key c.pkg)

-- Of two that differ in trust, the one that is not outranked outranks.
outranks_of_ne :
    (a b : VerifiedCandidate)
    → outranks b a ≡ false
    → (outranks a b ≡ true) ↔ (same_trust (trust_key a.pkg) (trust_key b.pkg) ≡ false)
outranks_of_ne a b = by_trust_of_ne (trust_key a.pkg) (trust_key b.pkg)

outranks_below :
    (a b c : VerifiedCandidate) → outranks a b ≡ true → outranks c b ≡ false → outranks a c ≡ true
outranks_below a b c h k = elim (Bool-cases (outranks a c)) [
  | inl above ↦ above
  | inr level ↦
      let below : outranks a b ≡ false = outranks_trans b c a k level in absurd (ground arith)
]

-- How many a candidate does not outrank, itself included.
abbrev pub rivals : VerifiedCandidate → List VerifiedCandidate → ℕ
rivals r xs = length (filter (λ q. not (outranks r q)) xs)

rivals_none :
    (a b : VerifiedCandidate) (xs : List VerifiedCandidate)
    → outranks a b ≡ true
    → All (λ c. outranks c b ≡ false) xs
    → rivals a xs ≡ 0
rivals_none a b [] above h = refl
rivals_none a b (x ∷ xs) above h =
    rw (outranks_below a b x above h.0) (rivals_none a b xs above h.1)

-- The leader of a sorted list is the one that outranks all others.
leader-to :
    (p : ArtifactHubPackage) (xs : List VerifiedCandidate)
    → Ascending outranks xs
    → leader xs ≡ some p
    → (r : VerifiedCandidate) × In r xs × (r.pkg ≡ p) × (rivals r xs ≡ 1)
unfolding leader
leader-to p [] h e = absurd (ground arith)
leader-to p (a ∷ []) h e = absurd (ground arith)
leader-to p (a ∷ b ∷ xs) h e = elim (Bool-cases (same_trust (trust_key a.pkg) (trust_key b.pkg))) [
  | inl same ↦ let none_there : none ≡ some p = rw same at e in absurd (ground arith)
  | inr other ↦
      let found : some a.pkg ≡ some p = rw other at e in
      let above = (outranks_of_ne a b h.0.0).1 other in
      (a, inl refl, cc, rw (outranks_self a, above) (omega (arith, rivals_none a b xs above h.1.0)))
]

leader-from :
    (r a b : VerifiedCandidate) (xs : List VerifiedCandidate)
    → Ascending outranks (a ∷ b ∷ xs)
    → In r (a ∷ b ∷ xs)
    → rivals r (a ∷ b ∷ xs) ≡ 1
    → leader (a ∷ b ∷ xs) ≡ some r.pkg
unfolding leader
leader-from r a b xs h (inl e) one = elim (Bool-cases (outranks a b)) [
  | inl above ↦
      rw ((outranks_of_ne a b h.0.0).0 above) (ap (λ (x : VerifiedCandidate). some x.pkg) (sym e))
  | inr level ↦
      let two : rivals a (a ∷ b ∷ xs) ≡ 1 = subst (λ x. rivals x (a ∷ b ∷ xs) ≡ 1) e one in
      let more : suc (suc (rivals a xs)) ≡ 1 = rw (outranks_self a, level) at two in
      absurd (omega arith)
]
leader-from r a b xs h (inr later) one =
    let level = All-In (λ y. outranks y a ≡ false) (b ∷ xs) r h.0 later in
    let itself : not (outranks r r) ≡ true = rw (outranks_self r) refl in
    let some_more = one-le-filter (λ q. not (outranks r q)) r (b ∷ xs) later itself in
    let two : suc (rivals r (b ∷ xs)) ≡ 1 = rw level at one in absurd (omega arith)

-- The one candidate of a list that outranks all others of it.
all_placed : (xs : List VerifiedCandidate) → All (λ (a : VerifiedCandidate). Unit {0}) xs
all_placed [] = tt
all_placed (x ∷ xs) = (tt, all_placed xs)

abbrev Tops : VerifiedCandidate → List VerifiedCandidate → Type 0
Tops r xs = In r xs × (rivals r xs ≡ 1)

sorted : (xs : List VerifiedCandidate) → Ascending outranks (slice_stable outranks xs)
sorted xs =
    slice_stable-Ascending outranks (λ a. Unit {0}) outranks_flipped
      (λ a b c placed. outranks_trans a b c) xs (all_placed xs)

length_sorted : (xs : List VerifiedCandidate) → length (slice_stable outranks xs) ≡ length xs
length_sorted xs =
    sym (filter_all (slice_stable outranks xs))
    ∙ count-slice_stable outranks (λ a. true) xs
    ∙ filter_all xs

leader_of_long :
    (r : VerifiedCandidate) (xs : List VerifiedCandidate)
    → 2 ≤ length xs
    → Ascending outranks xs
    → Tops r xs
    → leader xs ≡ some r.pkg
leader_of_long r [] long h top = absurd (omega arith)
leader_of_long r (a ∷ []) long h top = absurd (omega arith)
leader_of_long r (a ∷ b ∷ xs) long h top = leader-from r a b xs h top.0 top.1

Tops-sorted :
    (r : VerifiedCandidate) (xs : List VerifiedCandidate)
    → Tops r (slice_stable outranks xs) ↔ Tops r xs
Tops-sorted r xs =
    let members = In-slice_stable outranks r xs in
    let counts = count-slice_stable outranks (λ q. not (outranks r q)) xs in
    ((λ h. (members.0 h.0, sym counts ∙ h.1)), λ h. (members.1 h.0, counts ∙ h.1))

abbrev pub Leads : ArtifactHubPackage → List VerifiedCandidate → Type 0
Leads p xs = (r : VerifiedCandidate) × In r xs × (r.pkg ≡ p) × (rivals r xs ≡ 1)

pub leader_iff :
    (p : ArtifactHubPackage) (xs : List VerifiedCandidate)
    → 2 ≤ length xs
    → (leader (slice_stable outranks xs) ≡ some p) ↔ Leads p xs
leader_iff p xs long = (
  (λ e.
      let (r, there, found, one) = leader-to p (slice_stable outranks xs) (sorted xs) e in
      let top = (Tops-sorted r xs).0 (there, one) in (r, top.0, found, top.1)),
  λ h.
      let (r, there, found, one) = h in
      leader_of_long r (slice_stable outranks xs) (rw (length_sorted xs) long) (sorted xs)
        ((Tops-sorted r xs).1 (there, one))
      ∙ ap (λ (q : ArtifactHubPackage). some q) found,
)
