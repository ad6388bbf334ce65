-- ===== src/Server/Versions/Latest.antt =====
-- The `latest` of a list of versions that was fetched.
use mathlib.Core.Path.{subst}
use kdelta.Prelude.{
  ℕ, ◌↔◌, All-of_In, Bool, true, false, not, List, [], ◌∷◌, Option, none, some, ◌≡◌, ◌⊎◌, refl, sym,
  ap, ◌∙◌, inl, inr, if◌then◌else◌, filter, All, All-In, In, Bool-cases,
}
use kdelta.Text.{Text, truthy}
use kdelta.Api.Version.{Version}
use kdelta.Server.Vers.{Semver, sortable, older, sort_ascending}
use kdelta.Server.Vers.Sorted.{Ascending, Ascending-filter, In-filter, In-slice_stable}
use kdelta.Server.Vers.Precedence.{IsPrecedence, compare_asymmetric, sort_ascending-Ascending}
use kdelta.Server.Versions.{last_stable, last_value, latest_of}

abbrev last : List Version → Option Version
last [] = none
last (v ∷ []) = some v
last (v ∷ w ∷ vs) = last (w ∷ vs)

abbrev value_or : Text → Option Version → Text
value_or t none = t
value_or t (some v) = v.value

abbrev pub is_stable : Version → Bool
is_stable v = not v.prerelease

value_or-last :
    (t : Text) (v : Version) (vs : List Version)
    → value_or t (last (v ∷ vs)) ≡ value_or v.value (last vs)
value_or-last t v [] = refl
value_or-last t v (w ∷ vs) = value_or-last t w vs ∙ sym (value_or-last v.value w vs)

stable_step :
    (pre : Bool) (t : Text) (v : Version) (vs rest : List Version)
    → last_stable t vs ≡ value_or t (last rest)
    → last_stable v.value vs ≡ value_or v.value (last rest)
    → last_stable (if pre then t else v.value) vs
      ≡ value_or t (last (if not pre then v ∷ rest else rest))
stable_step true t v vs rest h k = h
stable_step false t v vs rest h k = k ∙ sym (value_or-last t v rest)

last_stable-eq :
    (t : Text) (vs : List Version) → last_stable t vs ≡ value_or t (last (filter is_stable vs))
unfolding last_stable
last_stable-eq t [] = refl
last_stable-eq t (v ∷ vs) =
    stable_step v.prerelease t v vs (filter is_stable vs) (last_stable-eq t vs)
      (last_stable-eq v.value vs)

last_value-eq : (vs : List Version) → last_value vs ≡ value_or [] (last vs)
unfolding last_value
last_value-eq [] = refl
last_value-eq (v ∷ []) = refl
last_value-eq (v ∷ w ∷ vs) = last_value-eq (w ∷ vs)

-- An element that is less than none
abbrev pub IsGreatest : (Version → Version → Bool) → Version → List Version → Type 0
IsGreatest less v vs = In v vs × All (λ w. less v w ≡ false) vs

last_value_none : last_value [] ≡ []
unfolding last_value
last_value_none = refl

module _ (less : Version → Version → Bool) (irreflexive : (v : Version) → less v v ≡ false) where
  last-IsGreatest :
      (v : Version) (vs : List Version)
      → Ascending less (v ∷ vs)
      → (w : Version) × (last (v ∷ vs) ≡ some w) × IsGreatest less w (v ∷ vs)
  last-IsGreatest v [] h = (v, refl, (inl refl, (irreflexive v, tt)))
  last-IsGreatest v (u ∷ vs) h =
      let (w, e, (there, all)) = last-IsGreatest u vs h.1 in
      (w, e, (inr there, (All-In (λ y. less y v ≡ false) (u ∷ vs) w h.0 there, all)))

-- The last of a sorted list that is not empty
Greatest-of :
    (less : Version → Version → Bool) (irreflexive : (v : Version) → less v v ≡ false)
    (vs : List Version)
    → Ascending less vs
    → (vs ≡ []) ⊎ ((w : Version) × (last vs ≡ some w) × IsGreatest less w vs)
Greatest-of less irreflexive [] h = inl refl
Greatest-of less irreflexive (v ∷ vs) h = inr (last-IsGreatest less irreflexive v vs h)

pick : (a b c : Text) → a ≡ c → truthy c ≡ true → (if truthy a then a else b) ≡ c
pick a b c e h = rw (e, h) refl

pass_over : (a b : Text) → a ≡ [] → (if truthy a then a else b) ≡ b
pass_over a b e = rw e refl

empty-members : (xs ys : List Version) → ((w : Version) → In w xs ↔ In w ys) → xs ≡ [] → ys ≡ []
empty-members xs [] same e = refl
empty-members xs (y ∷ ys) same e =
    let there : In y [] = subst (In y) e ((same y).1 (inl refl)) in absurd there

module _ (semver : Semver) (trim : Text → Text) (scheme : ℕ) (fetched : List Version) where
  -- The versions that can be ordered, and those of them that are no prerelease
  abbrev pub orderable : List Version
  orderable = filter (λ (v : Version). sortable semver trim v.value scheme) fetched

  abbrev pub stable : List Version
  stable = filter is_stable orderable

module _ (semver : Semver) (precedence : IsPrecedence semver) (trim : Text → Text) (scheme : ℕ)
    (fetched : List Version) where
  abbrev less : Version → Version → Bool
  less = older semver trim scheme

  less_self : (v : Version) → less v v ≡ false
  less_self v = elim (Bool-cases (less v v)) [
    | inl below ↦ compare_asymmetric semver precedence trim scheme v.value v.value below
    | inr fine ↦ fine
  ]

  abbrev sorts : Version → Bool
  sorts v = sortable semver trim v.value scheme

  abbrev pool : List Version
  pool = orderable semver trim scheme fetched

  abbrev best : List Version
  best = stable semver trim scheme fetched

  sorted-members : (v : Version) → In v (sort_ascending semver trim fetched scheme) ↔ In v pool
  unfolding sort_ascending
  sorted-members v = In-slice_stable less v pool

  stable-members :
      (v : Version)
      → In v (filter is_stable (sort_ascending semver trim fetched scheme)) ↔ In v best
  stable-members v =
      let sorted = sort_ascending semver trim fetched scheme in
      let members = sorted-members v in
      let left = In-filter is_stable v sorted in
      let right = In-filter is_stable v pool in
      (
        (λ h. right.1 (members.0 (left.0 h).0, (left.0 h).1)),
        λ h. left.1 (members.1 (right.0 h).0, (right.0 h).1),
      )

  -- Of `xs`, in terms of a list with the same members
  moved :
      (v : Version) (xs ys : List Version)
      → ((w : Version) → In w xs ↔ In w ys)
      → IsGreatest less v xs
      → IsGreatest less v ys
  moved v xs ys same (there, all) =
      ((same v).0 there, All-of_In _ ys (λ w h. All-In _ xs w all ((same w).1 h)))

  -- Of versions that are not empty texts, the latest is the newest of those that can be ordered and are
  -- no prerelease: none of them is above it; where there is none of those, the newest that can be
  -- ordered; and it is empty where none can.
  pub latest_of_lem :
      All (λ (v : Version). truthy v.value ≡ true) fetched
      → let latest = latest_of (sort_ascending semver trim fetched scheme) in
        ((v : Version) × (latest ≡ v.value) × IsGreatest less v (stable semver trim scheme fetched))
        ⊎ ((stable semver trim scheme fetched ≡ [])
            × ((v : Version) × (latest ≡ v.value)
                × IsGreatest less v (orderable semver trim scheme fetched)))
        ⊎ ((orderable semver trim scheme fetched ≡ []) × (latest ≡ []))
  unfolding latest_of
  latest_of_lem named =
      let sorted = sort_ascending semver trim fetched scheme in
      let ascending = sort_ascending-Ascending semver precedence trim scheme fetched in
      let by_stable = last_stable-eq [] sorted in
      elim (Greatest-of less less_self (filter is_stable sorted)
        (Ascending-filter less is_stable sorted ascending)) [
          | inr (w, e, greatest) ↦
              let there = ((In-filter is_stable w sorted).0 greatest.0).0 in
              let listed = ((In-filter sorts w fetched).0 ((sorted-members w).0 there)).0 in
              inl (
                w,
                pick (last_stable [] sorted) (last_value sorted) w.value
                    (by_stable ∙ ap (value_or []) e)
                    (All-In (λ (v : Version). truthy v.value ≡ true) fetched w named listed),
                moved w (filter is_stable sorted) best stable-members greatest,
              )
          | inl bare ↦
              let over : latest_of sorted ≡ last_value sorted =
                pass_over (last_stable [] sorted) (last_value sorted)
                  (by_stable ∙ ap (λ vs. value_or [] (last vs)) bare) in
              elim (Greatest-of less less_self sorted ascending) [
                | inr (w, e, greatest) ↦ inr (
                    inl (
                      empty-members (filter is_stable sorted) best stable-members bare,
                      (
                        w,
                        over ∙ last_value-eq sorted ∙ ap (value_or []) e,
                        moved w sorted pool sorted-members greatest,
                      ),
                    ))
                | inl nothing ↦ inr (
                    inr (
                      empty-members sorted pool sorted-members nothing,
                      over ∙ ap last_value nothing ∙ last_value_none,
                    ))
              ]
        ]
