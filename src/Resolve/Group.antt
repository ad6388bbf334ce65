-- ===== src/Resolve/Group.antt =====
-- The group of a package, and what an outcome makes of a resource.
use mathlib.Core.Bool.{and-eq-true_iff}
use kdelta.Prelude.{
  Bool, true, false, ◌&&◌, List, [], ◌∷◌, Option, none, some, ◌≡◌, ◌≢◌, ◌↔◌, ◌⊎◌, refl, sym, ap,
  ap₂, ◌∙◌, inl, inr, map, if◌then◌else◌, find, All, Bool-cases, Option-cases, arith,
}
use kdelta.Text.{Text, text_eq, text_eq_iff}
use kdelta.Api.Resource.{Resource}
use kdelta.Resolve.{Package, eligible, package_of, same_package, seen, stamp, in_group, apply}

pub same_package_iff : (a b : Package) → (same_package a b ≡ true) ↔ (a ≡ b)
unfolding same_package
same_package_iff a b = (
  (λ h.
      let (systems, names) = (and-eq-true_iff (text_eq a.system b.system) _).0 h in
      let s = (text_eq_iff a.system b.system).0 systems in
      let n = (text_eq_iff a.name b.name).0 names in λ i. record { system = s i; name = n i }),
  λ e. (and-eq-true_iff _ _).1 (
    (text_eq_iff a.system b.system).1 (ap (λ (k : Package). k.system) e),
    (text_eq_iff a.name b.name).1 (ap (λ (k : Package). k.name) e),
  ),
)

pub other_package : (a b : Package) → a ≢ b → same_package a b ≡ false
other_package a b h = elim (Bool-cases (same_package a b)) [
  | inl same ↦ absurd (h ((same_package_iff a b).0 same))
  | inr other ↦ other
]

-- The packages are visited once each.
pub seen-All : (k : Package) (ks : List Package) → seen k ks ≡ false → All (λ j. j ≢ k) ks
unfolding seen
seen-All k [] h = tt
seen-All k (j ∷ ks) h = elim (Bool-cases (same_package j k)) [
  | inl same ↦ let clash : true ≡ false = rw same at h in absurd (ground arith)
  | inr other ↦
      let rest : seen k ks ≡ false = rw other at h in
      ((λ e. let same = (same_package_iff j k).1 e in absurd (ground arith)), seen-All k ks rest)
]

-- Outcomes of packages, and a resource under them.
abbrev pub Outcomes : Type 0
Outcomes = Package → Option Text

unfoldable pub stamp_if : Option Text → Resource → Resource
stamp_if none r = r
stamp_if (some url) r = stamp url r

unfoldable pub enriched : Outcomes → Resource → Resource
unfolding stamp_if
enriched f r = if eligible r then stamp_if (f (package_of r)) r else r

abbrev pub set : Package → Text → Outcomes → Outcomes
set k url f j = if same_package j k then some url else f j

package_of-enriched : (f : Outcomes) (r : Resource) → package_of (enriched f r) ≡ package_of r
unfolding enriched stamp_if stamp
package_of-enriched f r = elim (Bool-cases (eligible r)) [
  | inl fits ↦ elim (Option-cases (f (package_of r))) [
    | inl nothing ↦ rw (fits, nothing) refl
    | inr (url, found) ↦ rw (fits, found) refl
  ]
  | inr other ↦ rw other refl
]

and_false : (a b : Bool) → b ≡ false → (a && b) ≡ false
and_false a b h = ground arith

enriched_member :
    (f : Outcomes) (k : Package) (url : Text) (r : Resource)
    → in_group k r ≡ true
    → enriched (set k url f) r ≡ stamp url r
unfolding enriched stamp_if in_group
enriched_member f k url r member =
    let (fits, same) = (and-eq-true_iff (eligible r) _).0 member in rw (fits, same) refl

enriched_other :
    (f : Outcomes) (k : Package) (url : Text) (r : Resource)
    → in_group k r ≡ false
    → enriched (set k url f) r ≡ enriched f r
unfolding enriched stamp_if in_group
enriched_other f k url r other = elim (Bool-cases (eligible r)) [
  | inr unfit ↦ rw unfit refl
  | inl fits ↦
      let different : same_package (package_of r) k ≡ false = rw fits at other in
      rw (fits, different) refl
]

-- A resource of a package that has no outcome yet is as it was, and so is its group.
in_group-enriched :
    (f : Outcomes) (k : Package) (r : Resource)
    → f k ≡ none
    → ((in_group k r ≡ true) × (enriched f r ≡ r))
      ⊎ ((in_group k r ≡ false) × (in_group k (enriched f r) ≡ false))
unfolding in_group enriched stamp_if
in_group-enriched f k r unset = elim (Bool-cases (eligible r)) [
  | inr other ↦ inr (rw other refl, rw (other, other) refl)
  | inl fits ↦ elim (Bool-cases (same_package (package_of r) k)) [
    | inl same ↦
        let here : f (package_of r) ≡ none = ap f ((same_package_iff _ k).0 same) ∙ unset in
        inl (rw (fits, same) refl, rw (fits, here) refl)
    | inr different ↦
        let later : same_package (package_of (enriched f r)) k ≡ false =
          ap (λ j. same_package j k) (package_of-enriched f r) ∙ different in
        inr (rw (fits, different) refl, and_false (eligible (enriched f r)) _ later)
  ]
]

pub find_group :
    (f : Outcomes) (k : Package) (rs : List Resource)
    → f k ≡ none
    → find (in_group k) (map (enriched f) rs) ≡ find (in_group k) rs
find_group f k [] unset = refl
find_group f k (r ∷ rs) unset = elim (in_group-enriched f k r unset) [
  | inl (member, same) ↦ rw (same, member) refl
  | inr (other, still) ↦ rw (other, still) (find_group f k rs unset)
]

apply_one :
    (f : Outcomes) (k : Package) (url : Text) (r : Resource)
    → f k ≡ none
    → (if in_group k (enriched f r) then stamp url (enriched f r) else enriched f r)
      ≡ enriched (set k url f) r
apply_one f k url r unset = elim (in_group-enriched f k r unset) [
  | inl (member, same) ↦ rw (same, member) (sym (enriched_member f k url r member))
  | inr (other, still) ↦ rw still (sym (enriched_other f k url r other))
]

pub apply_all :
    (f : Outcomes) (k : Package) (url : Text) (rs : List Resource)
    → f k ≡ none
    → apply k url (map (enriched f) rs) ≡ map (enriched (set k url f)) rs
unfolding apply
apply_all f k url [] unset = refl
apply_all f k url (r ∷ rs) unset = ap₂ ◌∷◌ (apply_one f k url r unset) (apply_all f k url rs unset)

pub enriched_unset : (rs : List Resource) → rs ≡ map (enriched (λ k. none)) rs
unfolding enriched stamp_if
enriched_unset [] = refl
enriched_unset (r ∷ rs) = elim (Bool-cases (eligible r)) [
  | inl fits ↦ rw fits (ap (r ∷◌) (enriched_unset rs))
  | inr other ↦ rw other (ap (r ∷◌) (enriched_unset rs))
]
