-- ===== src/Detect/Helm/Kept.antt =====
-- `Detect` on all branches.
use mathlib.Core.Path.{subst}
use kdelta.Prelude.{
  ◌≤◌, List, [], ◌∷◌, Option, none, some, ◌≡◌, ◌⊎◌, refl, sym, ap, ap₂, ◌∙◌, inl, inr, map, All, In,
  Distinct, All-In, Shuffled, All-Shuffled, In-Shuffled, Distinct-Shuffled, map-Shuffled,
  Option-cases,
}
use kdelta.Text.{Text}
use kdelta.Url.{Url}
use kdelta.Detect.{Scope, failed}
use kdelta.Detect.Helm.FromRelease.{Release}
use kdelta.Detect.Helm.{release_key, namespaces_of, detect, resources_of, found_in}
use kdelta.Detect.Helm.Newest.{Covers, IsNewest, listed_after, gather-IsNewest, gather_broken}

abbrev pub Row : Type 0
Row = Text × Release

abbrev releases : List Row → List Release
releases rows = map (λ (r : Row). r.1) rows

keys-releases :
    (rows : List Row)
    → All (λ (r : Row). r.0 ≡ release_key r.1) rows
    → map (λ (r : Row). r.0) rows ≡ map release_key (releases rows)
keys-releases [] h = refl
keys-releases (row ∷ rows) h = ap₂ ◌∷◌ h.0 (keys-releases rows h.1)

-- A release of the same name and namespace that is kept, and not older
abbrev pub HasNewest : List Release → Release → Type 0
HasNewest kept rel =
    (k : Release) × In k kept × (release_key k ≡ release_key rel) × (rel.version ≤ k.version)

In-releases : (row : Row) (rows : List Row) → In row rows → In row.1 (releases rows)
In-releases row [] h = absurd h
In-releases row (r ∷ rows) (inl e) = inl (ap (λ (x : Row). x.1) e)
In-releases row (r ∷ rows) (inr h) = inr (In-releases row rows h)

Covers-HasNewest :
    (rows : List Row) (rel : Release)
    → All (λ (r : Row). r.0 ≡ release_key r.1) rows
    → Covers rows rel
    → HasNewest (releases rows) rel
Covers-HasNewest rows rel keyed (row, there, of_key, newer) =
    let own = All-In (λ (r : Row). r.0 ≡ release_key r.1) rows row keyed there in
    (row.1, In-releases row rows there, sym own ∙ of_key, newer)

All-HasNewest :
    (rows : List Row) (all : List Release)
    → All (λ (r : Row). r.0 ≡ release_key r.1) rows
    → All (Covers rows) all
    → All (HasNewest (releases rows)) all
All-HasNewest rows [] keyed h = tt
All-HasNewest rows (rel ∷ all) keyed h =
    (Covers-HasNewest rows rel keyed h.0, All-HasNewest rows all keyed h.1)

HasNewest-Shuffled :
    {xs ys : List Release} (s : Shuffled xs ys) (all : List Release)
    → All (HasNewest xs) all
    → All (HasNewest ys) all
HasNewest-Shuffled s [] h = tt
HasNewest-Shuffled s (rel ∷ all) ((k, there, of_key, newer), rest) =
    ((k, In-Shuffled k s there, of_key, newer), HasNewest-Shuffled s all rest)

-- The releases of which `all` is kept the newest of each
pub record IsKept (all kept : List Release) : Type 0 where
  pub distinct : Distinct (map release_key kept)
  pub listed : All (λ rel. In rel all) kept
  pub newest : All (HasNewest kept) all

All-releases :
    (all : List Release) (rows : List Row)
    → All (λ (r : Row). In r.1 all) rows
    → All (λ rel. In rel all) (releases rows)
All-releases all [] h = tt
All-releases all (r ∷ rows) h = (h.0, All-releases all rows h.1)

IsNewest-IsKept :
    (all : List Release) (rows ranged : List Row)
    → IsNewest all rows
    → Shuffled rows ranged
    → IsKept all (releases ranged)
IsNewest-IsKept all rows ranged h s =
    let shuffled = map-Shuffled (λ (r : Row). r.1) s in
    record {
      distinct =
          Distinct-Shuffled (map-Shuffled release_key shuffled)
            (subst Distinct (keys-releases rows h.keyed) h.distinct);
      listed = All-Shuffled (λ rel. In rel all) shuffled (All-releases all rows h.listed);
      newest = HasNewest-Shuffled shuffled all (All-HasNewest rows all h.keyed h.covered);
    }

-- In whatever order Go ranges over a map: the detector fails if a listing fails. Otherwise what it
-- finds is the resources of the releases that it keeps, and no edge; it keeps only releases that were
-- listed, no two of the same namespace and name, and for each that was listed one that is at least as
-- new.
pub detect_lem :
    (list : Text → Option (List Release)) (parse_url : Text → Option Url)
    (ranged : List Row → List Row) (scope : Scope)
    → ((rows : List Row) → Shuffled rows (ranged rows))
    → let listing = listed_after list (namespaces_of scope.namespaces) [] in
      ((listing ≡ none) × (detect list parse_url ranged scope ≡ failed))
      ⊎ ((all kept : List Release) × (listing ≡ some all)
          × IsKept all kept
          × (detect list parse_url ranged scope
              ≡ found_in list parse_url ranged (resources_of list parse_url ranged kept)))
unfolding detect
detect_lem list parse_url ranged scope ranges =
    let ns = namespaces_of scope.namespaces in
    elim (Option-cases (listed_after list ns [])) [
      | inl broken ↦ inl (broken, rw (gather_broken list ns [] [] broken) refl)
      | inr (all, read) ↦
          let (latest, gathered, newest) =
            gather-IsNewest list ns [] [] all
              (record { keyed = tt; distinct = tt; listed = tt; covered = tt }) read in
          inr (
            all,
            releases (ranged latest),
            read,
            IsNewest-IsKept all latest (ranged latest) newest (ranges latest),
            rw gathered refl,
          )
    ]
