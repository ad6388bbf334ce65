-- ===== src/Server/Changes/Range.antt =====
-- The releases that a change set is made of: those in the range, from the oldest on.
use kdelta.Prelude.{ℕ, true, List, ◌≡◌, filter, map, All-map, arith}
use kdelta.Text.{Text}
use kdelta.Server.Vers.{Semver, sortable}
use kdelta.Server.Vers.Sorted.{Ascending, slice_stable-Ascending, In-slice_stable, In-filter}
use kdelta.Server.Vers.Precedence.{
  IsPrecedence, compare_asymmetric, compare_transitive, comparable-sortable,
}
use kdelta.Server.Versions.{Release}
use kdelta.Server.Versions.Listing.{SameMembers}
use kdelta.Server.Changes.{ReleaseNotes, notes_of, in_range, older_notes, select_releases}

module _ (semver : Semver) (precedence : IsPrecedence semver) (trim : Text → Text)
    (from_version to_version : Text) (scheme : ℕ) where
  abbrev Placed : ReleaseNotes → Type 0
  Placed n = sortable semver trim n.version scheme ≡ true

  in_range-sortable :
      (r : Release)
      → in_range semver trim from_version to_version scheme r ≡ true
      → sortable semver trim r.tag scheme ≡ true
  in_range-sortable r h = comparable-sortable semver trim r.tag from_version scheme (ground arith)

  -- The releases that are selected ascend, and they are those which are no prerelease, above the
  -- lower end of the range and not above the upper one.
  select_releases_lem :
      (releases : List Release)
      → Ascending
          (older_notes semver trim scheme)
          (select_releases semver trim from_version to_version scheme releases)
        × SameMembers
            (select_releases semver trim from_version to_version scheme releases)
            (map notes_of (filter (in_range semver trim from_version to_version scheme) releases))
  unfolding select_releases
  select_releases_lem releases =
      let chosen = filter (in_range semver trim from_version to_version scheme) releases in
      (
        slice_stable-Ascending (older_notes semver trim scheme) Placed
            (λ a b. compare_asymmetric semver precedence trim scheme a.version b.version)
            (λ a b c.
              compare_transitive semver precedence trim scheme a.version b.version c.version)
            (map notes_of chosen)
            (All-map Placed notes_of chosen
              (λ r h. in_range-sortable r ((In-filter _ r releases).0 h).1)),
        λ a. In-slice_stable (older_notes semver trim scheme) a (map notes_of chosen),
      )
