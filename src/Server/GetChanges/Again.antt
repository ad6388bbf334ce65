-- ===== src/Server/GetChanges/Again.antt =====
-- `GetChanges` of internal/server/changes.go twice: a change set that was resolved is read from the
-- cache by the next request.
use kdelta.Prelude.{ℕ, true, List, [], ◌∷◌, Option, none, some, ◌≡◌, refl, ap, inr, is_some}
use kdelta.Text.{Text, js, truthy}
use kdelta.Query.{Codes}
use kdelta.Ref.{ResourceRef}
use kdelta.Api.Changes.{ChangeSet, VersionChanges}
use kdelta.Api.Resource.{Resource, VersionStream}
use kdelta.Api.Service.{RangeInput, result}
use kdelta.Server.Table.{upsert, select-upsert_self}
use kdelta.Server.Store.{Store, latest_scan, put_change_set, change_set, change_set_key}
use kdelta.Server.Vers.{Semver}
use kdelta.Server.Scan.{cached_scan, resource_stream}
use kdelta.Server.Versions.{Upstream}
use kdelta.Server.Changes.{ReleaseNotes, Agent, report, structure_releases, fetch_release_notes}
use kdelta.Server.GetChanges.{set_of, get_changes}

-- The cache once a set is put, and what is found in it.
abbrev with_set : ChangeSet → Store → Store
with_set set s = record s {
  change_sets =
      upsert (change_set_key set.package_key set.kind set.from_version set.to_version) set
        s.change_sets;
}

put_change_set-keyed :
    (set : ChangeSet) (s : Store)
    → is_some set.package_key ≡ true
    → put_change_set set s ≡ some (with_set set s)
unfolding put_change_set
put_change_set-keyed set s keyed = rw keyed refl

change_set-with_set :
    (set : ChangeSet) (s : Store)
    → change_set set.package_key set.kind set.from_version set.to_version (with_set set s)
      ≡ some set
unfolding change_set
change_set-with_set set s = select-upsert_self _ set s.change_sets

resource_stream-with_set :
    (code : Codes) (set : ChangeSet) (s : Store) (target : Option ResourceRef) (stream_id : Text)
    → resource_stream code (some (with_set set s)) target stream_id
      ≡ resource_stream code (some s) target stream_id
unfolding resource_stream cached_scan latest_scan
resource_stream-with_set code set s target stream_id = refl

module _ (semver : Semver) (trim : Text → Text) (parse_url : Text → Option (Text × Text))
    (code : Codes) where
  -- Where a request gives both ends of its range and the resource has an upstream package, and a
  -- change set that was not cached is resolved, from release notes and by an agent or not: the same
  -- request, sent next on the cache that is left, is answered from it, with one event that says so and
  -- with the same change set, whatever upstream and the agent do by then, and the cache stays as it is.
  pub get_changes-again :
      (upstream upstream' : Option Upstream) (agent agent' : Option Agent)
      (asked stored asked' stored' : ℕ) (s : Store) (req : RangeInput) (resource : Resource)
      (stream : VersionStream) (n : ReleaseNotes) (ns : List ReleaseNotes)
      (versions : List VersionChanges)
      → resource_stream code (some s) req.ref req.stream_id ≡ inr (resource, stream)
      → truthy req.from_version ≡ true
      → truthy req.to_version ≡ true
      → is_some resource.upstream ≡ true
      → change_set resource.upstream stream.kind req.from_version req.to_version s ≡ none
      → (fetch_release_notes semver trim parse_url code upstream stream req.from_version
          req.to_version).1
        ≡ inr (n ∷ ns)
      → (structure_releases true agent resource.upstream (n ∷ ns)).1 ≡ inr versions
      → let set = set_of resource stream req.from_version req.to_version versions in
        (t : Store) × ((get_changes semver trim parse_url code upstream agent asked stored
            (some s)
            req).error
          ≡ none)
        × ((get_changes semver trim parse_url code upstream agent asked stored (some s) req).store
            ≡ some t)
        × (get_changes semver trim parse_url code upstream' agent' asked' stored' (some t) req
            ≡ record {
              events = report (js "cache") (js "serving the cached change set") ∷ result set ∷ [];
              error = none;
              store = some t;
            })
  unfolding get_changes
  get_changes-again upstream upstream' agent agent' asked stored asked' stored' s req resource
        stream n ns versions found from to keyed missing fetched written =
      let set = set_of resource stream req.from_version req.to_version versions in
      let notes =
        fetch_release_notes semver trim parse_url code upstream stream req.from_version
          req.to_version in
      let whole : notes ≡ (notes.0, inr (n ∷ ns)) = ap (λ a. (notes.0, a)) fetched in
      let made = structure_releases true agent resource.upstream (n ∷ ns) in
      let whole' : made ≡ (made.0, inr versions) = ap (λ a. (made.0, a)) written in
      (
        with_set set s,
        rw (found, from, to, missing, whole, from, whole', put_change_set-keyed set s keyed) refl,
        rw (found, from, to, missing, whole, from, whole', put_change_set-keyed set s keyed) refl,
        rw
            (
              resource_stream-with_set code set s req.ref req.stream_id,
              found,
              from,
              to,
              change_set-with_set set s,
              from,
            )
            refl,
      )
