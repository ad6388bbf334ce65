-- ===== src/Server/GetChanges/Stream.antt =====
-- `GetChanges` of internal/server/changes.go and the reducer of apps/app-ui/lib/streamed.ts: what the
-- events of a changelog fold to.
use mathlib.Core.List.{append-nil}
use kdelta.Prelude.{
  ℕ, true, List, [], ◌∷◌, ◌++◌, map, Option, none, some, ◌≡◌, refl, ap, ap₂, ◌∙◌, inl, inr, ◌>>=◌,
  is_some, Option-cases,
}
use kdelta.Text.{Text, truthy}
use kdelta.Query.{Codes}
use kdelta.Api.Changes.{ChangeSet, ReleaseNotesSource, VersionChanges}
use kdelta.Api.Resource.{Resource, VersionStream}
use kdelta.Api.Service.{GetChangesResponse, RangeInput, partial, result}
use kdelta.Streamed.{StreamState, fold_events}
use kdelta.Streamed.Fold.{partials_of, last_result, fold_events_lem}
use kdelta.Streamed.Events.{changes_event}
use kdelta.Server.Store.{Store, put_change_set, change_set}
use kdelta.Server.Vers.{Semver}
use kdelta.Server.Scan.{resource_stream}
use kdelta.Server.Versions.{Upstream}
use kdelta.Server.Changes.{
  ReleaseNotes, verbatim, notes_source, owner_repo, fetch_repository, fetch_notes,
  fetch_release_notes,
}
use kdelta.Server.GetChanges.{set_of, put_set, get_changes}

-- The partial entries and the result among the events of a stream.
partials_of-append :
    (es fs : List GetChangesResponse)
    → partials_of (map changes_event (es ++ fs))
      ≡ partials_of (map changes_event es) ++ partials_of (map changes_event fs)
unfolding partials_of changes_event
partials_of-append [] fs = refl
partials_of-append (GetChangesResponse.progress p ∷ es) fs = partials_of-append es fs
partials_of-append (GetChangesResponse.result r ∷ es) fs = partials_of-append es fs
partials_of-append (GetChangesResponse.partial v ∷ es) fs = ap (v ∷◌) (partials_of-append es fs)
partials_of-append (GetChangesResponse.unset ∷ es) fs = partials_of-append es fs

last_result-sent :
    (es : List GetChangesResponse) (r : Option ChangeSet) (set : ChangeSet)
    → last_result r (map changes_event (es ++ (result set ∷ []))) ≡ some set
unfolding last_result changes_event
last_result-sent [] r set = refl
last_result-sent (GetChangesResponse.progress p ∷ es) r set = last_result-sent es r set
last_result-sent (GetChangesResponse.result a ∷ es) r set = last_result-sent es (some a) set
last_result-sent (GetChangesResponse.partial v ∷ es) r set = last_result-sent es r set
last_result-sent (GetChangesResponse.unset ∷ es) r set = last_result-sent es r set

partials_of-verbatim :
    (vs : List VersionChanges) → partials_of (map changes_event (map partial vs)) ≡ vs
unfolding partials_of changes_event
partials_of-verbatim [] = refl
partials_of-verbatim (v ∷ vs) = ap (v ∷◌) (partials_of-verbatim vs)

-- A stream that ends with its result.
folded_result :
    (es : List GetChangesResponse) (set : ChangeSet)
    → let seen : StreamState ChangeSet =
        fold_events (map changes_event (es ++ (result set ∷ []))) in
      (seen.result ≡ some set) × (seen.partials ≡ partials_of (map changes_event es))
unfolding partials_of changes_event
folded_result es set =
    let folded = fold_events_lem (map changes_event (es ++ (result set ∷ []))) in
    (
      ap (λ (s : StreamState ChangeSet). s.result) folded ∙ last_result-sent es none set,
      ap (λ (s : StreamState ChangeSet). s.partials) folded
          ∙ (partials_of-append es (result set ∷ [])
              ∙ append-nil (partials_of (map changes_event es))),
    )

put_set-keyed :
    (sent : List GetChangesResponse) (set : ChangeSet) (store : Option Store)
    → is_some set.package_key ≡ true
    → ((put_set sent set store).sent ≡ sent) × ((put_set sent set store).answer ≡ inr set)
unfolding put_set put_change_set
put_set-keyed sent set none keyed = (refl, refl)
put_set-keyed sent set (some s) keyed = rw keyed (refl, refl)

module _ (semver : Semver) (trim : Text → Text) (parse_url : Text → Option (Text × Text))
    (code : Codes) where
  fetch_notes-partials :
      (u : Upstream) (source : Option ReleaseNotesSource) (from_version to_version : Text)
      (scheme : ℕ)
      → partials_of (
          map changes_event
            (fetch_notes semver trim parse_url code u source from_version to_version scheme).0)
        ≡ []
  unfolding fetch_notes fetch_repository partials_of changes_event
  fetch_notes-partials u none from_version to_version scheme = refl
  fetch_notes-partials u (some n) from_version to_version scheme =
      elim (Option-cases (owner_repo (parse_url n.repository_url))) [
        | inl unknown ↦ rw unknown refl
        | inr ((owner, repo), known) ↦ rw known refl
      ]

  -- While release notes are fetched, no partial entry is sent.
  fetch_release_notes-partials :
      (upstream : Option Upstream) (stream : VersionStream) (from_version to_version : Text)
      → partials_of (
          map changes_event
            (fetch_release_notes semver trim parse_url code upstream stream from_version
              to_version).0)
        ≡ []
  unfolding fetch_release_notes partials_of changes_event
  fetch_release_notes-partials none stream from_version to_version = refl
  fetch_release_notes-partials (some u) stream from_version to_version =
      fetch_notes-partials u (notes_source stream.changes) from_version to_version stream.scheme

module _ (semver : Semver) (trim : Text → Text) (parse_url : Text → Option (Text × Text))
    (code : Codes) (upstream : Option Upstream) where
  -- Without an agent, on a request that gives both ends of its range, for a stream of a resource with
  -- an upstream package, where the range is not cached and release notes are found for it: the stream
  -- ends without an error, the UI's folded value holds the change set of the range as its result, and
  -- the partial changes that it showed on the way are just the entries of that set.
  pub get_changes-verbatim :
      (asked stored : ℕ) (store : Option Store) (req : RangeInput) (resource : Resource)
      (stream : VersionStream) (n : ReleaseNotes) (ns : List ReleaseNotes)
      → resource_stream code store req.ref req.stream_id ≡ inr (resource, stream)
      → truthy req.from_version ≡ true
      → truthy req.to_version ≡ true
      → is_some resource.upstream ≡ true
      → (store >>= change_set resource.upstream stream.kind req.from_version req.to_version) ≡ none
      → (fetch_release_notes semver trim parse_url code upstream stream req.from_version
          req.to_version).1
        ≡ inr (n ∷ ns)
      → let set = set_of resource stream req.from_version req.to_version (map verbatim (n ∷ ns)) in
        let r = get_changes semver trim parse_url code upstream none asked stored store req in
        let seen : StreamState ChangeSet = fold_events (map changes_event r.events) in
        (r.error ≡ none) × (seen.result ≡ some set) × (seen.partials ≡ set.versions)
  unfolding get_changes
  get_changes-verbatim asked stored store req resource stream n ns found from to keyed missing
        fetched =
      let notes =
        fetch_release_notes semver trim parse_url code upstream stream req.from_version
          req.to_version in
      let whole : notes ≡ (notes.0, inr (n ∷ ns)) = ap (λ a. (notes.0, a)) fetched in
      let sent = notes.0 ++ map partial (map verbatim (n ∷ ns)) in
      let set = set_of resource stream req.from_version req.to_version (map verbatim (n ∷ ns)) in
      let put = put_set-keyed sent set store keyed in
      let folded = folded_result sent set in
      rw (found, from, to, missing, whole, from, put.0, put.1)
        (
          refl,
          folded.0,
          folded.1
              ∙ (partials_of-append notes.0 (map partial (map verbatim (n ∷ ns)))
                  ∙ ap₂ ◌++◌
                      (fetch_release_notes-partials semver trim parse_url code upstream stream
                        req.from_version req.to_version)
                      (partials_of-verbatim (map verbatim (n ∷ ns)))),
        )
