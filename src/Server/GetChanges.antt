-- ===== src/Server/GetChanges.antt =====
-- `resolveChangeSet` and `GetChanges` of internal/server/changes.go, with the parameters of Changes.
pub mod Stream
pub mod Again
use kdelta.Prelude.{
  ℕ, Bool, true, false, not, ◌||◌, List, [], ◌∷◌, ◌++◌, Option, none, some, ◌⊎◌, inl, inr, ◌>>=◌,
  if◌then◌else◌,
}
use kdelta.Text.{Text, js, truthy}
use kdelta.Query.{RpcError, connect_error, other_error, Codes}
use kdelta.Ref.{ResourceRef}
use kdelta.Api.Changes.{ChangeSet, VersionChanges}
use kdelta.Api.Version.{Version}
use kdelta.Api.Resource.{Resource, VersionStream}
use kdelta.Api.Service.{GetChangesResponse, RangeInput, result}
use kdelta.Server.{Answer}
use kdelta.Server.Store.{Store, put_change_set, change_set}
use kdelta.Server.Vers.{Semver}
use kdelta.Server.Scan.{resource_stream}
use kdelta.Server.Versions.{Upstream, current_of, stream_versions}
use kdelta.Server.Changes.{
  ReleaseNotes, Agent, Sending, report, structure_releases, fetch_release_notes,
}

-- What was sent, the change set or the error, and the cache that is left.
pub record Resolved : Type 0 where
  pub sent : List GetChangesResponse
  pub answer : Answer ChangeSet
  pub store : Option Store

unfoldable pub failure : List GetChangesResponse → RpcError → Option Store → Resolved
failure sent e store = record { sent = sent; answer = inl e; store = store }

-- `s.store.PutChangeSet`, where there is a store
unfoldable pub put_if_kept : List GetChangesResponse → ChangeSet → Store → Option Store → Resolved
unfolding failure
put_if_kept sent set s none = failure sent (other_error []) (some s)
put_if_kept sent set s (some t) = record { sent = sent; answer = inr set; store = some t }

unfoldable pub put_set : List GetChangesResponse → ChangeSet → Option Store → Resolved
unfolding put_if_kept put_change_set
put_set sent set none = record { sent = sent; answer = inr set; store = none }
put_set sent set (some s) = put_if_kept sent set s (put_change_set set s)

abbrev pub set_of : Resource → VersionStream → Text → Text → List VersionChanges → ChangeSet
set_of resource stream from_version to_version versions = record {
  package_key = resource.upstream;
  kind = stream.kind;
  from_version = from_version;
  to_version = to_version;
  versions = versions;
  migration_guides = [];
}

-- the change set that is cached, or else what is resolved
unfoldable pub cached_or : Option Store → Option ChangeSet → Resolved → Resolved
unfolding js
cached_or store none fresh = fresh
cached_or store (some set) fresh = record {
  sent = report (js "cache") (js "serving the cached change set") ∷ [];
  answer = inr set;
  store = store;
}

module _ (code : Codes) (agent : Option Agent) (partials : Bool) (resource : Resource)
    (stream : VersionStream) (from_version to_version : Text) (store : Option Store) where
  unfoldable pub set_from : List GetChangesResponse → Sending (List VersionChanges) → Resolved
  unfolding failure put_set
  set_from sent (more, inl e) = failure (sent ++ more) e store
  set_from sent (more, inr versions) =
      put_set (sent ++ more) (set_of resource stream from_version to_version versions) store

  unfoldable pub structure_from : Sending (List ReleaseNotes) → Resolved
  unfolding failure set_from structure_releases
  structure_from (sent, inl e) = failure sent e store
  structure_from (sent, inr []) = failure sent (connect_error code.not_found []) store
  structure_from (sent, inr (n ∷ ns)) =
      set_from sent (structure_releases partials agent resource.upstream (n ∷ ns))

module _ (semver : Semver) (trim : Text → Text) (parse_url : Text → Option (Text × Text))
    (code : Codes) (upstream : Option Upstream) (agent : Option Agent) (partials : Bool) where
  unfoldable pub resolve_range : Resource → VersionStream → Text → Text → Option Store → Resolved
  unfolding failure cached_or structure_from fetch_release_notes change_set js
  resolve_range resource stream from_version to_version store =
      if not (truthy from_version) || not (truthy to_version)
      then failure []
          (connect_error code.invalid_argument
            (js "could not determine the version range; pass from/to explicitly"))
          store
      else cached_or store
          (store >>= change_set resource.upstream stream.kind from_version to_version)
          (structure_from code agent partials resource stream from_version to_version store (
            fetch_release_notes semver trim parse_url code upstream stream from_version to_version))

  unfoldable pub resolve_latest :
      Resource → VersionStream → Text → Answer (List Version × Text) × Option Store → Resolved
  unfolding failure resolve_range
  resolve_latest resource stream from_version (inl e, store) = failure [] e store
  resolve_latest resource stream from_version (inr (all, latest), store) =
      resolve_range resource stream from_version latest store

  unfoldable pub resolve_stream :
      ℕ → ℕ → Option Store → Text → Text → Answer (Resource × VersionStream) → Resolved
  unfolding failure resolve_range resolve_latest stream_versions
  resolve_stream asked stored store from_version to_version (inl e) = failure [] e store
  resolve_stream asked stored store from_version to_version (inr (resource, stream)) =
      let from = if truthy from_version then from_version else current_of stream in
      if truthy to_version
      then resolve_range resource stream from to_version store
      else resolve_latest resource stream from
          (stream_versions semver trim code upstream asked stored store resource stream)

  -- `resolveChangeSet`; the upstream versions are cached on the way where no upper end is given.
  unfoldable pub resolve_change_set :
      ℕ → ℕ → Option Store → Option ResourceRef → Text → Text → Text → Resolved
  unfolding resolve_stream resource_stream
  resolve_change_set asked stored store target stream_id from_version to_version =
      resolve_stream asked stored store from_version to_version
        (resource_stream code store target stream_id)

-- The events of a stream, the error that ends it, if one does, and the cache that is left.
pub record Streaming : Type 0 where
  pub events : List GetChangesResponse
  pub error : Option RpcError
  pub store : Option Store

-- The end of `GetChanges`: the result is the last event.
unfoldable pub send_result : List GetChangesResponse → Answer ChangeSet → Option Store → Streaming
send_result sent (inl e) store = record { events = sent; error = some e; store = store }
send_result sent (inr set) store = record {
  events = sent ++ (result set ∷ []);
  error = none;
  store = store;
}

module _ (semver : Semver) (trim : Text → Text) (parse_url : Text → Option (Text × Text))
    (code : Codes) (upstream : Option Upstream) (agent : Option Agent) where
  -- `GetChanges`
  unfoldable pub get_changes : ℕ → ℕ → Option Store → RangeInput → Streaming
  unfolding resolve_change_set send_result
  get_changes asked stored store req =
      let r =
        resolve_change_set semver trim parse_url code upstream agent true asked stored store req.ref
          req.stream_id req.from_version req.to_version in
      send_result r.sent r.answer r.store
