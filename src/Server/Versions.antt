-- ===== src/Server/Versions.antt =====
-- internal/server/versions.go: the versions of a stream, from the cache or from upstream. The client
-- of the upstream services is a parameter, which answers with what they list; so are `Semver` and
-- the trimming of Vers. A count of versions stays far below the bound of its type.
pub mod Listing
pub mod Latest
pub mod Cached
use kdelta.Prelude.{
  ℕ, suc, ◌*◌, Bool, true, false, not, ◌&&◌, ◌||◌, List, [], ◌∷◌, ◌++◌, Option, none, some, ◌⊎◌,
  inl, inr, ◌>>=◌, ◌==◌, if◌then◌else◌, get_or, map,
}
use kdelta.Text.{Text, js, truthy}
use kdelta.Query.{RpcError, connect_error, Codes}
use kdelta.Api.Common.{PackageKey}
use kdelta.Api.LinkKind
use kdelta.Api.Version.{
  Version, VersionSource, SourceCase, github_releases, helm_repository, oci_registry,
  container_tags, git_tags, unset,
}
use kdelta.Api.Resource.{Resource, VersionStream, DetectedVersion}
use kdelta.Api.Service.{ListVersionsRequest, ListVersionsResponse}
use kdelta.Server.{Answer}
use kdelta.Server.Store.{Store, put_version_list, version_list}
use kdelta.Server.Vers.{Semver, is_lt, is_gt, compare_ok, sort_ascending}
use kdelta.Server.Scan.{resource_stream}

-- What the upstream services list.
pub record Release : Type 0 where
  pub tag : Text
  pub prerelease : Bool
  pub html_url : Text
  pub body : Text

pub record Chart : Type 0 where
  pub version : Text
  pub deprecated : Bool

pub record Upstream : Type 0 where
  pub github_releases_of : Text → Text → Answer (List Release)
  pub chart_versions_of : Text → Text → Answer (List Chart)

-- `versionCacheTTL`, in nanoseconds
abbrev pub version_cache_ttl : ℕ
version_cache_ttl = 3_600_000_000_000

abbrev pub release_version : Release → Version
release_version r = record {
  value = r.tag;
  prerelease = r.prerelease;
  deprecated = false;
  digest = [];
  links = record { kind = LinkKind.releases; url = r.html_url; title = [] } ∷ [];
}

abbrev pub chart_version : Chart → Version
chart_version c = record {
  value = c.version;
  prerelease = false;
  deprecated = c.deprecated;
  digest = [];
  links = [];
}

abbrev map_answer : {A B : Type 0} → (A → B) → Answer A → Answer B
map_answer f (inl e) = inl e
map_answer f (inr a) = inr (f a)

-- `stream.GetSource().GetSource()`
abbrev pub source_of : VersionStream → SourceCase
source_of stream = elim stream.source [ none ↦ unset | some s ↦ s.source ]

-- `stream.GetCurrent().GetValue()`
abbrev pub current_of : VersionStream → Text
current_of stream = get_or (stream.current >>= (λ (c : DetectedVersion). some c.value)) []

-- The newest version that is no prerelease, in a list that ascends; `latest` is the one so far.
unfoldable pub last_stable : Text → List Version → Text
last_stable latest [] = latest
last_stable latest (v ∷ vs) = last_stable (if v.prerelease then latest else v.value) vs

unfoldable pub last_value : List Version → Text
last_value [] = []
last_value (v ∷ []) = v.value
last_value (v ∷ w ∷ vs) = last_value (w ∷ vs)

unfoldable pub latest_of : List Version → Text
unfolding last_stable last_value
latest_of sorted =
    if truthy (last_stable [] sorted) then last_stable [] sorted else last_value sorted

module _ (code : Codes) where
  -- `fetchVersions`, by the source
  unfoldable pub fetch_source : Upstream → SourceCase → Answer (List Version)
  fetch_source upstream (github_releases s) =
      map_answer (map release_version) (upstream.github_releases_of s.owner s.repo)
  fetch_source upstream (helm_repository s) =
      map_answer (map chart_version) (upstream.chart_versions_of s.repository_url s.chart)
  fetch_source upstream unset = inl (connect_error code.failed_precondition [])
  fetch_source upstream (oci_registry s) = inl (connect_error code.unimplemented [])
  fetch_source upstream (container_tags s) = inl (connect_error code.unimplemented [])
  fetch_source upstream (git_tags s) = inl (connect_error code.unimplemented [])

  unfoldable pub fetch_versions : Option Upstream → VersionStream → Answer (List Version)
  unfolding fetch_source js
  fetch_versions none stream = inl (
      connect_error code.failed_precondition
        (js "upstream fetching is not configured on this server"))
  fetch_versions (some upstream) stream = fetch_source upstream (source_of stream)

module _ (semver : Semver) (trim : Text → Text) where
  -- What is kept of a list that was fetched, and the cache with it.
  unfoldable pub keep_fetched :
      ℕ
      → Option Store
      → Resource
      → VersionStream
      → Answer (List Version)
      → Answer (List Version × Text) × Option Store
  unfolding sort_ascending latest_of put_version_list
  keep_fetched stored store resource stream (inl e) = (inl e, store)
  keep_fetched stored store resource stream (inr fetched) =
      let sorted = sort_ascending semver trim fetched stream.scheme in
      let latest = latest_of sorted in
      (
        inr (sorted, latest),
        store >>= (λ (s : Store). some (
            put_version_list stored resource.upstream stream.kind
              (record { versions = sorted; current = []; latest = latest; versions_behind = 0 })
              s)),
      )

  -- The rest of `streamVersions`, where the cache answered or not.
  unfoldable pub versions_from :
      Option ListVersionsResponse
      → Answer (List Version × Text) × Option Store
      → Option Store
      → Answer (List Version × Text) × Option Store
  versions_from none fresh store = fresh
  versions_from (some cached) fresh store = (inr (cached.versions, cached.latest), store)

  -- The loop of `ListVersions`: the versions that are not below the current one, and how many
  -- stable ones are above it.
  unfoldable pub from_current : Text → ℕ → List Version → List Version × ℕ
  unfolding compare_ok
  from_current current scheme [] = ([], 0)
  from_current current scheme (v ∷ vs) =
      let rest = from_current current scheme vs in
      let c = compare_ok semver trim v.value current scheme in
      if not c.1 || is_lt c.0
      then rest
      else (v ∷ rest.0, if is_gt c.0 && not v.prerelease then suc rest.1 else rest.1)

  -- The response of `ListVersions`
  unfoldable pub listed_versions :
      VersionStream → Answer (List Version × Text) → Answer ListVersionsResponse
  unfolding from_current
  listed_versions stream (inl e) = inl e
  listed_versions stream (inr (all, latest)) =
      let kept = from_current (current_of stream) stream.scheme all in
      inr (record {
        versions = kept.0;
        current = current_of stream;
        latest = latest;
        versions_behind = kept.1;
      })

  module _ (code : Codes) (upstream : Option Upstream) where
    -- `streamVersions`: the cache is asked at one time, and written at a later one.
    unfoldable pub stream_versions :
        ℕ
        → ℕ
        → Option Store
        → Resource
        → VersionStream
        → Answer (List Version × Text) × Option Store
    unfolding keep_fetched versions_from fetch_versions version_list
    stream_versions asked stored store resource stream =
        versions_from (store >>= version_list asked resource.upstream stream.kind version_cache_ttl)
          (keep_fetched stored store resource stream (fetch_versions code upstream stream)) store

    unfoldable pub versions_in :
        ℕ
        → ℕ
        → Option Store
        → Answer (Resource × VersionStream)
        → Answer ListVersionsResponse × Option Store
    unfolding stream_versions listed_versions
    versions_in asked stored store (inl e) = (inl e, store)
    versions_in asked stored store (inr (resource, stream)) =
        let r = stream_versions asked stored store resource stream in
        (listed_versions stream r.0, r.1)

    -- `ListVersions`, with the cache that it leaves
    unfoldable pub list_versions :
        ℕ → ℕ → Option Store → ListVersionsRequest → Answer ListVersionsResponse × Option Store
    unfolding resource_stream versions_in
    list_versions asked stored store req =
        versions_in asked stored store (resource_stream code store req.ref req.stream_id)
