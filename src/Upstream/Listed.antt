-- ===== src/Upstream/Listed.antt =====
-- The client as internal/server/versions.go calls it: `ListVersions` on what the web answers.
use mathlib.Core.Path.{subst}
use kdelta.Prelude.{
  ℕ, true, List, [], ◌∷◌, Option, none, some, ◌≡◌, refl, inl, inr, ◌>>=◌, map, All, All-In,
  All-of_In, Option-cases, arith,
}
use mathlib.Core.Bool.{and-eq-true_iff}
use kdelta.Text.{Text}
use kdelta.Query.{Codes, other_error}
use kdelta.Api.Version.{
  Version, SourceCase, github_releases, helm_repository, oci_registry, container_tags, git_tags,
  unset,
}
use kdelta.Api.Resource.{Resource, VersionStream}
use kdelta.Api.Service.{ListVersionsRequest, ListVersionsResponse}
use kdelta.Server.{Answer}
use kdelta.Server.Store.{Store, version_list}
use kdelta.Server.Scan.{resource_stream}
use kdelta.Server.Vers.{Semver}
use kdelta.Server.Vers.Sorted.{In-filter}
use kdelta.Server.Vers.Precedence.{IsPrecedence}
use kdelta.Server.Versions.{
  Release, Chart, Upstream, version_cache_ttl, source_of, release_version, chart_version,
  fetch_source, fetch_versions, list_versions,
}
use kdelta.Server.Versions.Listing.{list_versions_lem}
use kdelta.Upstream.Fetch.{GithubRelease, HelmChartVersion, Web, Client, Log}
use kdelta.Upstream.Sources
use kdelta.Upstream.Sources.{safe_version_string, helm_chart_versions}
use kdelta.Upstream.Sources.Pages.{
  helm_chart_versions-IsSafe, github_releases-IsPublished, IsPublished, IsSafe,
}

abbrev pub listed_release : GithubRelease → Release
listed_release r = record {
  tag = r.tag;
  prerelease = r.prerelease;
  html_url = r.html_url;
  body = r.body;
}

abbrev pub listed_chart : HelmChartVersion → Chart
listed_chart v = record { version = v.version; deprecated = v.deprecated }

abbrev pub answer_of : {A B : Type 0} → (A → B) → Option (List A) → Answer (List B)
answer_of f none = inl (other_error [])
answer_of f (some xs) = inr (map f xs)

-- The client, after some connections
abbrev pub client_upstream : Web → Client → Log → Upstream
client_upstream web client log = record {
  github_releases_of =
      λ owner repo. answer_of listed_release (Sources.github_releases web client owner repo log).1;
  chart_versions_of =
      λ url chart. answer_of listed_chart (helm_chart_versions web client url chart log).1;
}

-- What is shown of a source: the tag of a release that is no draft and that stood on a page of the
-- repository's releases as the web answered it, or a version of a chart that is not empty, not longer
-- than 128 bytes and free of control characters.
abbrev pub IsShown : Web → Client → SourceCase → Version → Type 0
IsShown web client (github_releases s) v =
    (r : GithubRelease) × IsPublished web client s.owner s.repo r × (v.value ≡ r.tag)
IsShown web client _ v = safe_version_string v.value ≡ true

releases-IsShown :
    (web : Web) (client : Client) (owner repo : Text) (rs : List GithubRelease)
    → All (IsPublished web client owner repo) rs
    → All
        (λ (v : Version).
          (r : GithubRelease) × IsPublished web client owner repo r × (v.value ≡ r.tag))
        (map release_version (map listed_release rs))
releases-IsShown web client owner repo [] h = tt
releases-IsShown web client owner repo (r ∷ rs) h =
    ((r, h.0, refl), releases-IsShown web client owner repo rs h.1)

charts-IsShown :
    (vs : List HelmChartVersion)
    → All IsSafe vs
    → All
        (λ (v : Version). safe_version_string v.value ≡ true)
        (map chart_version (map listed_chart vs))
charts-IsShown [] h = tt
charts-IsShown (v ∷ vs) h = (((and-eq-true_iff _ _).0 h.0).0, charts-IsShown vs h.1)

module _ (web : Web) (client : Client) (log : Log) (code : Codes) where
  fetch_source-IsShown :
      (source : SourceCase) (fetched : List Version)
      → fetch_source code (client_upstream web client log) source ≡ inr fetched
      → All (IsShown web client source) fetched
  unfolding fetch_source
  fetch_source-IsShown (github_releases s) fetched h =
      let answer = (Sources.github_releases web client s.owner s.repo log).1 in
      let published_all = github_releases-IsPublished web client s.owner s.repo log in
      elim (Option-cases answer) [
        | inl broken ↦
            let failed : inl (other_error []) ≡ inr fetched = rw broken at h in
            absurd (ground arith)
        | inr (rs, read) ↦
            let given : inr (map release_version (map listed_release rs)) ≡ inr fetched =
              rw read at h in
            let same : map release_version (map listed_release rs) ≡ fetched = cc in
            subst (All (IsShown web client (github_releases s))) same
              (releases-IsShown web client s.owner s.repo rs (rw read at published_all))
      ]
  fetch_source-IsShown (helm_repository s) fetched h =
      let answer = (helm_chart_versions web client s.repository_url s.chart log).1 in
      let safe_all = helm_chart_versions-IsSafe web client s.repository_url s.chart log in
      elim (Option-cases answer) [
        | inl broken ↦
            let failed : inl (other_error []) ≡ inr fetched = rw broken at h in
            absurd (ground arith)
        | inr (vs, read) ↦
            let given : inr (map chart_version (map listed_chart vs)) ≡ inr fetched =
              rw read at h in
            let same : map chart_version (map listed_chart vs) ≡ fetched = cc in
            subst (All (IsShown web client (helm_repository s))) same
              (charts-IsShown vs (rw read at safe_all))
      ]
  fetch_source-IsShown (oci_registry s) fetched h = absurd (ground arith)
  fetch_source-IsShown (container_tags s) fetched h = absurd (ground arith)
  fetch_source-IsShown (git_tags s) fetched h = absurd (ground arith)
  fetch_source-IsShown unset fetched h = absurd (ground arith)

  -- Whatever the web answers: where the versions of a stream are not cached and are fetched,
  -- `ListVersions` answers. Each version that it lists for a stream of GitHub is the tag of a release
  -- that is no draft and that stood on a page of the releases of the stream's own repository, as the
  -- web answered it; for a chart it is not empty, holds at most 128 bytes and no control character.
  pub list_versions-IsShown :
      (semver : Semver) (precedence : IsPrecedence semver) (trim : Text → Text) (asked stored : ℕ)
      (store : Option Store) (req : ListVersionsRequest) (resource : Resource)
      (stream : VersionStream) (fetched : List Version)
      → resource_stream code store req.ref req.stream_id ≡ inr (resource, stream)
      → (store >>= version_list asked resource.upstream stream.kind version_cache_ttl) ≡ none
      → fetch_versions code (some (client_upstream web client log)) stream ≡ inr fetched
      → (res : ListVersionsResponse) × ((list_versions semver trim code
            (some (client_upstream web client log))
            asked
            stored
            store
            req).0
          ≡ inr res)
        × All (IsShown web client (source_of stream)) res.versions
  unfolding fetch_versions
  list_versions-IsShown semver precedence trim asked stored store req resource stream fetched found
        missing answered =
      let (res, answer, ascending, members, behind) =
        list_versions_lem semver precedence trim code (some (client_upstream web client log)) asked
          stored store req resource stream fetched found missing answered in
      let shown = fetch_source-IsShown (source_of stream) fetched answered in
      (
        res,
        answer,
        All-of_In (IsShown web client (source_of stream)) res.versions (λ v there.
            All-In (IsShown web client (source_of stream)) fetched v shown
              ((In-filter _ v fetched).0 ((members v).0 there)).0),
      )
