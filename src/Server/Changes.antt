-- ===== src/Server/Changes.antt =====
-- internal/server/changes.go: the change set of a range of versions, and the events that are streamed
-- on the way. `url.Parse` of the Go library is a parameter, which gives the host and the path, and
-- so is the agent, which answers with what it reports on the way and its result.
pub mod Range
use kdelta.Prelude.{
  ℕ, suc, Bool, true, false, not, ◌&&◌, ◌||◌, List, [], ◌∷◌, ◌++◌, Option, none, some, ◌⊎◌, inl,
  inr, ◌>>=◌, ◌==◌, if◌then◌else◌, filter, map, is_some,
}
use kdelta.Text.{Text, js, truthy, text_eq, split}
use kdelta.Query.{RpcError, connect_error, other_error, Codes}
use kdelta.Ref.{ResourceRef}
use kdelta.Api.ChangeType
use kdelta.Api.ProvenanceMethod
use kdelta.Api.Common.{PackageKey}
use kdelta.Api.Changes.{ChangeSource, ReleaseNotesSource, release_notes, ChangeSet, VersionChanges}
use kdelta.Api.Resource.{Resource, VersionStream}
use kdelta.Api.Service.{GetChangesResponse, RangeInput, Progress, progress, partial, result}
use kdelta.Server.{Answer}
use kdelta.Server.Store.{Store, put_change_set, change_set}
use kdelta.Server.Vers.{Semver, is_lt, is_gt, compare, compare_ok, slice_stable}
use kdelta.Server.Scan.{resource_stream}
use kdelta.Server.Versions.{Upstream, Release, current_of, stream_versions}

-- `agent.ReleaseNotes`
pub record ReleaseNotes : Type 0 where
  pub version : Text
  pub body : Text
  pub url : Text

-- What the agent's extraction ends with: `no_credentials` is `ErrNoCredentials`.
pub data Extraction : Type 0 where
  extracted : List VersionChanges → Extraction
  no_credentials : Extraction
  failed : RpcError → Extraction

-- `ExtractChanges`, with what it reports through its two callbacks, in order.
pub record Agent : Type 0 where
  pub extract_changes :
      Option PackageKey → List ReleaseNotes → List (Progress ⊎ VersionChanges) × Extraction

-- What a handler sent, with what it returns.
abbrev pub Sending : Type 0 → Type 0
Sending A = List GetChangesResponse × Answer A

abbrev pub report : Text → Text → GetChangesResponse
report stage message = progress (record { stage = stage; message = message })

abbrev pub reported : Progress ⊎ VersionChanges → GetChangesResponse
reported (inl p) = progress p
reported (inr v) = partial v

-- The change source that `fetchReleaseNotes` takes: the first of that kind.
unfoldable pub notes_source : List ChangeSource → Option ReleaseNotesSource
notes_source [] = none
notes_source (s ∷ ss) = elim s.source [ release_notes n ↦ some n | _ ↦ notes_source ss ]

-- `strings.Trim(path, "/")`
unfoldable pub trim_left : Text → Text
trim_left [] = []
trim_left (c ∷ t) = let rest = trim_left t in if c == b'/' then rest else c ∷ t

unfoldable pub trim_right : Text → Text
trim_right [] = []
trim_right (c ∷ t) = elim (trim_right t) [
  | [] ↦ if c == b'/' then [] else c ∷ []
  | d ∷ rest ↦ c ∷ d ∷ rest
]

unfoldable pub first_two : List Text → Option (Text × Text)
first_two (a ∷ b ∷ _) = some (a, b)
first_two _ = none

-- `githubOwnerRepo`, by what the URL parses to
unfoldable pub owner_repo : Option (Text × Text) → Option (Text × Text)
unfolding js text_eq split trim_left trim_right first_two
owner_repo none = none
owner_repo (some (host, path)) =
    if text_eq host (js "github.com")
    then first_two (split b'/' (trim_right (trim_left path)))
    else none

-- The entry of a version whose notes are not structured.
unfoldable pub verbatim : ReleaseNotes → VersionChanges
unfolding js
verbatim n = record {
  version = n.version;
  changes =
      record {
        type = ChangeType.other;
        summary = js "Release notes (unstructured)";
        detail = n.body;
        affected_paths = [];
        references = [];
      }
      ∷ [];
  provenance =
      some (record {
        method = ProvenanceMethod.fetched;
        source_url = n.url;
        detector = [];
        model = [];
      });
}

-- `structureReleases`; the partial entries are sent where the caller takes them.
unfoldable pub verbatim_releases : Bool → List ReleaseNotes → Sending (List VersionChanges)
unfolding verbatim
verbatim_releases partials releases =
    let versions = map verbatim releases in
    ((if partials then map partial versions else []), inr versions)

unfoldable pub structured :
    Bool → List ReleaseNotes → List GetChangesResponse → Extraction → Sending (List VersionChanges)
unfolding verbatim_releases js
structured partials releases sent (extracted versions) = (sent, inr versions)
structured partials releases sent (failed e) = (sent, inl e)
structured partials releases sent no_credentials =
    let rest = verbatim_releases partials releases in
    (
      sent
          ++ (report (js "extracting")
                (js "no Claude API credentials - returning verbatim release notes")
              ∷ rest.0),
      rest.1,
    )

-- What the agent reports where the partial entries are not taken.
unfoldable pub heard : Bool → List (Progress ⊎ VersionChanges) → List GetChangesResponse
heard true es = map reported es
heard false [] = []
heard false (inl p ∷ es) = progress p ∷ heard false es
heard false (inr v ∷ es) = heard false es

unfoldable pub structure_releases :
    Bool → Option Agent → Option PackageKey → List ReleaseNotes → Sending (List VersionChanges)
unfolding structured verbatim_releases heard
structure_releases partials none package_key releases = verbatim_releases partials releases
structure_releases partials (some agent) package_key releases =
    let r = agent.extract_changes package_key releases in
    structured partials releases (heard partials r.0) r.1

abbrev pub notes_of : Release → ReleaseNotes
notes_of r = record { version = r.tag; body = r.body; url = r.html_url }

module _ (semver : Semver) (trim : Text → Text) where
  -- The releases in the range (from, to], prereleases apart.
  abbrev pub in_range : Text → Text → ℕ → Release → Bool
  in_range from_version to_version scheme r =
      let a = compare_ok semver trim r.tag from_version scheme in
      let b = compare_ok semver trim r.tag to_version scheme in
      not (r.prerelease || not a.1 || not b.1 || not (is_gt a.0) || is_gt b.0)

  abbrev pub older_notes : ℕ → ReleaseNotes → ReleaseNotes → Bool
  older_notes scheme a b = is_lt (compare semver trim a.version b.version scheme)

  unfoldable pub select_releases : Text → Text → ℕ → List Release → List ReleaseNotes
  unfolding slice_stable
  select_releases from_version to_version scheme releases =
      slice_stable (older_notes scheme)
        (map notes_of (filter (in_range from_version to_version scheme) releases))

module _ (semver : Semver) (trim : Text → Text) (parse_url : Text → Option (Text × Text))
    (code : Codes) where
  unfoldable pub selected_from :
      Text → Text → ℕ → Answer (List Release) → Answer (List ReleaseNotes)
  unfolding select_releases
  selected_from from_version to_version scheme (inl e) = inl e
  selected_from from_version to_version scheme (inr releases) =
      inr (select_releases semver trim from_version to_version scheme releases)

  unfoldable pub fetch_repository :
      Upstream → Option (Text × Text) → Text → Text → ℕ → Sending (List ReleaseNotes)
  unfolding selected_from js
  fetch_repository upstream none from_version to_version scheme =
      ([], inl (connect_error code.failed_precondition []))
  fetch_repository upstream (some (owner, repo)) from_version to_version scheme = (
    report (js "fetching") (js "reading release notes from " ++ (owner ++ (b'/' ∷ repo))) ∷ [],
    selected_from from_version to_version scheme (upstream.github_releases_of owner repo),
  )

  unfoldable pub fetch_notes :
      Upstream → Option ReleaseNotesSource → Text → Text → ℕ → Sending (List ReleaseNotes)
  unfolding fetch_repository owner_repo js
  fetch_notes upstream none from_version to_version scheme = (
    [],
    inl (
        connect_error code.failed_precondition (
          js
            "this stream has no supported change source - see docs/ROADMAP.md for planned sources")),
  )
  fetch_notes upstream (some n) from_version to_version scheme =
      fetch_repository upstream (owner_repo (parse_url n.repository_url)) from_version to_version
        scheme

  -- `fetchReleaseNotes`
  unfoldable pub fetch_release_notes :
      Option Upstream → VersionStream → Text → Text → Sending (List ReleaseNotes)
  unfolding fetch_notes notes_source js
  fetch_release_notes none stream from_version to_version = (
    [],
    inl (
        connect_error code.failed_precondition
          (js "upstream fetching is not configured on this server")),
  )
  fetch_release_notes (some upstream) stream from_version to_version =
      fetch_notes upstream (notes_source stream.changes) from_version to_version stream.scheme
