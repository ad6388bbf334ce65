-- ===== src/Detect/Helm/FromRelease.antt =====
-- `resourceFromRelease` of internal/detect/helm/helm.go: a release as a resource.
use kdelta.Prelude.{
  ℕ, Bool, false, ◌&&◌, ◌||◌, List, [], ◌∷◌, ◌++◌, Option, none, some, ◌>>=◌, if◌then◌else◌,
  is_some, or_some,
}
use kdelta.Text.{Text, js, text_eq, truthy, split, decimal}
use kdelta.Url.{Url, trim_slashes}
use kdelta.Api.VersionKind
use kdelta.Api.VersioningScheme
use kdelta.Api.LinkKind
use kdelta.Api.ConditionStatus
use kdelta.Api.ProvenanceMethod
use kdelta.Api.Common.{Link, Provenance}
use kdelta.Api.Version.{VersionSource, github_releases}
use kdelta.Api.Changes.{ChangeSource, release_notes}
use kdelta.Api.Resource.{Resource, VersionStream}

-- `release.Release` and `chart.Metadata` of helm.sh/helm/v3, as far as they are read. A release has no
-- metadata where its chart or the chart's metadata is nil, and no status where its info is.
pub record ChartMetadata : Type 0 where
  pub name : Text
  pub version : Text
  pub app_version : Text
  pub home : Text
  pub sources : List Text

pub record Release : Type 0 where
  pub name : Text
  pub namespace : Text
  pub version : ℕ
  pub status : Option Text
  pub metadata : Option ChartMetadata

abbrev pub observed : Provenance
observed = record {
  method = ProvenanceMethod.observed;
  source_url = [];
  detector = js "helm";
  model = [];
}

abbrev pub is_http : Url → Bool
is_http u = (text_eq u.scheme (js "http") || text_eq u.scheme (js "https")) && truthy u.host

unfoldable pub safe_url : Option Url → Bool
unfolding text_eq js
safe_url none = false
safe_url (some u) = is_http u

-- The owner and the repository in the parts of a path
unfoldable pub repo_of : List Text → Option (Text × Text)
repo_of (owner ∷ repo ∷ rest) = if truthy owner && truthy repo then some (owner, repo) else none
repo_of _ = none

unfoldable pub repo_at : Option Url → Option (Text × Text)
unfolding text_eq js repo_of split trim_slashes
repo_at none = none
repo_at (some u) =
    if text_eq u.host (js "github.com") then repo_of (split b'/' (trim_slashes u.path)) else none

-- `releaseNotesChain`, where there is a repository
unfoldable pub release_notes_chain : Option (Text × Text) → List ChangeSource
unfolding js
release_notes_chain none = []
release_notes_chain (some (owner, repo)) =
    record {
      source = release_notes (record {
        repository_url = js "https://github.com/" ++ (owner ++ (b'/' ∷ repo));
        tag_pattern = [];
      });
    }
    ∷ []

unfoldable pub releases_of : Option (Text × Text) → Option VersionSource
releases_of none = none
releases_of (some (owner, repo)) =
    some (record {
      source = github_releases (record { owner = owner; repo = repo; tag_pattern = [] });
    })

unfoldable pub chart_stream : ChartMetadata → Option (Text × Text) → VersionStream
unfolding js release_notes_chain
chart_stream meta repo = record {
  id = js "chart";
  kind = VersionKind.chart;
  current = some (record { value = meta.version; digest = []; provenance = some observed });
  constraint = [];
  scheme = VersioningScheme.semver;
  source = none;
  changes = release_notes_chain repo;
  source_provenance = none;
}

unfoldable pub app_stream : ChartMetadata → Option (Text × Text) → VersionStream
unfolding js release_notes_chain releases_of
app_stream meta repo = record {
  id = js "app";
  kind = VersionKind.app;
  current = some (record { value = meta.app_version; digest = []; provenance = some observed });
  constraint = [];
  scheme = VersioningScheme.loose_semver;
  source = releases_of repo;
  changes = release_notes_chain repo;
  source_provenance = if is_some repo then some observed else none;
}

abbrev pub link_to : ℕ → Text → Link
link_to kind url = record { kind = kind; url = url; title = [] }

module _ (parse_url : Text → Option Url) where
  -- `isSafeHTTPURL`
  unfoldable pub is_safe_http_url : Text → Bool
  unfolding safe_url
  is_safe_http_url raw = safe_url (parse_url raw)

  -- `githubRepo`
  unfoldable pub github_repo : List Text → Option (Text × Text)
  unfolding repo_at
  github_repo [] = none
  github_repo (source ∷ sources) = or_some (repo_at (parse_url source)) (github_repo sources)

  abbrev home_link : Text → List Link
  home_link home = if is_safe_http_url home then link_to LinkKind.homepage home ∷ [] else []

  -- The links of a chart
  unfoldable pub links_of : Text → List Text → List Link
  unfolding is_safe_http_url
  links_of home [] = home_link home
  links_of home (source ∷ sources) =
      let rest = links_of home sources in
      if is_safe_http_url source then link_to LinkKind.source source ∷ rest else rest

  -- `resourceFromRelease`, with what the release holds
  unfoldable pub resource_of : Release → ChartMetadata → Text → Resource
  unfolding github_repo links_of chart_stream app_stream js text_eq decimal
  resource_of rel meta status =
      let repo = github_repo meta.sources in
      record {
        ref = some (record { detector = js "helm"; namespace = rel.namespace; name = rel.name });
        display_name = rel.name;
        upstream = some (record { system = js "helm"; name = meta.name; registry_url = [] });
        links = links_of meta.home meta.sources;
        streams =
            chart_stream meta repo
            ∷ (if truthy meta.app_version then app_stream meta repo ∷ [] else []);
        objects =
            record {
              api_version = js "v1";
              kind = js "Secret";
              namespace = rel.namespace;
              name = js "sh.helm.release.v1." ++ (rel.name ++ (js ".v" ++ decimal rel.version));
              uid = [];
            }
            ∷ [];
        labels = [];
        conditions =
            record {
              type = js "Deployed";
              status =
                  if text_eq status (js "deployed")
                  then ConditionStatus.is_true
                  else ConditionStatus.is_false;
              reason = status;
              message = [];
            }
            ∷ [];
        provenance = some observed;
      }

  -- `resourceFromRelease`: `none` where it dereferences nil, which panics.
  unfoldable pub resource_from_release : Release → Option Resource
  unfolding resource_of
  resource_from_release rel =
      rel.metadata >>= (λ meta. rel.status >>= (λ status. some (resource_of rel meta status)))
