-- ===== src/Upstream/Sources.antt =====
-- The three fetches of the client: GitHub's releases, the search of Artifact Hub and the index of a
-- chart repository. The texts of a server are its bytes.
pub mod Pages
use mathlib.Core.Option
use kdelta.Prelude.{
  ℕ, zero, suc, ◌*◌, ◌+◌, Bool, true, false, not, ◌&&◌, ◌||◌, List, [], ◌∷◌, ◌++◌, Option, none,
  some, ◌==◌, ltb, int_eq, pos, if◌then◌else◌, filter, length,
}
use kdelta.Text.{Text, js, text_eq, truthy, decimal}
use kdelta.Url.{trim_slash}
use kdelta.Upstream.Fetch.{
  GithubRelease, ArtifactHubPackage, HelmChartVersion, Web, Client, Trip, ◌>>=◌, give, get, Log,
  then_with,
}

-- `githubBase` and `artifactHubBase`
abbrev pub github_base : Client → Text
github_base c =
    if truthy c.github_base_url then trim_slash c.github_base_url else js "https://api.github.com"

abbrev pub artifact_hub_base : Client → Text
artifact_hub_base c =
    if truthy c.artifact_hub_base_url
    then trim_slash c.artifact_hub_base_url
    else js "https://artifacthub.io"

abbrev pub max_pages : ℕ
max_pages = 3

abbrev pub mebibyte : ℕ
mebibyte = 0x100000

abbrev pub artifact_hub_search_limit : ℕ
artifact_hub_search_limit = 25

abbrev pub artifact_hub_kind_helm : ℕ
artifact_hub_kind_helm = 0

-- `HelmChart`
abbrev pub helm_chart : ArtifactHubPackage → Bool
helm_chart p = int_eq p.repository.kind (pos artifact_hub_kind_helm)

-- `safeVersionString`: a control character is one byte.
unfoldable pub control_free : Text → Bool
control_free [] = true
control_free (c ∷ s) = not (ltb c 0x20 || c == 0x7f) && control_free s

unfoldable pub safe_version_string : Text → Bool
unfolding control_free
safe_version_string s = truthy s && not (ltb 128 (length s)) && control_free s

-- The chart's entry of an index
unfoldable pub entries_of :
    Text → List (Text × List HelmChartVersion) → Option (List HelmChartVersion)
unfolding text_eq
entries_of chart [] = none
entries_of chart ((name, entries) ∷ index) =
    if text_eq name chart then some entries else entries_of chart index

abbrev pub safe_entry : HelmChartVersion → Bool
safe_entry v =
    safe_version_string v.version
    && (not (truthy v.app_version) || safe_version_string v.app_version)

abbrev pub published : GithubRelease → Bool
published r = not r.draft

-- What is decoded of a body that was fetched
unfoldable pub decoded : {A : Type 0} → (Text → Option A) → Log × Option Text → Log × Option A
decoded decode (log, none) = (log, none)
decoded decode (log, some body) = (log, decode body)

-- The versions that an index lists of a chart
unfoldable pub safe_entries :
    Text → Option (List (Text × List HelmChartVersion)) → Option (List HelmChartVersion)
unfolding entries_of safe_version_string
safe_entries chart none = none
safe_entries chart (some index) = Option.map (filter safe_entry) (entries_of chart index)

-- The last page is one that is not full.
abbrev pub turn_page :
    List GithubRelease
    → List GithubRelease
    → (List GithubRelease → Trip (List GithubRelease))
    → Trip (List GithubRelease)
turn_page listed all rest = if ltb (length listed) 100 then give (some all) else rest all

module _ (web : Web) (client : Client) where
  -- One page of the releases
  unfoldable pub github_page : Text → Text → ℕ → Trip (List GithubRelease)
  unfolding get trim_slash js decimal decoded
  github_page owner repo page log = decoded web.decode_releases (
      get web client (20 * mebibyte)
        (github_base client
          ++ (js "/repos/"
              ++ (web.path_escape owner
                  ++ (b'/'
                      ∷ (web.path_escape repo
                          ++ (js "/releases?per_page=100&page=" ++ decimal page))))))
        log)

  -- The loop of `GitHubReleases`, from a page on, with the pages left; the releases so far come first.
  unfoldable pub github_pages : Text → Text → ℕ → ℕ → List GithubRelease → Trip (List GithubRelease)
  unfolding github_page
  github_pages owner repo zero page releases = give (some releases)
  github_pages owner repo (suc left) page releases = do
    listed ← github_page owner repo page
    turn_page listed (releases ++ filter published listed) (github_pages owner repo left (suc page))

  -- `GitHubReleases`
  unfoldable pub github_releases : Text → Text → Trip (List GithubRelease)
  unfolding github_pages
  github_releases owner repo = github_pages owner repo max_pages 1 []

  -- `ArtifactHubSearchCharts`
  unfoldable pub artifact_hub_search_charts : Text → Trip (List ArtifactHubPackage)
  unfolding get trim_slash js decimal decoded
  artifact_hub_search_charts name log = decoded web.decode_search (
      get web client (2 * mebibyte)
        (artifact_hub_base client
          ++ (js "/api/v1/packages/search?ts_query_web="
              ++ (web.query_escape name
                  ++ (js "&kind="
                      ++ (decimal artifact_hub_kind_helm
                          ++ (js "&facets=false&limit=" ++ decimal artifact_hub_search_limit))))))
        log)

  -- `HelmChartVersions`
  unfoldable pub helm_chart_versions : Text → Text → Trip (List HelmChartVersion)
  unfolding get trim_slash js decoded safe_entries
  helm_chart_versions repo_url chart log =
      decoded (λ body. safe_entries chart (web.decode_index body))
        (get web client (50 * mebibyte) (trim_slash repo_url ++ js "/index.yaml") log)
