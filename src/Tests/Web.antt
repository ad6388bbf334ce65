-- ===== src/Tests/Web.antt =====
-- A web with one chart repository, and a Helm storage with two releases: data for the tests.
use kdelta.Prelude.{ℕ, true, false, List, [], ◌∷◌, Option, none, some, Shuffled, pos}
use kdelta.Text.{Text, text_eq}
use kdelta.Url.{Url}
use kdelta.Upstream.Ip.{Ip}
use kdelta.Upstream.Fetch.{
  ArtifactHubPackage, GithubRelease, HelmChartVersion, Web, Client, response,
}
use kdelta.Resolve.{Times}
use kdelta.Resolve.Match.{Deployed}
use kdelta.Detect.Helm.FromRelease.{Release, ChartMetadata}
use kdelta.Detect.Helm.Kept.{Row}

-- Every text that is not empty is an https URL, whose host it is.
abbrev pub parse_url : Text → Option Url
parse_url t = some (record {
  scheme = b'h' ∷ b't' ∷ b't' ∷ b'p' ∷ b's' ∷ [];
  host = t;
  hostname = t;
  path = [];
  raw_query = [];
  has_user = false;
})

abbrev pub official_one : ArtifactHubPackage
official_one = record {
  name = b'c' ∷ [];
  normalized_name = b'c' ∷ [];
  official = true;
  production_organizations_count = pos 2;
  repository = record {
    url = b'u' ∷ [];
    name = b'r' ∷ [];
    kind = pos 0;
    verified_publisher = true;
    official = false;
  };
}

abbrev pub rival : ArtifactHubPackage
rival = record official_one { official = false }

abbrev pub entry : HelmChartVersion
entry = record {
  version = b'1' ∷ [];
  app_version = [];
  deprecated = false;
  home = b's' ∷ [];
  sources = [];
}

abbrev pub tagged : GithubRelease
tagged = record {
  tag = b'1' ∷ b'3' ∷ [];
  name = [];
  body = [];
  html_url = [];
  prerelease = false;
  draft = false;
}

abbrev drafted : GithubRelease
drafted = record tagged { draft = true }

-- A public address, at which every request is answered.
abbrev pub address : Ip
address = 93 ∷ 184 ∷ 216 ∷ 34 ∷ []

abbrev pub web : Web
web = record {
  parse_url = parse_url;
  parse_ip = λ t. none;
  to_lower = λ t. t;
  equal_fold = text_eq;
  path_escape = λ t. t;
  query_escape = λ t. t;
  addresses = λ log url. (127 ∷ 0 ∷ 0 ∷ 1 ∷ []) ∷ address ∷ [];
  network = λ log url ip. some (response 200 url);
  decode_releases = λ body. some (tagged ∷ drafted ∷ []);
  decode_search = λ body. some (official_one ∷ []);
  decode_index = λ body. some ((b'c' ∷ [], entry ∷ []) ∷ []);
}

abbrev pub client : Client
client = record {
  github_base_url = [];
  artifact_hub_base_url = [];
  insecure_private_egress = false;
}

abbrev pub times : Times
times = record { asked = λ k. some 0; stored = λ k. some 5; late = λ k. false }

abbrev pub deployed : Deployed
deployed = record {
  name = b'c' ∷ [];
  chart_version = b'1' ∷ [];
  app_version = [];
  identity = (b's' ∷ []) ∷ [];
}

abbrev pub chart_metadata : ChartMetadata
chart_metadata = record {
  name = b'c' ∷ [];
  version = b'1' ∷ [];
  app_version = [];
  home = b's' ∷ [];
  sources = [];
}

abbrev pub release_at : Text → ℕ → Release
release_at name version = record {
  name = name;
  namespace = b'd' ∷ [];
  version = version;
  status = some [];
  metadata = some chart_metadata;
}

-- Two revisions of one release, and another release
abbrev pub stored_releases : List Release
stored_releases =
    release_at (b'a' ∷ []) 1 ∷ release_at (b'a' ∷ []) 2 ∷ release_at (b'b' ∷ []) 1 ∷ []

abbrev pub storage : Text → Option (List Release)
storage namespace = some stored_releases

-- The first two rows of a map, the other way round
abbrev pub ranged : List Row → List Row
ranged [] = []
ranged (r ∷ []) = r ∷ []
ranged (r ∷ s ∷ rows) = s ∷ r ∷ rows

same : (rows : List Row) → Shuffled rows rows
same [] = Shuffled.done
same (r ∷ rows) = Shuffled.skip r (same rows)

pub ranges : (rows : List Row) → Shuffled rows (ranged rows)
ranges [] = same []
ranges (r ∷ []) = same (r ∷ [])
ranges (r ∷ s ∷ rows) = Shuffled.swap r s (same rows)
