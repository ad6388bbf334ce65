-- ===== src/Resolve/Match.antt =====
-- internal/resolve/helm.go: what a deployed release says of itself, and whether the index of a
-- repository agrees. The Go library's `url.Parse` and `strings.ToLower` are parameters.
use kdelta.Prelude.{
  ℕ, Bool, true, false, not, ◌&&◌, ◌||◌, List, [], ◌∷◌, ◌++◌, Option, none, some, ◌==◌,
  if◌then◌else◌, find,
}
use kdelta.Text.{Text, js, text_eq, truthy}
use kdelta.Url.{Url, trim_slash}
use kdelta.Api.VersionKind
use kdelta.Api.LinkKind
use kdelta.Api.Common.{Link, PackageKey}
use kdelta.Api.Resource.{Resource, VersionStream}
use kdelta.Server.Versions.{current_of}
use kdelta.Upstream.Fetch.{HelmChartVersion, Web}

-- `deployed`; the set of its URLs is a list.
pub record Deployed : Type 0 where
  pub name : Text
  pub chart_version : Text
  pub app_version : Text
  pub identity : List Text

-- The getters of a key that may be nil
abbrev pub key_or_empty : Option PackageKey → PackageKey
key_or_empty none = record { system = []; name = []; registry_url = [] }
key_or_empty (some k) = k

-- The first version of a kind that is not empty, after the one found so far.
unfoldable pub first_version : ℕ → Text → List VersionStream → Text
first_version kind found [] = found
first_version kind found (s ∷ ss) =
    first_version kind (if s.kind == kind && not (truthy found) then current_of s else found) ss

abbrev pub is_nil : List Text → Bool
is_nil [] = true
is_nil (t ∷ ts) = false

unfoldable pub contains : Text → List Text → Bool
unfolding text_eq
contains t [] = false
contains t (u ∷ us) = text_eq u t || contains t us

abbrev add : Option Text → List Text → List Text
add none ts = ts
add (some t) ts = t ∷ ts

abbrev pub identifies : Link → Bool
identifies link = link.kind == LinkKind.homepage || link.kind == LinkKind.source

module _ (web : Web) where
  unfoldable pub canonical_of : Option Url → Option Text
  unfolding text_eq js trim_slash
  canonical_of none = none
  canonical_of (some u) =
      if (text_eq u.scheme (js "http") || text_eq u.scheme (js "https")) && truthy u.host
      then some (
          web.to_lower u.host
          ++ (trim_slash u.path ++ (if truthy u.raw_query then b'?' ∷ u.raw_query else [])))
      else none

  -- `canonicalURL`
  unfoldable pub canonical_url : Text → Option Text
  unfolding canonical_of
  canonical_url raw = canonical_of (web.parse_url raw)

  unfoldable pub canonical_urls : List Text → List Text
  unfolding canonical_url
  canonical_urls [] = []
  canonical_urls (t ∷ ts) = add (canonical_url t) (canonical_urls ts)

  unfoldable pub identity_of : List Link → List Text
  unfolding canonical_url
  identity_of [] = []
  identity_of (link ∷ links) =
      if identifies link
      then add (canonical_url link.url) (identity_of links)
      else identity_of links

  -- `deployedFrom`
  unfoldable pub deployed_from : Resource → Deployed
  unfolding first_version identity_of
  deployed_from r = record {
    name = (key_or_empty r.upstream).name;
    chart_version = first_version VersionKind.chart [] r.streams;
    app_version = first_version VersionKind.app [] r.streams;
    identity = identity_of r.links;
  }

pub data MatchLevel : Type 0 where
  no_match : MatchLevel
  version_match : MatchLevel
  strong_match : MatchLevel

-- Whether one of the remote URLs is in the identity.
unfoldable pub overlaps : List Text → List Text → Bool
unfolding contains
overlaps identity [] = false
overlaps identity (c ∷ cs) = contains c identity || overlaps identity cs

unfoldable pub compare_identity : List Text → List Text → MatchLevel
unfolding overlaps
compare_identity identity remote =
    if is_nil identity || is_nil remote
    then version_match
    else (if overlaps identity remote then strong_match else no_match)

module _ (web : Web) (d : Deployed) where
  -- The entry of the deployed version
  unfoldable pub entry_of : List HelmChartVersion → Option HelmChartVersion
  unfolding text_eq
  entry_of entries = find (λ (e : HelmChartVersion). text_eq e.version d.chart_version) entries

  unfoldable pub grade : Option HelmChartVersion → MatchLevel
  unfolding text_eq canonical_urls compare_identity
  grade none = no_match
  grade (some entry) =
      if truthy d.app_version
        && truthy entry.app_version
        && not (text_eq d.app_version entry.app_version)
      then no_match
      else compare_identity d.identity (canonical_urls web (entry.home ∷ entry.sources))

  -- `verify`
  unfoldable pub verify : List HelmChartVersion → MatchLevel
  unfolding entry_of grade
  verify entries = grade (entry_of entries)
