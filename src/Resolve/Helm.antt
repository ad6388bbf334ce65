-- ===== src/Resolve/Helm.antt =====
-- internal/resolve/helm.go: the resolution of one package.
use kdelta.Prelude.{List, [], ◌∷◌, Option, none, some, if◌then◌else◌}
use kdelta.Text.{Text, truthy}
use kdelta.Url.{trim_slash}
use kdelta.Upstream.Fetch.{
  ArtifactHubPackage, HelmChartVersion, Web, Client, Log, Trip, ◌>>=◌, give, allowed,
}
use kdelta.Upstream.Sources.{artifact_hub_search_charts, helm_chart_versions}
use kdelta.Resolve.Match.{Deployed, MatchLevel, no_match, verify}
use kdelta.Resolve.Choice.{VerifiedCandidate, shortlist, decide}

abbrev pub add_level :
    ArtifactHubPackage → MatchLevel → List VerifiedCandidate → List VerifiedCandidate
add_level p no_match results = results
add_level p level results = record { pkg = p; level = level } ∷ results

module _ (web : Web) (client : Client) (d : Deployed) where
  -- The result of one candidate, in front of the others; a fetch that fails is no match.
  abbrev pub add_result :
      ArtifactHubPackage
      → Option (List HelmChartVersion)
      → List VerifiedCandidate
      → List VerifiedCandidate
  add_result p none results = results
  add_result p (some entries) results = add_level p (verify web d entries) results

  unfoldable pub verify_all : List ArtifactHubPackage → Log → Log × List VerifiedCandidate
  unfolding helm_chart_versions verify
  verify_all [] log = (log, [])
  verify_all (p ∷ ps) log =
      let r = helm_chart_versions web client p.repository.url d.name log in
      let rest = verify_all ps r.0 in (rest.0, add_result p r.1 rest.1)

  -- The URL of the winner, where it may be fetched
  unfoldable pub winning_url : Option ArtifactHubPackage → Option Text
  unfolding trim_slash allowed
  winning_url none = none
  winning_url (some p) =
      let url = trim_slash p.repository.url in if allowed web client url then some url else none

  unfoldable pub resolve_among : List ArtifactHubPackage → Trip Text
  unfolding verify_all decide winning_url shortlist
  resolve_among packages log =
      let r = verify_all (shortlist web client d.name packages) log in
      (r.0, winning_url (decide d r.1))

  -- `resolveHelm`
  unfoldable pub resolve_helm : Trip Text
  unfolding resolve_among artifact_hub_search_charts
  resolve_helm =
      if truthy d.chart_version
      then artifact_hub_search_charts web client d.name >>= resolve_among
      else give none
