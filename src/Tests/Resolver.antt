-- ===== src/Tests/Resolver.antt =====
-- The resolver and the detectors, on one chart repository.
use kdelta.Prelude.{
  ◌≤◌, true, List, [], ◌∷◌, none, some, ◌≡◌, ◌↔◌, ◌⊎◌, refl, map, filter, length, All, In, IfSome,
  arith,
}
use kdelta.Api.Resource.{Resource}
use kdelta.Server.Store.{empty_store}
use kdelta.Upstream.Ip.{is_public_ip}
use kdelta.Upstream.Ip.Blocked.{Outside, number, blocks, is_public_ip_iff}
use kdelta.Upstream.Fetch.{ArtifactHubPackage, allowed}
use kdelta.Upstream.Fetch.Guarded.{IsGuarded}
use kdelta.Upstream.Sources.{artifact_hub_search_charts}
use kdelta.Resolve.{upstreams, Package}
use kdelta.Resolve.Choice.{VerifiedCandidate, is_strong, decide}
use kdelta.Resolve.Match.{is_nil, strong_match}
use kdelta.Resolve.Choice.Winner.{WinsByMatch, WinsByVersion, decide_iff}
use kdelta.Resolve.Helm.{resolve_helm}
use kdelta.Resolve.Bounded.{upstreams-Guards}
use kdelta.Resolve.Group.{Outcomes, enriched}
use kdelta.Resolve.Enriched.{Earned, upstreams-enriched}
use kdelta.Resolve.Verified.{IsVerified, resolve_helm-IsVerified}
use kdelta.Detect.Helm.FromRelease.{resource_of}
use kdelta.Tests.Web.{
  parse_url, official_one, rival, web, client, times, deployed, chart_metadata, stored_releases,
}

is_public_ip_iff_example :
    ((is_public_ip (169 ∷ 254 ∷ 169 ∷ 254 ∷ []) ≡ true)
      ↔ All (Outside (number 169 254 169 254)) blocks)
    × (is_public_ip (0 ∷ 0 ∷ 0 ∷ 0 ∷ 0 ∷ 0 ∷ 0 ∷ 0 ∷ 0 ∷ 0 ∷ 255 ∷ 255 ∷ 169 ∷ 254 ∷ 169 ∷ 254 ∷ [])
        ≡ is_public_ip (169 ∷ 254 ∷ 169 ∷ 254 ∷ []))
is_public_ip_iff_example =
    is_public_ip_iff 169 254 169 254 (omega arith) (omega arith) (omega arith) (omega arith)

-- The releases as they are detected
abbrev detected : List Resource
detected = map (λ rel. resource_of parse_url rel chart_metadata []) stored_releases

upstreams-Guards_example :
    let log = (upstreams web client times detected (some empty_store) []).log in
    All (IsGuarded web) log × (length log ≤ 600)
upstreams-Guards_example = upstreams-Guards web client times detected (some empty_store) refl

upstreams-enriched_example :
    (f : Outcomes) × ((upstreams web client times detected none []).resources
      ≡ map (enriched f) detected)
    × ((k : Package) → IfSome (Earned web client times detected none k) (f k))
upstreams-enriched_example = upstreams-enriched web client times detected none []

resolved : (resolve_helm web client deployed []).1 ≡ some (b'u' ∷ [])
unfolding resolve_helm is_public_ip
resolved = refl

resolve_helm-IsVerified_example :
    (allowed web client (b'u' ∷ []) ≡ true)
    × ((packages : List ArtifactHubPackage) × ((artifact_hub_search_charts web client deployed.name
            []).1
          ≡ some packages)
        × ((p : ArtifactHubPackage) × In p packages × IsVerified web client deployed (b'u' ∷ []) p))
resolve_helm-IsVerified_example =
    resolve_helm-IsVerified web client deployed [] (b'u' ∷ []) resolved

abbrev strong_results : List VerifiedCandidate
strong_results =
    record { pkg = rival; level = strong_match }
    ∷ record { pkg = official_one; level = strong_match }
    ∷ []

decide_iff_example : (decide deployed strong_results ≡ some official_one) ↔ (
    WinsByMatch official_one strong_results
    ⊎ ((length (filter is_strong strong_results) ≡ 0)
        × (is_nil deployed.identity ≡ true)
        × WinsByVersion official_one strong_results))
decide_iff_example = decide_iff deployed official_one strong_results
