-- ===== src/Tests/Detectors.antt =====
-- The registry and the detector of Helm, and scans with it, on two releases.
use kdelta.Prelude.{
  ℕ, Bool, true, false, List, [], ◌∷◌, none, some, ◌≡◌, ◌≢◌, ◌↔◌, ◌⊎◌, refl, inl, inr, map, filter,
  In, Distinct,
}
use kdelta.Text.{Text, js}
use kdelta.Api.Common.{Link}
use kdelta.Api.Resource.{Resource}
use kdelta.Api.Service.{ScanRequest, ScanResponse}
use kdelta.Query.{other_error}
use kdelta.Server.Store.{latest_scan}
use kdelta.Server.Store.Invalidation.{Write, written}
use kdelta.Server.Store.Refused.{refs_of}
use kdelta.Server.Scan.{list_resources}
use kdelta.Server.Scanning.{Detected, Cluster, scan}
use kdelta.ResourcesPage.{list_query}
use kdelta.Resolve.{resolve_upstreams}
use kdelta.Resolve.Scanned.{scan-resolved}
use kdelta.Detect.{Detector, Scope, run, selected}
use kdelta.Detect.Counted.{Names}
use kdelta.Detect.Chosen.{some_fail, total, run_lem}
use kdelta.Detect.Helm.{helm_detector}
use kdelta.Detect.Helm.FromRelease.{Release, ChartMetadata, resource_of, resource_from_release}
use kdelta.Detect.Helm.Newest.{pushed}
use kdelta.Detect.Helm.Kept.{IsKept}
use kdelta.Detect.Helm.Links.{IsOf, links_iff}
use kdelta.Detect.Helm.Scans.{helm_cluster, ref_text, IsComplete, helm-scan}
use kdelta.Tests.Cluster.{codes}
use kdelta.Tests.Web.{
  parse_url, web, client, times, release_at, chart_metadata, stored_releases, storage, ranged,
  ranges,
}

abbrev everywhere : Scope
everywhere = record { namespaces = []; selector = [] }

abbrev registry : List Detector
registry = helm_detector storage parse_url ranged ∷ []

run_lem_example :
    let only = js "helm" ∷ js "helm" ∷ [] in
    let chosen = filter (selected only) registry in
    ((some_fail everywhere chosen ≡ true) × (run registry everywhere only ≡ inl (other_error [])))
    ⊎ ((only ≢ [])
        × ¬ Names (js "helm" ∷ []) only
        × (run registry everywhere only ≡ inl (other_error [])))
    ⊎ ((some_fail everywhere chosen ≡ false)
        × ((only ≡ []) ⊎ Names (js "helm" ∷ []) only)
        × (run registry everywhere only ≡ inr (total everywhere chosen)))
run_lem_example = run_lem registry everywhere (js "helm" ∷ js "helm" ∷ []) (tt, tt)

abbrev first_release : Release
first_release = release_at (b'a' ∷ []) 1

abbrev home_link : Link
home_link = record { kind = 2; url = b's' ∷ []; title = [] }

abbrev first_resource : Resource
first_resource = resource_of parse_url first_release chart_metadata []

made : resource_from_release parse_url first_release ≡ some first_resource
unfolding resource_from_release
made = refl

links_iff_example :
    (meta : ChartMetadata) × (first_release.metadata ≡ some meta)
    × (In home_link first_resource.links ↔ IsOf parse_url meta.home meta.sources home_link)
links_iff_example = links_iff parse_url first_release first_resource home_link made

abbrev everything : ScanRequest
everything = record { namespaces = []; selector = []; detectors = [] }

abbrev found_before : Detected
found_before = record {
  resources = map (λ rel. resource_of parse_url rel chart_metadata []) stored_releases;
  edges = [];
}

-- A database that takes everything
abbrev never : ScanResponse → Bool
never res = false

abbrev fixed_cluster : Cluster
fixed_cluster = record { rest_config = none; detect = λ req. inr found_before }

scan-resolved_example :
    let r =
      scan codes never
        (resolve_upstreams web times (some client) [])
        (some fixed_cluster)
        (some (written []))
        everything in
    (rs : List Resource) × (refs_of rs ≡ refs_of found_before.resources)
    × ((¬ (
            (never (record { resources = rs; edges = [] }) ≡ false)
            × Distinct (refs_of found_before.resources))
          × (r.0 ≡ inl (other_error []))
          × ((more : List Write) × (r.1 ≡ some (written more))
              × (latest_scan (written more) ≡ latest_scan (written []))))
        ⊎ ((never (record { resources = rs; edges = [] }) ≡ false)
            × Distinct (refs_of found_before.resources)
            × (r.0 ≡ inr (record { resources = rs; edges = [] }))
            × (list_resources codes r.1 list_query
                ≡ inr (record { resources = rs; next_page_token = [] }))))
scan-resolved_example =
    scan-resolved codes never web times client [] fixed_cluster [] everything found_before refl refl

complete : (name : Text) (version : ℕ) → IsComplete (release_at name version)
complete name version = (refl, (chart_metadata, refl), ([], refl))

helm-scan_example :
    let r =
      scan codes never
        (resolve_upstreams web times (some client) [])
        (some (helm_cluster storage parse_url ranged))
        (some (written []))
        everything in
    (kept : List Release) × (rs : List Resource) × IsKept (pushed stored_releases []) kept
    × (refs_of rs ≡ map ref_text kept)
    × (((never (record { resources = rs; edges = [] }) ≡ true) × (r.0 ≡ inl (other_error [])))
        ⊎ ((never (record { resources = rs; edges = [] }) ≡ false)
            × (r.0 ≡ inr (record { resources = rs; edges = [] }))
            × (list_resources codes r.1 list_query
                ≡ inr (record { resources = rs; next_page_token = [] }))))
helm-scan_example =
    helm-scan storage parse_url ranged codes never web times client [] [] everything
      (pushed stored_releases []) ranges refl refl
      (complete (b'a' ∷ []) 1, (complete (b'a' ∷ []) 2, (complete (b'b' ∷ []) 1, tt)))
