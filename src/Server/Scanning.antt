-- ===== src/Server/Scanning.antt =====
-- `Scan` of internal/server/scan.go. What the detectors find, whether the cluster can be reached, and
-- what the resolver of upstreams makes of the resources and of the cache are parameters.
pub mod Listed
use kdelta.Prelude.{ℕ, Bool, List, [], Option, none, some, ◌⊎◌, inl, inr}
use kdelta.Text.{Text, js}
use kdelta.Query.{RpcError, connect_error, other_error, Codes}
use kdelta.Api.Resource.{Resource, ResourceEdge}
use kdelta.Api.Service.{ScanRequest, ScanResponse}
use kdelta.Server.{Answer}
use kdelta.Server.Store.{Store, save_scan}

-- `detect.Result`
pub record Detected : Type 0 where
  pub resources : List Resource
  pub edges : List ResourceEdge

-- The detectors, once the configuration of the cluster was read, which can fail with a text.
pub record Cluster : Type 0 where
  pub rest_config : Option Text
  pub detect : ScanRequest → Answer Detected

unfoldable pub saved_or :
    ScanResponse → Store → Option (ℕ × Store) → Answer ScanResponse × Option Store
saved_or scan s none = (inl (other_error []), some s)
saved_or scan s (some (id, t)) = (inr scan, some t)

-- `SaveScan`, where there is a store
unfoldable pub keep_scan : Bool → ScanResponse → Option Store → Answer ScanResponse × Option Store
unfolding saved_or save_scan
keep_scan fails scan none = (inr scan, none)
keep_scan fails scan (some s) = saved_or scan s (save_scan fails scan s)

-- Which responses cannot be saved, as they cannot be marshalled or the database has an error, is given.
module _ (code : Codes) (fails : ScanResponse → Bool)
    (resolve_upstreams : Option Store → List Resource → List Resource × Option Store) where
  unfoldable pub scan_detected : Option Store → Answer Detected → Answer ScanResponse × Option Store
  unfolding keep_scan
  scan_detected store (inl e) = (inl e, store)
  scan_detected store (inr found) =
      let r = resolve_upstreams store found.resources in
      let scan : ScanResponse = record { resources = r.0; edges = found.edges } in
      keep_scan (fails scan) scan r.1

  unfoldable pub scan_cluster :
      Option Text → Answer Detected → Option Store → Answer ScanResponse × Option Store
  unfolding scan_detected
  scan_cluster (some failure) found store =
      (inl (connect_error code.failed_precondition failure), store)
  scan_cluster none found store = scan_detected store found

  -- `Scan`
  unfoldable pub scan :
      Option Cluster → Option Store → ScanRequest → Answer ScanResponse × Option Store
  unfolding scan_cluster js
  scan none store req = (
    inl (connect_error code.failed_precondition (js "scanning is not configured on this server")),
    store,
  )
  scan (some cluster) store req = scan_cluster cluster.rest_config (cluster.detect req) store
