-- ===== src/Server/Scanning/Listed.antt =====
-- `Scan` and then `ListResources` of internal/server/scan.go.
use kdelta.Prelude.{
  ℕ, Bool, true, false, [], List, Option, none, some, ◌≡◌, refl, ◌⊎◌, inl, inr, is_some, Distinct,
  Option-cases, arith,
}
use kdelta.Query.{other_error, Codes}
use kdelta.Api.Resource.{Resource}
use kdelta.Api.Service.{ScanRequest, ScanResponse}
use kdelta.Server.Store.{Store, save_scan}
use kdelta.Server.Store.Invalidation.{Write, written}
use kdelta.Server.Store.Refused.{refs_of, save_scan_iff}
use kdelta.Server.Scan.{list_resources}
use kdelta.Server.Scanning.{Detected, Cluster, scan}
use kdelta.ResourcesPage.{list_query}
use kdelta.ResourcesPage.Opens.{list_resources-saved}

module _ (code : Codes) (fails : ScanResponse → Bool)
    (resolve_upstreams : Option Store → List Resource → List Resource × Option Store) where
  -- Where the detectors answer, and the resolver leaves a cache that writes lead to: either the
  -- response cannot be marshalled or written, or two resources are written as the same reference, and
  -- the scan fails and changes nothing; or neither, the scan answers with the resources and their
  -- edges, and the listing that the UI fetches next shows just these.
  pub scan-listed :
      (cluster : Cluster) (store : Option Store) (ws : List Write) (req : ScanRequest)
      (found : Detected) (resources : List Resource)
      → cluster.rest_config ≡ none
      → cluster.detect req ≡ inr found
      → (let resolved : List Resource × Option Store = (resources, some (written ws)) in
          resolve_upstreams store found.resources ≡ resolved)
      → let answer : ScanResponse = record { resources = resources; edges = found.edges } in
        let r = scan code fails resolve_upstreams (some cluster) store req in
        (¬ ((fails answer ≡ false) × Distinct (refs_of resources))
          × (r.0 ≡ inl (other_error []))
          × (r.1 ≡ some (written ws)))
        ⊎ ((fails answer ≡ false)
            × Distinct (refs_of resources)
            × (r.0 ≡ inr answer)
            × (list_resources code r.1 list_query
                ≡ inr (record { resources = resources; next_page_token = [] })))
  unfolding scan
  scan-listed cluster store ws req found resources reached detected resolved =
      let answer : ScanResponse = record { resources = resources; edges = found.edges } in
      let accepted = save_scan_iff (fails answer) ws answer in
      elim (Option-cases (save_scan (fails answer) answer (written ws))) [
        | inl refused ↦ inl (
            rw (reached, detected, resolved, refused)
              (
                (λ fine.
                    let nothing : is_some {A = ℕ × Store} none ≡ true =
                      rw refused at accepted.1 fine in
                    absurd (ground arith)),
                refl,
                refl,
              ))
        | inr ((id, t), saved) ↦ inr (
            rw (reached, detected, resolved, saved)
              (
                (accepted.0 (rw saved refl)).0,
                (accepted.0 (rw saved refl)).1,
                refl,
                list_resources-saved code (fails answer) ws answer id t saved,
              ))
      ]
