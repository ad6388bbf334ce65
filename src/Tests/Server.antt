-- ===== src/Tests/Server.antt =====
-- The cached scan on a small cluster, and the list of resources in front of it.
use kdelta.Prelude.{
  true, false, [], ◌∷◌, none, some, ◌≡◌, ◌≢◌, refl, ◌⊎◌, inl, inr, filter, arith, All, In,
}
use kdelta.Query.{Query, pending, RpcError, connect_error}
use kdelta.Api.Resource.{Resource}
use kdelta.Api.Service.{ListVersionsResponse, ScanResponse}
use kdelta.Server.{ref_or_empty}
use kdelta.Server.Store.{latest_scan, impact}
use kdelta.Server.Store.Invalidation.{written, save_scan_lem}
use kdelta.Server.Scan.{cached_scan, list_resources, get_resource, touches}
use kdelta.Server.Scan.Paging.{follow, follow-resources}
use kdelta.Server.Scan.Detail.{get_resource-answers}
use kdelta.ResourcePage.{Inputs, detail_query}
use kdelta.ResourcesPage.{list_query, detail_href}
use kdelta.ResourcesPage.Opens.{row_opens_detail}
use kdelta.Tests.Cluster.{
  codes, node, node-IsValidated, pod, node_resource, second_scan, before, cache, saved, cached,
}
use kdelta.Tests.Lists.{protocol_of, encode, search_ref, decoded}

abbrev versions_of : Resource → Query ListVersionsResponse
versions_of r = record { status = pending; is_fetching = false }

save_scan_lem_example :
    (latest_scan cache ≡ some (2, second_scan))
    × (impact (some pod) [] [] [] cache ≡ none)
    × (cache.version_lists ≡ (written before).version_lists)
    × (cache.change_sets ≡ (written before).change_sets)
    × (cache.resolutions ≡ (written before).resolutions)
save_scan_lem_example = save_scan_lem false before second_scan 2 cache (some pod) [] [] [] saved

follow-resources_example : follow codes (some cache) 1 (b'a' ∷ []) 3 [] ≡ some second_scan.resources
follow-resources_example =
    follow-resources codes (some cache) 1 (b'a' ∷ []) second_scan cached (omega arith)

get_resource-answers_example :
    ((e : RpcError) × (cached_scan codes (some cache) ≡ inl e)
      × (get_resource codes (some cache) (record { ref = some pod }) ≡ inl e))
    ⊎ ((s : ScanResponse) × (cached_scan codes (some cache) ≡ inr s)
        × All (λ r. ref_or_empty r.ref ≢ ref_or_empty (some pod)) s.resources
        × (get_resource codes (some cache) (record { ref = some pod }) ≡ inl (connect_error 5 [])))
    ⊎ ((s : ScanResponse) × (cached_scan codes (some cache) ≡ inr s)
        × ((r : Resource) × In r s.resources
            × (ref_or_empty r.ref ≡ ref_or_empty (some pod))
            × (get_resource codes (some cache) (record { ref = some pod })
                ≡ inr (record { resource = some r; edges = filter (touches (some pod)) s.edges }))))
get_resource-answers_example = get_resource-answers codes (some cache) (some pod)

abbrev opened_row : Inputs
opened_row = record {
  canonical = search_ref (detail_href protocol_of encode versions_of node_resource);
  detail = record { status = pending; is_fetching = false };
  versions = record { status = pending; is_fetching = false };
  changes = record { status = pending; is_fetching = false };
  impact = record { status = pending; is_fetching = false };
}

row_opens_detail_example :
    (list_resources codes (some cache) list_query
      ≡ inr (record { resources = second_scan.resources; next_page_token = [] }))
    × ((detail_query opened_row).1 ≡ true)
    × (get_resource codes (some cache) (detail_query opened_row).0
        ≡ inr (record {
          resource = some node_resource;
          edges = filter (touches (some node)) second_scan.edges;
        }))
row_opens_detail_example =
    row_opens_detail codes false before second_scan 2 cache saved protocol_of encode versions_of
      search_ref decoded node_resource node opened_row (inl refl) refl node-IsValidated refl
