-- ===== src/ResourcesPage/Opens.antt =====
-- The list of resources beside the server: from the scan that is saved to the detail that a row opens.
use kdelta.Prelude.{
  ℕ, Bool, true, List, [], ◌++◌, Option, some, ◌≡◌, refl, sym, ap, ◌∙◌, inr, filter, In,
}
use kdelta.Text.{Text, js}
use kdelta.Query.{Query, Codes}
use kdelta.Ref.{ResourceRef}
use kdelta.Ref.Validated.{IsValidated, validated-IsCanonical}
use kdelta.Api.Resource.{Resource}
use kdelta.Api.Service.{ScanResponse, ListVersionsResponse}
use kdelta.Server.Store.{Store, save_scan}
use kdelta.Server.Store.Invalidation.{Write, written, save_scan-write}
use kdelta.Server.Scan.{list_resources, get_resource, touches, offset_of}
use kdelta.Server.Scan.Paging.{list_resources_lem, last_page}
use kdelta.Server.Scan.Detail.{cached_scan-saved, get_resource-saved}
use kdelta.ResourcePage.{Inputs, detail_query}
use kdelta.ResourcesPage.{list_query, detail_href}
use kdelta.ResourcesPage.Rows.{row_opens_resource}

module _ (code : Codes) (fails : Bool) (ws : List Write) (scan : ScanResponse) (id : ℕ) (t : Store)
    (saved : save_scan fails scan (written ws) ≡ some (id, t)) where
  -- The listing of the page shows every resource of the scan.
  pub list_resources-saved :
      list_resources code (some t) list_query
      ≡ inr (record { resources = scan.resources; next_page_token = [] })
  list_resources-saved =
      list_resources_lem code (some t) 0 [] scan
        (cached_scan-saved code ws scan id t
          (save_scan-write fails scan (written ws) (id, t) saved))
        [] 0 (unfold offset_of in refl)
      ∙ ap inr (last_page scan.resources 0 0 refl)

  module _ (protocol_of : Text → Option Text) (encode : Text → Text)
      (versions_of : Resource → Query ListVersionsResponse) (search_ref : Text → Text)
      (decoded : (u : Text) → search_ref (js "/resource?ref=" ++ encode u) ≡ u) where
    -- After a scan is saved, whatever the server held before, the page lists every resource of the
    -- scan, and the request that a row's link leads to is answered with the resource of that row and
    -- the edges of the scan that touch it. The references keep to the rules that the server
    -- validates, and the router hands the page the component that the link encoded.
    pub row_opens_detail :
        (r : Resource) (q : ResourceRef) (i : Inputs)
        → In r scan.resources
        → r.ref ≡ some q
        → IsValidated q
        → i.canonical ≡ search_ref (detail_href protocol_of encode versions_of r)
        → (list_resources code (some t) list_query
            ≡ inr (record { resources = scan.resources; next_page_token = [] }))
          × ((detail_query i).1 ≡ true)
          × (get_resource code (some t) (detail_query i).0
              ≡ inr (record { resource = some r; edges = filter (touches (some q)) scan.edges }))
    row_opens_detail r q i there e valid opened =
        let asked : detail_query i ≡ (record { ref = some q }, true) =
          row_opens_resource protocol_of encode versions_of search_ref decoded r q i e
            (validated-IsCanonical valid) opened in
        rw (asked, sym e)
          (
            list_resources-saved,
            refl,
            get_resource-saved code ws scan id t r
                (save_scan-write fails scan (written ws) (id, t) saved) there,
          )
