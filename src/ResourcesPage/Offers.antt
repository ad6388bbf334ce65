-- ===== src/ResourcesPage/Offers.antt =====
-- What the list of resources lets the user do.
use mathlib.Core.List.{append-nil}
use mathlib.Core.Bool.{or-false}
use kdelta.Prelude.{
  List, [], ◌∷◌, Option, ◌≡◌, refl, if◌then◌else◌, ltb, is_some, filter, ◌==◌, length,
}
use kdelta.Text.{Text, js}
use kdelta.View.{each, element, text, variant, outline, class_name}
use kdelta.View.Offers.{offers}
use kdelta.View.Inert.{
  offers-each, offers-show_if, offers-show_some, offers-show_some_else, offers-if_else,
}
use kdelta.Query.{
  Codes, RpcError, Query, Status, pending, failed, success, Mutation, payload, error, is_pending,
}
use kdelta.Links.{safe_href}
use kdelta.Api.Common.{Link}
use kdelta.Api.Resource.{Resource}
use kdelta.Api.Service.{ListVersionsResponse, ListResourcesResponse, ScanResponse}
use kdelta.ResourcesPage.{
  scan, source_stream, behind_of, behind_status, behind_badge, is_no_scan_yet, scan_button,
  stream_badge, upstream_text, deployed_condition, status_badge, error_box, link_anchor, link_cell,
  resource_row, resource_table, list_error, resources_page,
}

behind_of-offers : (v : ListVersionsResponse) → offers (behind_of v) ≡ []
unfolding behind_of
behind_of-offers v = offers-if_else (ltb 0 v.versions_behind) _ _ refl refl

behind_status-offers : (s : Status ListVersionsResponse) → offers (behind_status s) ≡ []
unfolding behind_status
behind_status-offers pending = refl
behind_status-offers (failed e last) = refl
behind_status-offers (success v) = behind_of-offers v

behind_badge-offers :
    (r : Resource) (q : Query ListVersionsResponse) → offers (behind_badge r q) ≡ []
unfolding behind_badge
behind_badge-offers r q =
    offers-show_some_else (source_stream r) _ _ (λ s. behind_status-offers q.status) refl

error_box-offers : (e : RpcError) → offers (error_box e) ≡ []
unfolding error_box
error_box-offers e = refl

module _ (protocol_of : Text → Option Text) where
  link_cell-offers : (ls : List Link) → offers (link_cell protocol_of ls) ≡ []
  unfolding link_cell link_anchor
  link_cell-offers ls =
      let safe = filter (λ (l : Link). is_some (safe_href protocol_of l.url)) ls in
      offers-if_else (length safe == 0)
        (element "span" (class_name "text-sm text-muted-foreground" ∷ []) (text (js "—")))
        (each safe (link_anchor protocol_of)) refl
        (offers-each safe (link_anchor protocol_of) (λ l. refl))

  module _ (encode : Text → Text) (versions_of : Resource → Query ListVersionsResponse) where
    resource_row-offers :
        (r : Resource) → offers (resource_row protocol_of encode versions_of r) ≡ []
    unfolding resource_row
    resource_row-offers r = simp (
      offers-each r.streams stream_badge (λ s. unfold stream_badge in refl),
      behind_badge-offers r (versions_of r),
      offers-show_some_else r.upstream upstream_text (text (js "—"))
          (λ u. unfold upstream_text in refl) refl,
      link_cell-offers r.links,
      offers-show_some_else (deployed_condition r) status_badge
          (element "Badge" (variant outline ∷ []) (text (js "unknown")))
          (λ c. unfold status_badge in refl) refl,
    )

    table-offers :
        (d : ListResourcesResponse) → offers (resource_table protocol_of encode versions_of d) ≡ []
    unfolding resource_table
    table-offers d =
        offers-each d.resources (resource_row protocol_of encode versions_of) resource_row-offers

    list_error-offers :
        (code : Codes) (e : RpcError)
        → offers (list_error protocol_of encode versions_of code e) ≡ []
    unfolding list_error
    list_error-offers code e = offers-if_else (is_no_scan_yet code e) _ _ refl (error_box-offers e)

    -- Whatever the queries return, the list offers a scan exactly while none is under way, and it
    -- offers nothing else.
    pub resources_page-offers :
        (code : Codes) (q : Query ListResourcesResponse) (m : Mutation ScanResponse)
        → offers (resources_page protocol_of encode versions_of code q m)
          ≡ (if m.under_way then [] else scan ∷ [])
    unfolding resources_page scan_button
    resources_page-offers code q m = simp (
      or-false,
      append-nil,
      offers-show_some m.failure error_box error_box-offers,
      offers-show_if (is_pending q)
          (element "p" (class_name "text-sm text-muted-foreground" ∷ []) (text (js "Loading…")))
          refl,
      offers-show_some (error q) (list_error protocol_of encode versions_of code)
          (list_error-offers code),
      offers-show_some (payload q) (resource_table protocol_of encode versions_of) table-offers,
    )
