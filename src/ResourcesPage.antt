-- ===== src/ResourcesPage.antt =====
-- apps/app-ui/app/page.tsx: the list of detected resources. A row's query of versions
-- (`BehindBadge`) is an input, by resource; the encoding of URL components is the browser's.
pub mod Links
pub mod Rows
pub mod Offers
pub mod Scan
pub mod Opens
use kdelta.Prelude.{
  ℕ, ◌<◌, Bool, true, false, not, ◌&&◌, List, [], ◌∷◌, ◌++◌, Option, none, some, if◌then◌else◌,
  ◌==◌, ltb, length, get_or, is_some, find, filter, ◌>>=◌,
}
use kdelta.Text.{Text, js, text_eq}
use kdelta.View.{
  Attr, class_name, attr, key, value, title, href, variant, default, secondary, destructive,
  outline, disabled, on_click, Node, empty, text, number, ◌<>◌, element, each, show_if, show_some,
}
use kdelta.Query.{
  RpcError, connect_error, other_error, shown, Codes, Query, Status, pending, failed, success,
  Mutation, payload, error, is_pending,
}
use kdelta.Ref.{ref_to_string}
use kdelta.Links.{safe_href, link_label}
use kdelta.Enums.{or_else}
use kdelta.Api.Common.{Link, PackageKey}
use kdelta.Api.Resource.{Resource, VersionStream, Condition, DetectedVersion}
use kdelta.Api.Service.{
  ListVersionsRequest, ListVersionsResponse, ListResourcesRequest, ListResourcesResponse,
  ScanRequest, ScanResponse,
}
use kdelta.Api.ConditionStatus
use kdelta.ResourcePage.{has_source}

pub data Msg : Type 0 where
  scan : Msg

-- `refetchType` of the query library's `invalidateQueries`; `never` is "none".
pub data RefetchType : Type 0 where
  active inactive all never : RefetchType

-- What a handler or a callback calls.
pub data Command : Type 0 where
  mutate : ScanRequest → Command
  invalidate_queries : RefetchType → Command

-- the input of the query of the list: a message without fields
abbrev pub list_query : ListResourcesRequest
list_query = record { page_size = 0; page_token = []; selector = [] }

-- `onClick` of the button
unfoldable pub update : Msg → List Command
update scan = mutate (record { namespaces = []; selector = []; detectors = [] }) ∷ []

-- `onSuccess` of the mutation
unfoldable pub on_success : List Command
on_success = invalidate_queries all ∷ []

-- `resource.streams.find((s) => s.source?.source.case !== undefined)`
unfoldable pub source_stream : Resource → Option VersionStream
unfolding has_source
source_stream r = find has_source r.streams

-- the query of `BehindBadge`: its input, and whether it is enabled
unfoldable pub behind_query : Resource → ListVersionsRequest × Bool
unfolding source_stream
behind_query r = (
  record { ref = r.ref; stream_id = get_or (source_stream r >>= (λ s. some s.id)) [] },
  is_some (source_stream r),
)

unfoldable pub behind_of : ListVersionsResponse → Node Msg
unfolding js
behind_of v =
    if ltb 0 v.versions_behind
    then element "Badge" (variant destructive ∷ title (js "latest " ++ v.latest) ∷ [])
        (number v.versions_behind <> text (js " behind"))
    else element "Badge" (variant secondary ∷ []) (text (js "up to date"))

unfoldable pub behind_status : Status ListVersionsResponse → Node Msg
unfolding js behind_of
behind_status pending =
    element "span" (class_name "text-sm text-muted-foreground" ∷ []) (text (js "…"))
behind_status (failed e last) =
    element "Badge" (variant outline ∷ title (shown e) ∷ []) (text (js "unknown"))
behind_status (success v) = behind_of v

unfoldable pub behind_badge : Resource → Query ListVersionsResponse → Node Msg
unfolding source_stream js behind_status
behind_badge r versions =
    show_some (source_stream r) (λ stream. behind_status versions.status)
      (element "span" (class_name "text-sm text-muted-foreground" ∷ []) (text (js "—")))

unfoldable pub is_no_scan_yet : Codes → RpcError → Bool
is_no_scan_yet code (connect_error c shown) = c == code.failed_precondition
is_no_scan_yet code (other_error shown) = false

unfoldable pub scan_button : Mutation ScanResponse → Node Msg
unfolding js
scan_button m =
    element "Button" (on_click scan ∷ disabled m.under_way ∷ [])
      (text (if m.under_way then js "Scanning…" else js "Scan cluster"))

unfoldable pub stream_badge : VersionStream → Node Msg
unfolding js
stream_badge s = element "Badge" (key s.id ∷ variant secondary ∷ []) (
    text s.id
    <> text (js "@")
    <> text (get_or (s.current >>= (λ (c : DetectedVersion). some c.value)) (js "?")))

unfoldable pub upstream_text : PackageKey → Node Msg
unfolding js
upstream_text u = text u.system <> text (js "/") <> text u.name

-- `resource.conditions.find((c) => c.type === "Deployed")`
unfoldable pub deployed_condition : Resource → Option Condition
unfolding js text_eq
deployed_condition r = find (λ (c : Condition). text_eq c.type (js "Deployed")) r.conditions

unfoldable pub status_badge : Condition → Node Msg
unfolding js
status_badge deployed =
    element "Badge"
      (variant (if deployed.status == ConditionStatus.is_true then default else destructive) ∷ [])
      (text (
        if deployed.status == ConditionStatus.is_true
        then js "deployed"
        else or_else deployed.reason (js "not deployed")))

unfoldable pub error_box : RpcError → Node Msg
error_box e =
    element "p"
      (class_name
          "rounded-lg border border-destructive/40 bg-destructive/10 px-3 py-2 font-mono text-sm text-destructive"
        ∷ [])
      (text (shown e))

module _ (protocol_of : Text → Option Text) where
  unfoldable pub link_anchor : Link → Node Msg
  unfolding safe_href link_label
  link_anchor link =
      element "a"
        (key link.url
          ∷ href (safe_href protocol_of link.url)
          ∷ attr "target" "_blank"
          ∷ attr "rel" "noreferrer"
          ∷ class_name
              "text-sm text-muted-foreground underline-offset-4 hover:text-primary hover:underline"
          ∷ [])
        (text (link_label link.kind))

  unfoldable pub link_cell : List Link → Node Msg
  unfolding safe_href link_anchor js
  link_cell ls =
      let safe = filter (λ (l : Link). is_some (safe_href protocol_of l.url)) ls in
      if length safe == 0
      then element "span" (class_name "text-sm text-muted-foreground" ∷ []) (text (js "—"))
      else each safe link_anchor

  module _ (encode : Text → Text) (versions_of : Resource → Query ListVersionsResponse) where
    -- the target of a row's link
    unfoldable pub detail_href : Resource → Text
    unfolding js ref_to_string
    detail_href r = js "/resource?ref=" ++ encode (ref_to_string r.ref)

    unfoldable pub resource_row : Resource → Node Msg
    unfolding js ref_to_string detail_href stream_badge behind_badge upstream_text link_cell
        deployed_condition status_badge
    resource_row r = element "TableRow" (key (ref_to_string r.ref) ∷ []) (
        element "TableCell" (class_name "font-mono text-sm" ∷ []) (
          element "Link"
            (href (some (detail_href r)) ∷ class_name "hover:text-primary hover:underline" ∷ [])
            (text (ref_to_string r.ref)))
        <> element "TableCell" []
            (element "div" (class_name "flex flex-wrap gap-1.5" ∷ []) (each r.streams stream_badge))
        <> element "TableCell" [] (behind_badge r (versions_of r))
        <> element "TableCell" (class_name "text-sm text-muted-foreground" ∷ [])
            (show_some r.upstream upstream_text (text (js "—")))
        <> element "TableCell" []
            (element "div" (class_name "flex flex-wrap gap-x-3 gap-y-1" ∷ []) (link_cell r.links))
        <> element "TableCell" [] (
            show_some (deployed_condition r) status_badge
              (element "Badge" (variant outline ∷ []) (text (js "unknown")))))

    unfoldable pub resource_table : ListResourcesResponse → Node Msg
    unfolding js resource_row
    resource_table d =
        element "div" (class_name "rounded-xl border border-border bg-card/60" ∷ []) (
          element "Table" [] (
            element "TableHeader" [] (
              element "TableRow" [] (
                element "TableHead" [] (text (js "Resource"))
                <> element "TableHead" [] (text (js "Streams"))
                <> element "TableHead" [] (text (js "Behind"))
                <> element "TableHead" [] (text (js "Upstream"))
                <> element "TableHead" [] (text (js "Links"))
                <> element "TableHead" [] (text (js "Status"))))
            <> element "TableBody" [] (each d.resources resource_row)))

    -- `resources.error !== null`, split by `isNoScanYet`
    unfoldable pub list_error : Codes → RpcError → Node Msg
    unfolding js is_no_scan_yet error_box
    list_error code e =
        if is_no_scan_yet code e
        then element "div"
            (class_name "rounded-xl border border-border bg-card/60 p-10 text-center" ∷ [])
            (element "p" (class_name "text-sm text-muted-foreground" ∷ [])
              (text (js "No scan cached yet — run one to populate this view.")))
        else error_box e

    unfoldable pub resources_page :
        Codes → Query ListResourcesResponse → Mutation ScanResponse → Node Msg
    unfolding js scan_button error_box list_error resource_table
    resources_page code resources m =
        element "div" (class_name "mx-auto max-w-5xl space-y-6" ∷ []) (
          element "header" (class_name "flex items-end justify-between gap-4" ∷ []) (
            element "div" [] (
              element "h1" (class_name "text-2xl font-semibold tracking-tight" ∷ [])
                (text (js "Resources"))
              <> element "p" (class_name "mt-1 text-sm text-muted-foreground" ∷ []) (
                  text
                    (js "Deployed resources detected in the cluster, with their version streams.")))
            <> scan_button m)
          <> show_some m.failure error_box empty
          <> show_if (is_pending resources)
              (element "p" (class_name "text-sm text-muted-foreground" ∷ []) (text (js "Loading…")))
          <> show_some (error resources) (list_error code) empty
          <> show_some (payload resources) resource_table empty)
