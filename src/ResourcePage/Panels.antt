-- ===== src/ResourcePage/Panels.antt =====
-- resource/page.tsx: the header, the pickers and the two panels of `ResourceDetail`.
use kdelta.Prelude.{
  Bool, not, ◌&&◌, ◌||◌, List, [], ◌∷◌, Option, some, if◌then◌else◌, ◌==◌, length, get_or, is_some,
  ◌>>=◌, filter, String,
}
use kdelta.Text.{Text, js}
use kdelta.View.{
  Attr, class_name, attr, key, value, href, variant, secondary, disabled, on_click, on_value_change,
  Node, empty, text, number, ◌<>◌, element, each, show_if, show_some,
}
use kdelta.Links.{safe_href, link_label}
use kdelta.Query.{RpcError, shown, payload, error}
use kdelta.Api.Common.{Link, PackageKey}
use kdelta.Api.Resource.{Resource, VersionStream, DetectedVersion}
use kdelta.Api.Service.{ListVersionsResponse}
use kdelta.Api.Changes.{ChangeSet}
use kdelta.Streamed.{StreamState}
use kdelta.ResourcePage.{
  PageState, Inputs, Msg, pick_stream, pick_from, pick_to, extract, assess, streams, stream_id,
  from_version, to_version, range_ready, version_values,
}
use kdelta.ResourcePage.Prose.{progress_log, keyed_card, change_set_view}
use kdelta.ResourcePage.Impact.{impact_view}

unfoldable pub error_box : RpcError → Node Msg
error_box e =
    element "p"
      (class_name
          "rounded-lg border border-destructive/40 bg-destructive/10 px-3 py-2 font-mono text-sm text-destructive"
        ∷ [])
      (text (shown e))

unfoldable pub is_safe_link : (Text → Option Text) → Link → Bool
unfolding safe_href
is_safe_link protocol_of link = is_some (safe_href protocol_of link.url)

unfoldable pub anchor : (Text → Option Text) → Link → Node Msg
unfolding safe_href link_label
anchor protocol_of link =
    element "a"
      (key link.url
        ∷ href (safe_href protocol_of link.url)
        ∷ attr "target" "_blank"
        ∷ attr "rel" "noreferrer"
        ∷ class_name "underline-offset-4 hover:text-primary hover:underline"
        ∷ [])
      (text (link_label link.kind))

unfoldable pub upstream_span : PackageKey → Node Msg
unfolding js
upstream_span upstream =
    element "span" [] (text upstream.system <> text (js "/") <> text upstream.name)

unfoldable pub detail_line : (Text → Option Text) → Option Resource → Node Msg
unfolding is_safe_link anchor upstream_span
detail_line protocol_of resource =
    element "div"
      (class_name "mt-2 flex flex-wrap items-center gap-x-4 gap-y-1 text-sm text-muted-foreground"
        ∷ [])
      (show_some (resource >>= (λ r. r.upstream)) upstream_span empty
        <> show_some resource
            (λ r. each (filter (is_safe_link protocol_of) r.links) (anchor protocol_of)) empty)

unfoldable pub page_header : (Text → Option Text) → Inputs → Node Msg
unfolding js detail_line
page_header protocol_of i = element "header" [] (
    element "h1" (class_name "font-mono text-2xl font-semibold tracking-tight" ∷ [])
      (text i.canonical)
    <> element "p" (class_name "mt-1 text-sm text-muted-foreground" ∷ []) (
        text (
          js
            "Pick a stream and a version range, then extract the changelog or assess the upgrade's impact on this cluster."))
    <> detail_line protocol_of (payload i.detail >>= (λ d. d.resource)))

unfoldable pub stream_item : VersionStream → Node Msg
unfolding js
stream_item s = element "SelectItem" (key s.id ∷ value s.id ∷ []) (
    text s.id <> text (js "@") <> show_some s.current (λ (c : DetectedVersion). text c.value) empty)

unfoldable pub version_item : Text → Node Msg
version_item v = element "SelectItem" (key v ∷ value v ∷ []) (text v)

unfoldable pub picker : String → List (Attr Msg) → String → Node Msg → Node Msg
unfolding js
picker label attrs trigger_class items = element "div" (class_name "space-y-1" ∷ []) (
    element "p" (class_name "text-xs uppercase tracking-wide text-muted-foreground" ∷ [])
      (text (js label))
    <> element "Select" attrs (
        element "SelectTrigger" (class_name trigger_class ∷ []) (element "SelectValue" [] empty)
        <> element "SelectContent" [] items))

unfoldable pub pickers : Inputs → PageState → Node Msg
unfolding picker stream_item version_item streams stream_id from_version to_version version_values
pickers i s =
    picker "Stream" (value (stream_id i s) ∷ on_value_change pick_stream ∷ []) "w-40"
      (each (streams i) stream_item)
    <> picker "From"
        (value (from_version i s)
          ∷ on_value_change pick_from
          ∷ disabled (length (version_values i) == 0)
          ∷ [])
        "w-44" (each (version_values i) version_item)
    <> picker "To"
        (value (to_version i s)
          ∷ on_value_change pick_to
          ∷ disabled (length (version_values i) == 0)
          ∷ [])
        "w-44" (each (version_values i) version_item)

unfoldable pub changes_busy : Inputs → PageState → Bool
changes_busy i s = s.changes_requested && i.changes.is_fetching

unfoldable pub impact_busy : Inputs → PageState → Bool
impact_busy i s = s.impact_requested && i.impact.is_fetching

unfoldable pub buttons : Inputs → PageState → Node Msg
unfolding js range_ready changes_busy impact_busy
buttons i s = element "div" (class_name "ml-auto flex gap-2" ∷ []) (
    element "Button"
      (variant secondary
        ∷ disabled (not (range_ready i s) || changes_busy i s)
        ∷ on_click extract
        ∷ [])
      (text (if changes_busy i s then js "Extracting…" else js "Extract changelog"))
    <> element "Button" (disabled (not (range_ready i s) || impact_busy i s) ∷ on_click assess ∷ [])
        (text (if impact_busy i s then js "Assessing…" else js "Assess impact")))

unfoldable pub behind_line : ListVersionsResponse → Node Msg
unfolding js
behind_line v = element "p" (class_name "text-sm text-muted-foreground" ∷ []) (
    number v.versions_behind
    <> text (js " stable version")
    <> text (if v.versions_behind == 1 then js "" else js "s")
    <> text (js " behind latest (")
    <> text v.latest
    <> text (js ")."))

-- What the changelog tab shows of the stream: the result once it is there, the partials before.
unfoldable pub changes_body : Option (StreamState ChangeSet) → Node Msg
unfolding change_set_view keyed_card
changes_body d = show_some (d >>= (λ x. x.result)) change_set_view (
    show_if (not (get_or (d >>= (λ x. some (length x.partials))) 0 == 0)) (
      element "div" (class_name "space-y-4" ∷ [])
        (each (get_or (d >>= (λ x. some x.partials)) []) keyed_card)))

unfoldable pub changes_panel : Inputs → PageState → Node Msg
unfolding js progress_log error_box changes_body
changes_panel i s =
    show_if (not s.changes_requested) (
      element "p" (class_name "text-sm text-muted-foreground" ∷ [])
        (text (js "Extract the changelog to see what changed across this range.")))
    <> show_if s.changes_requested (
        progress_log (get_or (payload i.changes >>= (λ x. some x.progress)) [])
          i.changes.is_fetching
        <> show_some (error i.changes) error_box empty
        <> changes_body (payload i.changes))

unfoldable pub impact_panel : Inputs → PageState → Node Msg
unfolding js progress_log error_box impact_view
impact_panel i s =
    show_if (not s.impact_requested) (
      element "p" (class_name "text-sm text-muted-foreground" ∷ []) (
        text
          (js "Assess the impact to see what this upgrade would do to the rest of the cluster.")))
    <> show_if s.impact_requested (
        progress_log (get_or (payload i.impact >>= (λ x. some x.progress)) []) i.impact.is_fetching
        <> show_some (error i.impact) error_box empty
        <> show_some (payload i.impact >>= (λ x. x.result)) impact_view empty)
