-- ===== src/ResourcePage/Offers.antt =====
-- What the resource page lets the user do.
use mathlib.Core.List.{append-nil, append_assoc}
use mathlib.Core.Bool.{or-false}
use kdelta.Prelude.{
  Bool, true, false, not, ◌||◌, List, [], ◌∷◌, ◌++◌, map, Option, none, some, ◌≡◌, refl, ◌⊎◌, inl,
  inr, arith, if◌then◌else◌, ◌==◌, length, All, All-append, All-map, All-if, In, ap, filter,
}
use kdelta.Text.{Text, js}
use kdelta.View.{Node, each}
use kdelta.View.Offers.{offers, values}
use kdelta.View.Inert.{offers-inert, values-inert, offers-each, offers-show_some, values-show_some}
use kdelta.Query.{payload, error, is_pending, RpcError}
use kdelta.Ref.{ResourceRef, parse_ref}
use kdelta.Api.Resource.{VersionStream, Resource}
use kdelta.Api.Common.{Link}
use kdelta.ResourcePage.{
  PageState, Inputs, Msg, pick_stream, pick_from, pick_to, open_tab, extract, assess, streams,
  version_values, range_ready,
}
use kdelta.ResourcePage.Inert.{changes_panel-inert, impact_panel-inert}
use kdelta.ResourcePage.Panels.{
  anchor, upstream_span, detail_line, page_header, pickers, stream_item, version_item, buttons,
  changes_busy, impact_busy, error_box, behind_line, is_safe_link, changes_panel, impact_panel,
}
use kdelta.ResourcePage.Page.{tabs, loaded_view, guarded, resource_detail}

values-stream_items :
    (ts : List VersionStream) → values (each ts stream_item) ≡ map (λ (t : VersionStream). t.id) ts
unfolding stream_item
values-stream_items [] = refl
values-stream_items (t ∷ ts) =
    rw (values-show_some t.current (λ c. Node.text c.value) (λ c. refl))
      (ap (t.id ∷◌) (values-stream_items ts))

values-version_items : (vs : List Text) → values (each vs version_item) ≡ vs
unfolding version_item
values-version_items [] = refl
values-version_items (v ∷ vs) = ap (v ∷◌) (values-version_items vs)

stream_items-offers : (t : VersionStream) → offers (stream_item t) ≡ []
unfolding stream_item
stream_items-offers t = offers-show_some t.current _ (λ c. refl)

-- Everything that can be sent, part by part: the pickers, the two buttons and the tabs.
pub picks : Inputs → List Msg
unfolding streams version_values
picks i =
    map pick_stream (map (λ (t : VersionStream). t.id) (streams i))
    ++ ((if length (version_values i) == 0 then [] else map pick_from (version_values i))
        ++ (if length (version_values i) == 0 then [] else map pick_to (version_values i)))

pickers-offers : (i : Inputs) (s : PageState) → offers (pickers i s) ≡ picks i
unfolding pickers picks
pickers-offers i s = simp (
  values-stream_items,
  values-version_items,
  offers-each (streams i) stream_item stream_items-offers,
  offers-each (version_values i) version_item (λ v. unfold version_item in refl),
  append-nil,
  or-false,
)

pub presses : Inputs → PageState → List Msg
presses i s =
    (if not (range_ready i s) || changes_busy i s then [] else extract ∷ [])
    ++ (if not (range_ready i s) || impact_busy i s then [] else assess ∷ [])

buttons-offers : (i : Inputs) (s : PageState) → offers (buttons i s) ≡ presses i s
unfolding buttons presses
buttons-offers i s = simp (append-nil, or-false)

pub tab_picks : List Msg
tab_picks = open_tab (js "changelog") ∷ open_tab (js "impact") ∷ []

tabs-offers : (i : Inputs) (s : PageState) → offers (tabs i s) ≡ tab_picks
unfolding tabs tab_picks
tabs-offers i s = rw (
  values-inert (changes_panel i s) (changes_panel-inert i s),
  values-inert (impact_panel i s) (impact_panel-inert i s),
  offers-inert (changes_panel i s) (changes_panel-inert i s),
  offers-inert (impact_panel i s) (impact_panel-inert i s),
)

module _ (protocol_of : Text → Option Text) where
  anchors-offers : (l : Link) → offers (anchor protocol_of l) ≡ []
  unfolding anchor
  anchors-offers l = refl

  detail_line-offers : (r : Option Resource) → offers (detail_line protocol_of r) ≡ []
  unfolding detail_line
  detail_line-offers none = refl
  detail_line-offers (some r) =
      rw (offers-show_some r.upstream upstream_span (λ u. unfold upstream_span in refl)) (
        offers-each (filter (is_safe_link protocol_of) r.links) (anchor protocol_of) anchors-offers)

  -- A loaded page offers the streams of the resource, the listed versions at both ends of the
  -- range, each button that is not disabled, and the two tabs, and nothing else.
  loaded_view-offers :
      (i : Inputs) (s : PageState)
      → offers (loaded_view protocol_of i s) ≡ picks i ++ (presses i s ++ tab_picks)
  unfolding loaded_view page_header
  loaded_view-offers i s = simp (
    detail_line-offers,
    pickers-offers,
    buttons-offers,
    tabs-offers,
    offers-show_some (error i.versions) error_box (λ e. unfold error_box in refl),
    offers-show_some (payload i.versions) behind_line (λ v. unfold behind_line in refl),
    append_assoc,
  )

-- When a message is called for.
abbrev pub Allowed : Inputs → PageState → Msg → Type 0
Allowed i s (pick_stream v) = In v (map (λ (t : VersionStream). t.id) (streams i))
Allowed i s (pick_from v) = In v (version_values i)
Allowed i s (pick_to v) = In v (version_values i)
Allowed i s (open_tab v) = (v ≡ js "changelog") ⊎ (v ≡ js "impact")
Allowed i s extract = (range_ready i s ≡ true) × (changes_busy i s ≡ false)
Allowed i s assess = (range_ready i s ≡ true) × (impact_busy i s ≡ false)

enabled_when : (r b : Bool) → (not r || b) ≡ false → (r ≡ true) × (b ≡ false)
enabled_when r b h = ground arith

picks-Allowed : (i : Inputs) (s : PageState) → All (Allowed i s) (picks i)
unfolding picks
picks-Allowed i s = All-append (Allowed i s) _ _ (All-map (Allowed i s) pick_stream _ (λ v h. h)) (
    All-append (Allowed i s) _ _
      (All-if (Allowed i s) (length (version_values i) == 0) _
        (λ e. All-map (Allowed i s) pick_from (version_values i) (λ v h. h)))
      (All-if (Allowed i s) (length (version_values i) == 0) _
        (λ e. All-map (Allowed i s) pick_to (version_values i) (λ v h. h))))

presses-Allowed : (i : Inputs) (s : PageState) → All (Allowed i s) (presses i s)
unfolding presses
presses-Allowed i s =
    All-append (Allowed i s) _ _
      (All-if (Allowed i s) (not (range_ready i s) || changes_busy i s) _
        (λ e. (enabled_when (range_ready i s) (changes_busy i s) e, tt)))
      (All-if (Allowed i s) (not (range_ready i s) || impact_busy i s) _
        (λ e. (enabled_when (range_ready i s) (impact_busy i s) e, tt)))

tab_picks-Allowed : (i : Inputs) (s : PageState) → All (Allowed i s) tab_picks
unfolding tab_picks
tab_picks-Allowed i s = (inl refl, (inr refl, tt))

guarded-Allowed :
    (i : Inputs) (s : PageState) (r : Option ResourceRef) (b : Bool) (e : Option RpcError)
    (n : Node Msg)
    → All (Allowed i s) (offers n)
    → All (Allowed i s) (offers (guarded r b e n))
unfolding guarded error_box
guarded-Allowed i s none b e n h = tt
guarded-Allowed i s (some r) true e n h = tt
guarded-Allowed i s (some r) false (some e) n h = tt
guarded-Allowed i s (some r) false none n h = h

-- In every state, whatever the queries return, all that the page lets the user send is called for:
-- a stream is one of the resource's, a version is a listed one, a tab is one of the two, and the
-- changelog or the assessment can be asked for only with both ends of the range chosen and while
-- that request is not under way.
pub resource_detail-Allowed :
    (protocol_of : Text → Option Text) (i : Inputs) (s : PageState)
    → All (Allowed i s) (offers (resource_detail protocol_of i s))
unfolding resource_detail
resource_detail-Allowed protocol_of i s =
    guarded-Allowed i s (parse_ref i.canonical) (is_pending i.detail) (error i.detail) _ (
      rw (loaded_view-offers protocol_of i s) (
        All-append (Allowed i s) _ _ (picks-Allowed i s)
          (All-append (Allowed i s) _ _ (presses-Allowed i s) (tab_picks-Allowed i s))))
