-- ===== src/ResourcePage/Links.antt =====
-- Where the resource page can link to.
use mathlib.Core.List.{append-nil}
use kdelta.Prelude.{
  Bool, true, false, List, [], ◌∷◌, map, Option, none, some, ◌≡◌, refl, sym, ap₂, Option-cases, inl,
  inr, ◌>>=◌, get_or, filter, All,
}
use kdelta.Text.{Text}
use kdelta.View.{Node, each}
use kdelta.View.Links.{links}
use kdelta.View.Inert.{links-inert, links-each, links-show_some}
use kdelta.Links.{safe_href}
use kdelta.Links.Safe.{IsWebUrl, safe_href_iff}
use kdelta.Query.{payload, error, is_pending, RpcError}
use kdelta.Ref.{ResourceRef, parse_ref}
use kdelta.Api.Common.{Link}
use kdelta.Api.Resource.{Resource}
use kdelta.ResourcePage.{PageState, Inputs, Msg, streams, version_values}
use kdelta.ResourcePage.Inert.{changes_panel-inert, impact_panel-inert}
use kdelta.ResourcePage.Panels.{
  is_safe_link, anchor, upstream_span, detail_line, page_header, pickers, stream_item, version_item,
  buttons, error_box, behind_line, changes_panel, impact_panel,
}
use kdelta.ResourcePage.Page.{tabs, loaded_view, guarded, resource_detail}

pickers-links : (i : Inputs) (s : PageState) → links (pickers i s) ≡ []
unfolding pickers
pickers-links i s = simp (
  links-each (streams i) stream_item
      (λ x. unfold stream_item in links-show_some x.current _ (λ c. refl)),
  links-each (version_values i) version_item (λ x. unfold version_item in refl),
)

tabs-links : (i : Inputs) (s : PageState) → links (tabs i s) ≡ []
unfolding tabs
tabs-links i s =
    rw
      (
        links-inert (changes_panel i s) (changes_panel-inert i s),
        links-inert (impact_panel i s) (impact_panel-inert i s),
      )
      refl

module _ (protocol_of : Text → Option Text) where
  anchors-links :
      (ls : List Link)
      → links (each (filter (is_safe_link protocol_of) ls) (anchor protocol_of))
        ≡ map (λ (l : Link). l.url) (filter (is_safe_link protocol_of) ls)
  unfolding is_safe_link anchor
  anchors-links [] = refl
  anchors-links (l ∷ ls) = elim (Option-cases (safe_href protocol_of l.url)) [
    | inl unsafe ↦ rw unsafe (anchors-links ls)
    | inr (u, safe) ↦
        rw safe (
          rw safe (ap₂ ◌∷◌ (sym ((safe_href_iff protocol_of l.url u).0 safe).0) (anchors-links ls)))
  ]

  -- The links of the detected resource, where there is one.
  abbrev pub resource_links : Inputs → List Link
  resource_links i = get_or (payload i.detail >>= (λ d. d.resource) >>= (λ r. some r.links)) []

  detail_line-links :
      (r : Option Resource)
      → links (detail_line protocol_of r)
        ≡ map
            (λ (l : Link). l.url)
            (filter (is_safe_link protocol_of) (get_or (r >>= (λ x. some x.links)) []))
  unfolding detail_line
  detail_line-links none = refl
  detail_line-links (some r) =
      rw (links-show_some r.upstream upstream_span (λ u. unfold upstream_span in refl))
        (anchors-links r.links)

  -- What is rendered of a loaded resource links to the resource's safe URLs, in order, and to
  -- nothing else.
  loaded_view-links :
      (i : Inputs) (s : PageState)
      → links (loaded_view protocol_of i s)
        ≡ map (λ (l : Link). l.url) (filter (is_safe_link protocol_of) (resource_links i))
  unfolding loaded_view page_header buttons
  loaded_view-links i s = simp (
    detail_line-links,
    pickers-links,
    tabs-links,
    links-show_some (error i.versions) error_box (λ e. unfold error_box in refl),
    links-show_some (payload i.versions) behind_line (λ v. unfold behind_line in refl),
    append-nil,
  )

  safe_urls-IsWebUrl :
      (ls : List Link)
      → All
          (IsWebUrl protocol_of)
          (map (λ (l : Link). l.url) (filter (is_safe_link protocol_of) ls))
  unfolding is_safe_link
  safe_urls-IsWebUrl [] = tt
  safe_urls-IsWebUrl (l ∷ ls) = elim (Option-cases (safe_href protocol_of l.url)) [
    | inl unsafe ↦ rw unsafe (safe_urls-IsWebUrl ls)
    | inr (u, safe) ↦
        rw safe (((safe_href_iff protocol_of l.url u).0 safe).1, safe_urls-IsWebUrl ls)
  ]

  guarded-IsWebUrl :
      (r : Option ResourceRef) (b : Bool) (e : Option RpcError) (n : Node Msg)
      → All (IsWebUrl protocol_of) (links n)
      → All (IsWebUrl protocol_of) (links (guarded r b e n))
  unfolding guarded error_box
  guarded-IsWebUrl none b e n h = tt
  guarded-IsWebUrl (some r) true e n h = tt
  guarded-IsWebUrl (some r) false (some e) n h = tt
  guarded-IsWebUrl (some r) false none n h = h

  -- Whatever the server sends, and in every state of the page, each anchor of the resource page
  -- points to a URL that the browser reads as http or https.
  pub resource_detail-IsWebUrl :
      (i : Inputs) (s : PageState)
      → All (IsWebUrl protocol_of) (links (resource_detail protocol_of i s))
  unfolding resource_detail
  resource_detail-IsWebUrl i s =
      guarded-IsWebUrl (parse_ref i.canonical) (is_pending i.detail) (error i.detail) _
        (rw (loaded_view-links i s) (safe_urls-IsWebUrl (resource_links i)))
