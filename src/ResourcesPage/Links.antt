-- ===== src/ResourcesPage/Links.antt =====
-- Where the list of resources can link to.
use kdelta.Prelude.{
  Bool, true, false, List, [], ◌∷◌, ◌++◌, Option, none, some, ◌≡◌, refl, ◌⊎◌, inl, inr,
  if◌then◌else◌, ◌==◌, ltb, length, filter, is_some, All, All-append, Option-cases,
}
use kdelta.Text.{Text, js}
use kdelta.View.{Node, empty, each, show_some, show_if, element, variant, outline, text, class_name}
use kdelta.View.Links.{links}
use kdelta.View.Inert.{links-each, links-show_some, links-show_some_else}
use kdelta.Links.{safe_href}
use kdelta.Links.Safe.{IsWebUrl, safe_href_iff}
use kdelta.Query.{
  Query, RpcError, Codes, Mutation, Status, pending, failed, success, payload, error, is_pending,
}
use kdelta.Ref.{ref_to_string}
use kdelta.Api.Common.{Link}
use kdelta.Api.Resource.{Resource}
use kdelta.Api.Service.{ListVersionsResponse, ListResourcesResponse, ScanResponse}
use kdelta.ResourcesPage.{
  Msg, behind_of, behind_status, behind_badge, source_stream, scan_button, stream_badge,
  upstream_text, deployed_condition, status_badge, error_box, link_anchor, link_cell, detail_href,
  resource_row, resource_table, list_error, is_no_scan_yet, resources_page,
}

links-if :
    (b : Bool) (m n : Node Msg) → links m ≡ [] → links n ≡ [] → links (if b then m else n) ≡ []
links-if true m n h k = h
links-if false m n h k = k

behind_status-links : (s : Status ListVersionsResponse) → links (behind_status s) ≡ []
unfolding behind_status behind_of
behind_status-links pending = refl
behind_status-links (failed e last) = refl
behind_status-links (success v) = links-if (ltb 0 v.versions_behind) _ _ refl refl

behind_badge-links : (r : Resource) (q : Query ListVersionsResponse) → links (behind_badge r q) ≡ []
unfolding behind_badge
behind_badge-links r q =
    links-show_some_else (source_stream r) _ _ (λ x. behind_status-links q.status) refl

loading-links :
    (b : Bool)
    → links {Msg = Msg} (
        show_if b
          (element "p" (class_name "text-sm text-muted-foreground" ∷ []) (text (js "Loading…"))))
      ≡ []
loading-links true = refl
loading-links false = refl

module _ (protocol_of : Text → Option Text) where
  -- A page of this application with the resource in its query, or a URL that the browser reads as
  -- http or https.
  abbrev pub IsAllowed : (Text → Text) → Text → Type 0
  IsAllowed encode u = ((t : Text) × (u ≡ js "/resource?ref=" ++ encode t)) ⊎ IsWebUrl protocol_of u

  module _ (encode : Text → Text) (versions_of : Resource → Query ListVersionsResponse) where
    All-each :
        {A : Type 0} (xs : List A) (f : A → Node Msg)
        → ((x : A) → All (IsAllowed encode) (links (f x)))
        → All (IsAllowed encode) (links (each xs f))
    All-each [] f h = tt
    All-each (x ∷ xs) f h = All-append (IsAllowed encode) (links (f x)) _ (h x) (All-each xs f h)

    link_anchor-IsAllowed : (l : Link) → All (IsAllowed encode) (links (link_anchor protocol_of l))
    unfolding link_anchor
    link_anchor-IsAllowed l = elim (Option-cases (safe_href protocol_of l.url)) [
      | inl unsafe ↦ rw unsafe tt
      | inr (u, safe) ↦
          let found = (safe_href_iff protocol_of l.url u).0 safe in
          rw safe (inr (rw found.0 at found.1), tt)
    ]

    All-if :
        (b : Bool) (m n : Node Msg)
        → All (IsAllowed encode) (links m)
        → All (IsAllowed encode) (links n)
        → All (IsAllowed encode) (links (if b then m else n))
    All-if true m n h k = h
    All-if false m n h k = k

    link_cell-IsAllowed :
        (ls : List Link) → All (IsAllowed encode) (links (link_cell protocol_of ls))
    unfolding link_cell
    link_cell-IsAllowed ls =
        let safe = filter (λ (l : Link). is_some (safe_href protocol_of l.url)) ls in
        All-if (length safe == 0) _ _ tt
          (All-each safe (link_anchor protocol_of) link_anchor-IsAllowed)

    resource_row-IsAllowed :
        (r : Resource)
        → All (IsAllowed encode) (links (resource_row protocol_of encode versions_of r))
    unfolding resource_row detail_href
    resource_row-IsAllowed r = (
      inl (ref_to_string r.ref, refl),
      rw
          (
            links-each r.streams stream_badge (λ s. unfold stream_badge in refl),
            behind_badge-links r (versions_of r),
            links-show_some_else r.upstream upstream_text (text (js "—"))
                (λ u. unfold upstream_text in refl) refl,
            links-show_some_else (deployed_condition r) status_badge
                (element "Badge" (variant outline ∷ []) (text (js "unknown")))
                (λ c. unfold status_badge in refl) refl,
          )
          (All-append (IsAllowed encode) (links (link_cell protocol_of r.links)) []
            (link_cell-IsAllowed r.links) tt),
    )

    list_error-links :
        (code : Codes) (e : RpcError)
        → links (list_error protocol_of encode versions_of code e) ≡ []
    unfolding list_error error_box
    list_error-links code e = links-if (is_no_scan_yet code e) _ _ refl refl

    table-IsAllowed :
        (d : Option ListResourcesResponse)
        → All
            (IsAllowed encode)
            (links (show_some d (resource_table protocol_of encode versions_of) empty))
    unfolding resource_table
    table-IsAllowed none = tt
    table-IsAllowed (some d) =
        All-each d.resources (resource_row protocol_of encode versions_of) resource_row-IsAllowed

    -- Whatever the server sends, each link of the list of resources leads to the page of a resource
    -- of this application or to a URL that the browser reads as http or https.
    pub resources_page-IsAllowed :
        (code : Codes) (q : Query ListResourcesResponse) (m : Mutation ScanResponse)
        → All (IsAllowed encode) (links (resources_page protocol_of encode versions_of code q m))
    unfolding resources_page scan_button
    resources_page-IsAllowed code q m =
        rw
          (
            links-show_some m.failure error_box (λ e. unfold error_box in refl),
            loading-links (is_pending q),
            links-show_some (error q) (list_error protocol_of encode versions_of code)
                (list_error-links code),
          )
          (table-IsAllowed (payload q))
