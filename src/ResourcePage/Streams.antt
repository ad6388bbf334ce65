-- ===== src/ResourcePage/Streams.antt =====
-- The changelog on the resource page against the events that the server streams.
use kdelta.Prelude.{
  ℕ, true, not, List, [], ◌∷◌, none, some, ◌≡◌, refl, ap, ◌∙◌, In, take, length, ◌==◌,
}
use kdelta.View.{class_name, Node, element, each, show_if, show_some}
use kdelta.Query.{payload}
use kdelta.Api.Service.{RangeInput}
use kdelta.Api.Changes.{ChangeSet}
use kdelta.Streamed.{StreamEvent, Method, get_changes, fold_events}
use kdelta.Streamed.Fold.{partials_of, last_result, fold_events_lem}
use kdelta.Streamed.Cache.{Entry, Filled, Filled-fold_events}
use kdelta.ResourcePage.{PageState, Inputs, Msg, range_input, changes_query}
use kdelta.ResourcePage.Prose.{keyed_card, change_set_view}
use kdelta.ResourcePage.Panels.{changes_body}

-- The changelog of the events that have come: the last result, if there is one, else the partial
-- changes in their order, if there are any, else nothing.
abbrev pub shown_of : List (StreamEvent ChangeSet) → Node Msg
shown_of es = show_some (last_result none es) change_set_view (
    show_if (not (length (partials_of es) == 0))
      (element "div" (class_name "space-y-4" ∷ []) (each (partials_of es) keyed_card)))

changes_body_folded :
    (es : List (StreamEvent ChangeSet)) → changes_body (some (fold_events es)) ≡ shown_of es
unfolding changes_body
changes_body_folded es = rw (fold_events_lem es) refl

module _ {Key : Type 0} (served : Method × RangeInput → List (StreamEvent ChangeSet))
    {create_query_key : Method → RangeInput → Key} where
  -- However many ranges were streamed before and however far, where the page is given the cached
  -- value of its own key and the key function tells inputs apart: the changelog that it shows is
  -- the one of the first events that the server streams for the range that is selected now.
  pub changes_body_of_range :
      {entries : List (Entry Key ChangeSet)}
      → ((x y : RangeInput)
          → create_query_key get_changes x ≡ create_query_key get_changes y
          → x ≡ y)
      → Filled served create_query_key get_changes entries
      → (i : Inputs) (s : PageState) (e : Entry Key ChangeSet) → In e entries
      → e.key ≡ (changes_query i create_query_key s).query_key
      → payload i.changes ≡ some e.value
      → (n : ℕ) × (changes_body (payload i.changes)
          ≡ shown_of (take n (served (get_changes, range_input i s))))
  unfolding changes_query
  changes_body_of_range apart filled i s e held key shown =
      let (n, folded) = Filled-fold_events served apart filled (range_input i s) true e held key in
      (n, ap changes_body (shown ∙ ap some folded) ∙ changes_body_folded _)
