-- ===== src/ResourcePage.antt =====
-- apps/app-ui/app/resource/page.tsx, `ResourceDetail`: the state of its hooks, what it derives from
-- it and from the queries, the queries that it asks for, and its handlers. The children hold what
-- it renders.
pub mod Prose
pub mod Impact
pub mod Panels
pub mod Page
pub mod Inert
pub mod Links
pub mod Offers
pub mod Reach
pub mod Requests
pub mod Streams
pub mod Content
pub mod History
use kdelta.Prelude.{
  or_some, ℕ, Bool, true, false, not, ◌&&◌, List, [], ◌∷◌, map, Option, none, some, if◌then◌else◌,
  get_or, is_some, find, head?, ◌>>=◌,
}
use kdelta.Text.{Text, js, truthy}
use kdelta.Ref.{ResourceRef, parse_ref}
use kdelta.Query.{Query, payload}
use kdelta.Api.Resource.{VersionStream}
use kdelta.Api.Version.{VersionSource, SourceCase, unset, Version}
use kdelta.Api.Service.{
  GetResourceRequest, GetResourceResponse, ListVersionsRequest, ListVersionsResponse, RangeInput,
}
use kdelta.Api.Changes.{ChangeSet}
use kdelta.Api.Impact.{ImpactAssessment}
use kdelta.Streamed.{
  StreamState, QueryOptions, Method, changes_stream_options, impact_stream_options,
}

-- the `useState` cells
pub record PageState : Type 0 where
  pub selected_stream : Option Text
  pub selected_from : Option Text
  pub selected_to : Option Text
  pub changes_requested : Bool
  pub impact_requested : Bool
  pub active_tab : Text

unfoldable pub initial : PageState
unfolding js
initial = record {
  selected_stream = none;
  selected_from = none;
  selected_to = none;
  changes_requested = false;
  impact_requested = false;
  active_tab = js "changelog";
}

-- What the other hooks return in one render: the search parameter `ref` (the empty string where it
-- is missing) and the results of the four queries.
pub record Inputs : Type 0 where
  pub canonical : Text
  pub detail : Query GetResourceResponse
  pub versions : Query ListVersionsResponse
  pub changes : Query (StreamState ChangeSet)
  pub impact : Query (StreamState ImpactAssessment)

-- `s.source?.source.case !== undefined`
abbrev pub case_set : SourceCase → Bool
case_set unset = false
case_set _ = true

unfoldable pub has_source : VersionStream → Bool
has_source s = elim s.source [ none ↦ false | some v ↦ case_set v.source ]

-- `streamId`: the selected stream, else the first with a version source, else the first.
unfoldable pub chosen_stream : List VersionStream → PageState → Text
unfolding has_source
chosen_stream ts s =
    get_or
      (or_some s.selected_stream
        (or_some (find has_source ts >>= (λ t. some t.id)) (head? ts >>= (λ t. some t.id))))
      []

module _ (i : Inputs) where
  unfoldable pub streams : List VersionStream
  streams = get_or (payload i.detail >>= (λ d. d.resource >>= (λ r. some r.streams))) []

  unfoldable pub stream_id : PageState → Text
  unfolding streams chosen_stream
  stream_id s = chosen_stream streams s

  unfoldable pub from_version : PageState → Text
  from_version s =
      get_or (or_some s.selected_from (payload i.versions >>= (λ v. some v.current))) []

  unfoldable pub to_version : PageState → Text
  to_version s = get_or (or_some s.selected_to (payload i.versions >>= (λ v. some v.latest))) []

  unfoldable pub range_ready : PageState → Bool
  unfolding from_version to_version
  range_ready s = truthy (from_version s) && truthy (to_version s)

  unfoldable pub range_input : PageState → RangeInput
  unfolding stream_id from_version to_version
  range_input s = record {
    ref = parse_ref i.canonical;
    stream_id = stream_id s;
    from_version = from_version s;
    to_version = to_version s;
  }

  unfoldable pub version_values : List Text
  version_values =
      get_or (payload i.versions >>= (λ v. some (map (λ (x : Version). x.value) v.versions))) []

  -- The queries that a render asks for: the input, and whether it is enabled.
  unfoldable pub detail_query : GetResourceRequest × Bool
  detail_query = (record { ref = parse_ref i.canonical }, is_some (parse_ref i.canonical))

  unfoldable pub versions_query : PageState → ListVersionsRequest × Bool
  unfolding stream_id
  versions_query s = (
    record { ref = parse_ref i.canonical; stream_id = stream_id s },
    is_some (parse_ref i.canonical) && truthy (stream_id s),
  )

  module _ {Key : Type 0} (create_query_key : Method → RangeInput → Key) where
    unfoldable pub changes_query : PageState → QueryOptions Key ChangeSet
    unfolding changes_stream_options range_input range_ready
    changes_query s =
        changes_stream_options create_query_key (range_input s)
          (s.changes_requested && range_ready s)

    unfoldable pub impact_query : PageState → QueryOptions Key ImpactAssessment
    unfolding impact_stream_options range_input range_ready
    impact_query s =
        impact_stream_options create_query_key (range_input s) (s.impact_requested && range_ready s)

-- What the user can send.
pub data Msg : Type 0 where
  pick_stream pick_from pick_to open_tab : Text → Msg
  extract assess : Msg

-- The calls that a handler makes beside setting state.
pub data Command : Type 0 where
  refetch_changes refetch_impact : Command

unfoldable pub update : PageState → Msg → PageState × List Command
unfolding js
update s (pick_stream value) =
    (record s { selected_stream = some value; selected_from = none; selected_to = none }, [])
update s (pick_from value) = (record s { selected_from = some value }, [])
update s (pick_to value) = (record s { selected_to = some value }, [])
update s (open_tab value) = (record s { active_tab = value }, [])
update s extract =
    if s.changes_requested
    then (record s { active_tab = js "changelog" }, refetch_changes ∷ [])
    else (record s { active_tab = js "changelog"; changes_requested = true }, [])
update s assess =
    if s.impact_requested
    then (record s { active_tab = js "impact" }, refetch_impact ∷ [])
    else (record s { active_tab = js "impact"; impact_requested = true }, [])
