-- ===== src/Tests/Flows.antt =====
-- The flows of the pages: what is requested, what a cache holds, and a reference that the server
-- lets through.
use kdelta.Prelude.{
  ℕ, true, false, List, [], ◌∷◌, none, some, ◌≡◌, refl, ap, inl, inr, ◌↔◌, In, take, arith,
}
use kdelta.Text.{Text, js}
use kdelta.Query.{Mutation, payload, success}
use kdelta.Api.Changes.{ChangeSet, VersionChanges}
use kdelta.Api.Service.{RangeInput, EchoResponse}
use kdelta.Ref.{ResourceRef, ref_to_string, parse_ref}
use kdelta.Ref.Server.{server_parse}
use kdelta.Ref.Validated.{
  IsValidated, matches_detector, matches_label, dotted, validated_round_trip,
}
use kdelta.Streamed.{
  Method, get_changes, StreamEvent, partial_event, stream_state_options, initial_value,
  changes_stream_options,
}
use kdelta.Streamed.Cache.{Entry, Filled, nothing, fetch, fetched}
use kdelta.ResourcePage.{
  Msg, pick_stream, pick_to, pick_from, refetch_changes, PageState, Inputs, extract, update,
  range_ready, range_input, changes_query, impact_query,
}
use kdelta.ResourcePage.Page.{resource_detail}
use kdelta.ResourcePage.Panels.{changes_body, page_header, pickers, buttons}
use kdelta.ResourcePage.Reach.{send, Reach, next}
use kdelta.ResourcePage.Requests.{Pressed, Reach-enabled_iff}
use kdelta.ResourcePage.Streams.{shown_of, changes_body_of_range}
use kdelta.View.Offers.{offers}
use kdelta.ResourcePage.History.{run, history_of, called, update-run}
use kdelta.EchoPage.Submit.{Event, typed, tried, requests, described, requests-described}
use kdelta.Tests.Pages.{page, protocol_of, world, here_ref, inputs, picked, picked-Reach, serves}

abbrev cert_ref : ResourceRef
cert_ref = record { detector = js "helm"; namespace = js "cert-1"; name = js "cm.v2" }

cert_ref-IsValidated : IsValidated cert_ref
unfolding js matches_detector matches_label dotted
cert_ref-IsValidated = record {
  detector_pattern = refl;
  detector_length = omega arith;
  namespace_pattern = inr refl;
  namespace_length = omega arith;
  name_pattern = refl;
  name_length = omega arith;
}

validated_round_trip_example :
    (parse_ref (ref_to_string (some cert_ref)) ≡ some cert_ref)
    × (server_parse (ref_to_string (some cert_ref)) ≡ some cert_ref)
validated_round_trip_example = validated_round_trip cert_ref-IsValidated

-- A key that holds what it is made from.
abbrev key_of : Method → RangeInput → Method × RangeInput
key_of m x = (m, x)

abbrev asked : PageState
asked = record picked { changes_requested = true }

extract_offered : In extract (offers (resource_detail protocol_of (inputs here_ref) picked))
unfolding page page_header pickers buttons
extract_offered = inr (inr (inr (inr (inr (inl refl)))))

asked-Reach : Reach protocol_of (world here_ref) asked
unfolding update
asked-Reach =
    next picked-Reach (send (inputs here_ref) extract (serves here_ref picked) extract_offered refl)

Reach-enabled_iff_example :
    (((changes_query (inputs here_ref) key_of asked).enabled ≡ true)
      ↔ (Pressed true asked-Reach × (range_ready (inputs here_ref) asked ≡ true)))
    × (((impact_query (inputs here_ref) key_of asked).enabled ≡ true)
        ↔ (Pressed false asked-Reach × (range_ready (inputs here_ref) asked ≡ true)))
Reach-enabled_iff_example = Reach-enabled_iff key_of (inputs here_ref) asked-Reach

abbrev changes_of : Text → VersionChanges
changes_of v = record { version = v; changes = []; provenance = none }

-- What the server streams: a changelog per upper end of the range.
abbrev served : Method × RangeInput → List (StreamEvent ChangeSet)
served (m, x) =
    partial_event (changes_of x.from_version) ∷ partial_event (changes_of x.to_version) ∷ []

abbrev earlier : RangeInput
earlier = record { ref = none; stream_id = []; from_version = []; to_version = [] }

abbrev asked_range : RangeInput
asked_range = range_input (inputs here_ref) asked

abbrev entry : RangeInput → ℕ → Entry (Method × RangeInput) ChangeSet
entry x n = fetched served (stream_state_options key_of get_changes x true) initial_value n

filled : Filled served key_of get_changes (entry asked_range 1 ∷ entry earlier 2 ∷ [])
filled = fetch asked_range initial_value 1 (fetch earlier initial_value 2 nothing)

abbrev streaming : Inputs
streaming = record (inputs here_ref) {
  changes = record { status = success (entry asked_range 1).value; is_fetching = true };
}

same_key : (entry asked_range 1).key ≡ (changes_query streaming key_of asked).query_key
unfolding range_input changes_query changes_stream_options stream_state_options
same_key = refl

changes_body_of_range_example :
    (n : ℕ) × (changes_body (payload streaming.changes)
      ≡ shown_of (take n (served (get_changes, range_input streaming asked))))
changes_body_of_range_example =
    changes_body_of_range served {create_query_key = key_of} (λ x y e. ap (λ k. k.1) e) filled
      streaming asked (entry asked_range 1) (inl refl) same_key refl

abbrev busy : Mutation EchoResponse
busy = record { under_way = true; failure = none; answer = none }

abbrev quiet : Mutation EchoResponse
quiet = record { under_way = false; failure = none; answer = none }

abbrev session : List Event
session = tried quiet ∷ typed (js "hi") ∷ tried busy ∷ tried quiet ∷ typed [] ∷ tried quiet ∷ []

requests-described_example :
    requests (record { message = js "hello" }) session ≡ described (js "hello") session
requests-described_example = requests-described (record { message = js "hello" }) session

session_requests :
    described (js "hello") session
    ≡ record { message = js "hello" } ∷ record { message = js "hi" } ∷ []
unfolding described js
session_requests = refl

-- Latest first: the changelog twice, with another stream in between.
abbrev history : List Msg
history = pick_from (js "2") ∷ pick_stream (js "b") ∷ extract ∷ pick_to (js "3") ∷ []

update-run_example :
    update (run history) extract ≡ (history_of (extract ∷ history), called extract history)
update-run_example = update-run extract history

history_tests :
    (history_of (extract ∷ history) ≡ record {
      selected_stream = some (js "b");
      selected_from = some (js "2");
      selected_to = none;
      changes_requested = true;
      impact_requested = false;
      active_tab = js "changelog";
    })
    × (called extract history ≡ refetch_changes ∷ [])
history_tests = (refl, refl)
