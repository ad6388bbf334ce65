-- ===== src/Tests/Pages.antt =====
-- The resource page of "helm:node" with one stream and two listed versions.
use kdelta.Prelude.{
  ℕ, true, false, [], ◌∷◌, Option, none, some, ◌≡◌, refl, inl, inr, All, In, if◌then◌else◌, ◌==◌,
}
use kdelta.Text.{Text, js, split_off}
use kdelta.View.Links.{links}
use kdelta.View.Offers.{offers}
use kdelta.Query.{Query, success, pending}
use kdelta.Links.Safe.{IsWebUrl}
use kdelta.Ref.{parse_ref}
use kdelta.Api.Resource.{Resource, VersionStream}
use kdelta.Api.Version.{Version, oci_registry}
use kdelta.Api.Service.{ListVersionsResponse, RangeInput}
use kdelta.Streamed.{Method}
use kdelta.ResourcePage.{
  PageState, initial, Inputs, pick_from, stream_id, chosen_stream, from_version, range_ready,
  range_input, update, streams, version_values, detail_query, versions_query, changes_query,
  impact_query,
}
use kdelta.ResourcePage.Page.{resource_detail, loaded_view}
use kdelta.ResourcePage.Panels.{page_header, pickers}
use kdelta.ResourcePage.Prose.{inline_text}
use kdelta.ResourcePage.Content.{text_of}
use kdelta.ResourcePage.Links.{resource_detail-IsWebUrl}
use kdelta.ResourcePage.Offers.{Allowed, resource_detail-Allowed}
use kdelta.ResourcePage.Reach.{
  World, Serves, send, Reach, start, next, Known, Reach-range-Known, Reach-invalid-disabled,
}

-- A parser that knows two schemes.
abbrev pub protocol_of : Text → Option Text
protocol_of [] = none
protocol_of (c ∷ s) = if c == b'h' then some (js "https:") else some (js "javascript:")

abbrev app_stream : VersionStream
app_stream = record {
  id = b'a' ∷ [];
  kind = 1;
  current = none;
  constraint = [];
  scheme = 1;
  source = some (record { source = oci_registry (record { reference = b'r' ∷ [] }) });
  changes = [];
  source_provenance = none;
}

abbrev version : ℕ → Version
version c = record {
  value = c ∷ [];
  prerelease = false;
  deprecated = false;
  digest = [];
  links = [];
}

abbrev listing : ListVersionsResponse
listing = record {
  versions = version b'1' ∷ version b'2' ∷ [];
  current = b'1' ∷ [];
  latest = b'2' ∷ [];
  versions_behind = 1;
}

abbrev resource : Resource
resource = record {
  ref = none;
  display_name = [];
  upstream = none;
  links =
      record { kind = 1; url = b'h' ∷ []; title = [] }
      ∷ record { kind = 2; url = b'j' ∷ []; title = [] }
      ∷ [];
  streams = app_stream ∷ [];
  objects = [];
  labels = [];
  conditions = [];
  provenance = none;
}

abbrev idle : {A : Type 0} → Query A
idle = record { status = pending; is_fetching = false }

abbrev pub inputs : Text → Inputs
inputs canonical = record {
  canonical = canonical;
  detail = record {
    status = success (record { resource = some resource; edges = [] });
    is_fetching = false;
  };
  versions = record { status = success listing; is_fetching = false };
  changes = idle;
  impact = idle;
}

abbrev pub world : Text → World
world canonical = record {
  canonical = canonical;
  details = (app_stream ∷ []) ∷ [];
  listings = λ id. listing ∷ [];
}

abbrev pub here_ref : Text
here_ref = js "helm:node"

unfoldable pub page : Unit {0}
unfolding initial update resource_detail loaded_view streams stream_id version_values range_ready
    range_input js split_off
page = tt

pub serves : (canonical : Text) (s : PageState) → Serves (world canonical) (inputs canonical) s
unfolding streams
serves canonical s = record {
  same_ref = refl;
  detailed = inr (inl refl);
  listed = inr (listing, inl refl, refl);
}

abbrev pub picked : PageState
picked = record {
  selected_stream = none;
  selected_from = some (b'2' ∷ []);
  selected_to = none;
  changes_requested = false;
  impact_requested = false;
  active_tab = js "changelog";
}

pick_offered :
    In (pick_from (b'2' ∷ [])) (offers (resource_detail protocol_of (inputs here_ref) initial))
unfolding page page_header pickers
pick_offered = inr (inr (inl refl))

pub picked-Reach : Reach protocol_of (world here_ref) picked
unfolding update initial
picked-Reach =
    next start
      (send (inputs here_ref) (pick_from (b'2' ∷ [])) (serves here_ref initial) pick_offered refl)

picked_ready : range_ready (inputs here_ref) picked ≡ true
unfolding range_ready
picked_ready = refl

Reach-range-Known_example :
    Known
      (world here_ref)
      (inputs here_ref)
      picked
      (λ v. v.current)
      (range_input (inputs here_ref) picked).from_version
    × Known
        (world here_ref)
        (inputs here_ref)
        picked
        (λ v. v.latest)
        (range_input (inputs here_ref) picked).to_version
Reach-range-Known_example =
    Reach-range-Known (inputs here_ref) picked-Reach (serves here_ref picked) picked_ready

-- The same page after the detail was fetched again and another stream has become the default: the end
-- that was picked for the first stream stays, and the request names the other.
abbrev other_stream : VersionStream
other_stream = record app_stream { id = b'o' ∷ [] }

abbrev fetched_again : Inputs
fetched_again = record (inputs here_ref) {
  detail = record {
    status = success (record {
      resource = some (record resource { streams = other_stream ∷ app_stream ∷ [] });
      edges = [];
    });
    is_fetching = false;
  };
}

default_flips :
    ((range_input (inputs here_ref) picked).stream_id ≡ b'a' ∷ [])
    × ((range_input fetched_again picked).stream_id ≡ b'o' ∷ [])
    × ((range_input fetched_again picked).from_version ≡ b'2' ∷ [])
unfolding range_input stream_id streams chosen_stream from_version
default_flips = (refl, refl, refl)

no_ref : parse_ref [] ≡ none
unfolding parse_ref split_off
no_ref = refl

Reach-invalid-disabled_example :
    ((detail_query (inputs [])).1 ≡ false)
    × ((versions_query (inputs []) initial).1 ≡ false)
    × ((changes_query (inputs []) {Key = Method × RangeInput} (λ m q. (m, q)) initial).enabled
        ≡ false)
    × ((impact_query (inputs []) {Key = Method × RangeInput} (λ m q. (m, q)) initial).enabled
        ≡ false)
Reach-invalid-disabled_example =
    Reach-invalid-disabled {Key = Method × RangeInput} (λ m q. (m, q)) {protocol_of = protocol_of}
      {w = world []} (inputs []) no_ref start (serves [] initial)

resource_detail-IsWebUrl_example :
    All (IsWebUrl protocol_of) (links (resource_detail protocol_of (inputs here_ref) initial))
resource_detail-IsWebUrl_example = resource_detail-IsWebUrl protocol_of (inputs here_ref) initial

resource_detail-Allowed_example :
    All
      (Allowed (inputs here_ref) picked)
      (offers (resource_detail protocol_of (inputs here_ref) picked))
resource_detail-Allowed_example = resource_detail-Allowed protocol_of (inputs here_ref) picked

inline_text_tests :
    (text_of (inline_text (js "use `x`")) ≡ js "use x")
    × (text_of (inline_text (js "a`b")) ≡ js "a`b")
unfolding inline_text split_off js
inline_text_tests = (refl, refl)
