-- ===== src/Tests/Lists.antt =====
-- The list of resources, and the stream that the pages fold.
use kdelta.Prelude.{
  ℕ, true, false, List, [], ◌∷◌, ◌++◌, Option, none, some, ◌≡◌, refl, inr, arith, All,
}
use kdelta.Text.{Text, js}
use kdelta.View.Links.{links}
use kdelta.Query.{Query, Codes, Mutation, success, pending}
use kdelta.Ref.{ResourceRef}
use kdelta.Ref.RoundTrip.{IsCanonical}
use kdelta.Api.Resource.{Resource}
use kdelta.Api.Changes.{VersionChanges}
use kdelta.Api.Service.{ListVersionsResponse, ListResourcesResponse, ScanResponse, Progress}
use kdelta.Streamed.{StreamEvent, progress_event, partial_event, result_event, unset, fold_events}
use kdelta.Streamed.Fold.{progress_of, partials_of, last_result, fold_events_lem}
use kdelta.ResourcePage.{Inputs, detail_query}
use kdelta.ResourcesPage.{resources_page, detail_href}
use kdelta.ResourcesPage.Links.{IsAllowed, resources_page-IsAllowed}
use kdelta.ResourcesPage.Rows.{row_opens_resource}

abbrev pub protocol_of : Text → Option Text
protocol_of url = some (js "https:")

abbrev pub encode : Text → Text
encode t = t

-- The router's parameter: what stands behind "/resource?ref=".
abbrev pub search_ref : Text → Text
search_ref (a ∷ b ∷ c ∷ d ∷ e ∷ f ∷ g ∷ h ∷ i ∷ j ∷ k ∷ l ∷ m ∷ n ∷ t) = t
search_ref t = []

pub decoded : (t : Text) → search_ref (js "/resource?ref=" ++ encode t) ≡ t
unfolding js
decoded t = refl

abbrev node : ResourceRef
node = record { detector = b'h' ∷ []; namespace = []; name = b'n' ∷ [] }

node-IsCanonical : IsCanonical node
node-IsCanonical = record {
  plain = record {
    detected = λ e. cc;
    detector_colon = omega arith;
    namespace_colon = tt;
    namespace_slash = tt;
    name_colon = omega arith;
  };
  scoped = inr ((λ e. cc), omega arith);
}

abbrev resource : Resource
resource = record {
  ref = some node;
  display_name = [];
  upstream = none;
  links = record { kind = 1; url = b'u' ∷ []; title = [] } ∷ [];
  streams = [];
  objects = [];
  labels = [];
  conditions = [];
  provenance = none;
}

abbrev idle : {A : Type 0} → Query A
idle = record { status = pending; is_fetching = false }

abbrev versions_of : Resource → Query ListVersionsResponse
versions_of r = idle

abbrev opened : Inputs
opened = record {
  canonical = search_ref (detail_href protocol_of encode versions_of resource);
  detail = idle;
  versions = idle;
  changes = idle;
  impact = idle;
}

row_opens_resource_example : detail_query opened ≡ (record { ref = some node }, true)
row_opens_resource_example =
    row_opens_resource protocol_of encode versions_of search_ref decoded resource node opened refl
      node-IsCanonical refl

abbrev codes : Codes
codes = record {
  failed_precondition = 9;
  invalid_argument = 3;
  not_found = 5;
  unimplemented = 12;
  permission_denied = 7;
  unauthenticated = 16;
}

abbrev listed : Query ListResourcesResponse
listed = record {
  status = success (record { resources = resource ∷ []; next_page_token = [] });
  is_fetching = false;
}

abbrev no_scan : Mutation ScanResponse
no_scan = record { under_way = false; failure = none; answer = none }

resources_page-IsAllowed_example :
    All
      (IsAllowed protocol_of encode)
      (links (resources_page protocol_of encode versions_of codes listed no_scan))
resources_page-IsAllowed_example =
    resources_page-IsAllowed protocol_of encode versions_of codes listed no_scan

abbrev step : ℕ → Progress
step n = record { stage = n ∷ []; message = [] }

abbrev changed : VersionChanges
changed = record { version = b'1' ∷ []; changes = []; provenance = none }

abbrev events : List (StreamEvent ℕ)
events =
    progress_event (step 1)
    ∷ partial_event changed
    ∷ unset
    ∷ progress_event (step 2)
    ∷ result_event 7
    ∷ []

fold_events_lem_example : fold_events events ≡ record {
  progress = progress_of events;
  partials = partials_of events;
  result = last_result none events;
}
fold_events_lem_example = fold_events_lem events

fold_events_run :
    fold_events events
    ≡ record { progress = step 1 ∷ step 2 ∷ []; partials = changed ∷ []; result = some 7 }
unfolding fold_events
fold_events_run = refl
