-- ===== src/Streamed.antt =====
-- apps/app-ui/lib/streamed.ts: a server stream folded into a value of fixed shape. The query library
-- makes the call, hands each event to the reducer in order, and starts from the initial value again
-- on a refetch; its cache key function is a parameter.
pub mod Fold
pub mod Cache
pub mod Events
use mathlib.Core.List.{foldl}
use kdelta.Prelude.{ℕ, Bool, true, false, List, [], ◌∷◌, ◌++◌, Option, none, some}
use kdelta.Text.{Text}
use kdelta.Api.Service.{RangeInput, Progress}
use kdelta.Api.Changes.{ChangeSet, VersionChanges}
use kdelta.Api.Impact.{ImpactAssessment}

pub record StreamState (R : Type 0) : Type 0 where
  pub progress : List Progress
  pub partials : List VersionChanges
  pub result : Option R

-- `StreamEvent`; `unset` is the event whose case is undefined.
pub data StreamEvent (R : Type 0) : Type 0 where
  progress_event : Progress → StreamEvent R
  partial_event : VersionChanges → StreamEvent R
  result_event : R → StreamEvent R
  unset : StreamEvent R

pub data Method : Type 0 where
  get_changes assess_impact : Method

module _ {R : Type 0} where
  unfoldable pub reducer : StreamState R → StreamEvent R → StreamState R
  reducer acc (progress_event p) = record acc { progress = acc.progress ++ (p ∷ []) }
  reducer acc (partial_event v) = record acc { partials = acc.partials ++ (v ∷ []) }
  reducer acc (result_event r) = record acc { result = some r }
  reducer acc unset = acc

  abbrev pub initial_value : StreamState R
  initial_value = record { progress = []; partials = []; result = none }

  -- The value after the events of one fetch.
  unfoldable pub fold_events : List (StreamEvent R) → StreamState R
  unfolding reducer
  fold_events events = foldl reducer initial_value events

-- What `queryOptions` is given, beside the stream and its reducer. `none` is Infinity.
pub record QueryOptions (Key : Type 0) (R : Type 0) : Type 0 where
  pub query_key : Key
  pub call : Method × RangeInput
  pub refetch_reset : Bool
  pub initial : StreamState R
  pub enabled : Bool
  pub stale_time : Option ℕ
  pub retry : Bool

module _ {Key : Type 0} (create_query_key : Method → RangeInput → Key) where
  unfoldable pub stream_state_options :
      {R : Type 0} → Method → RangeInput → Bool → QueryOptions Key R
  stream_state_options method input enabled = record {
    query_key = create_query_key method input;
    call = (method, input);
    refetch_reset = true;
    initial = initial_value;
    enabled = enabled;
    stale_time = none;
    retry = false;
  }

  unfoldable pub changes_stream_options : RangeInput → Bool → QueryOptions Key ChangeSet
  unfolding stream_state_options
  changes_stream_options input enabled = stream_state_options get_changes input enabled

  unfoldable pub impact_stream_options : RangeInput → Bool → QueryOptions Key ImpactAssessment
  unfolding stream_state_options
  impact_stream_options input enabled = stream_state_options assess_impact input enabled
