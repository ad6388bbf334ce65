-- ===== src/Streamed/Fold.antt =====
-- The folded value against the events, described one kind at a time.
use mathlib.Core.List.{foldl, append_assoc, append-nil}
use kdelta.Prelude.{List, [], ◌∷◌, ◌++◌, Option, none, some, ◌≡◌, ◌∙◌}
use kdelta.Api.Service.{Progress}
use kdelta.Api.Changes.{VersionChanges}
use kdelta.Streamed.{
  StreamEvent, progress_event, partial_event, result_event, unset, reducer, fold_events,
}

module _ {R : Type 0} where
  -- The events of one kind, in order, and the result that came last.
  unfoldable pub progress_of : List (StreamEvent R) → List Progress
  progress_of [] = []
  progress_of (progress_event p ∷ es) = p ∷ progress_of es
  progress_of (e ∷ es) = progress_of es

  unfoldable pub partials_of : List (StreamEvent R) → List VersionChanges
  partials_of [] = []
  partials_of (partial_event v ∷ es) = v ∷ partials_of es
  partials_of (e ∷ es) = partials_of es

  unfoldable pub last_result : Option R → List (StreamEvent R) → Option R
  last_result r [] = r
  last_result r (result_event a ∷ es) = last_result (some a) es
  last_result r (e ∷ es) = last_result r es

  foldl-reducer :
      (es : List (StreamEvent R)) (ps : List Progress) (vs : List VersionChanges) (r : Option R)
      → foldl reducer (record { progress = ps; partials = vs; result = r }) es ≡ record {
        progress = ps ++ progress_of es;
        partials = vs ++ partials_of es;
        result = last_result r es;
      }
  unfolding reducer progress_of partials_of last_result
  foldl-reducer [] ps vs r = simp append-nil
  foldl-reducer (progress_event p ∷ es) ps vs r =
      foldl-reducer es (ps ++ (p ∷ [])) vs r ∙ simp append_assoc
  foldl-reducer (partial_event v ∷ es) ps vs r =
      foldl-reducer es ps (vs ++ (v ∷ [])) r ∙ simp append_assoc
  foldl-reducer (result_event a ∷ es) ps vs r = foldl-reducer es ps vs (some a)
  foldl-reducer (unset ∷ es) ps vs r = foldl-reducer es ps vs r

  -- However the kinds of events interleave, the folded value holds the progress messages and the
  -- partial changes in the order in which they came, and the last result, if one came.
  pub fold_events_lem :
      (es : List (StreamEvent R))
      → fold_events es ≡ record {
        progress = progress_of es;
        partials = partials_of es;
        result = last_result none es;
      }
  unfolding fold_events
  fold_events_lem es = foldl-reducer es [] [] none
