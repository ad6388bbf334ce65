-- ===== src/Streamed/Events.antt =====
-- The cast of apps/app-ui/lib/streamed.ts: the responses of the two streaming methods, read as the
-- events of the reducer.
use kdelta.Prelude.{List, [], ◌∷◌, map, ◌≡◌, refl, ap, ◌∙◌}
use kdelta.Api.Changes.{ChangeSet}
use kdelta.Api.Impact.{ImpactAssessment}
use kdelta.Api.Service.{GetChangesResponse, AssessImpactResponse}
use kdelta.Streamed.{
  StreamEvent, progress_event, partial_event, result_event, unset, StreamState, fold_events,
}
use kdelta.Streamed.Fold.{partials_of, fold_events_lem}

-- `client[method](…) as AsyncIterable<StreamEvent<Result>>`: what each response is as an event.
unfoldable pub changes_event : GetChangesResponse → StreamEvent ChangeSet
changes_event (GetChangesResponse.progress p) = progress_event p
changes_event (GetChangesResponse.result set) = result_event set
changes_event (GetChangesResponse.partial v) = partial_event v
changes_event GetChangesResponse.unset = unset

unfoldable pub impact_event : AssessImpactResponse → StreamEvent ImpactAssessment
impact_event (AssessImpactResponse.progress p) = progress_event p
impact_event (AssessImpactResponse.result a) = result_event a
impact_event AssessImpactResponse.unset = unset

partials_of-impact : (rs : List AssessImpactResponse) → partials_of (map impact_event rs) ≡ []
unfolding partials_of impact_event
partials_of-impact [] = refl
partials_of-impact (AssessImpactResponse.progress p ∷ rs) = partials_of-impact rs
partials_of-impact (AssessImpactResponse.result a ∷ rs) = partials_of-impact rs
partials_of-impact (AssessImpactResponse.unset ∷ rs) = partials_of-impact rs

-- Whatever the server streams for an assessment, the folded value never holds partial changes: only
-- a changelog's stream fills them.
pub impact-partials :
    (rs : List AssessImpactResponse) → (fold_events (map impact_event rs)).partials ≡ []
impact-partials rs =
    ap (λ (s : StreamState ImpactAssessment). s.partials) (fold_events_lem (map impact_event rs))
    ∙ partials_of-impact rs
