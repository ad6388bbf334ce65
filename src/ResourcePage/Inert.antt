-- ===== src/ResourcePage/Inert.antt =====
-- The parts of the resource page without links and handlers: prose, progress, cards, panels.
use kdelta.Prelude.{
  ℕ, Bool, true, false, not, List, [], Option, some, ◌≡◌, refl, length, ◌>>=◌, ◌==◌, ◌%◌, get_or,
  if◌then◌else◌,
}
use kdelta.Text.{Text, split, truthy}
use kdelta.View.{Node, empty}
use kdelta.View.Inert.{
  inert, inert-each, inert-each_from, inert-show_if, inert-show_some, and_intro,
}
use kdelta.Query.{payload, error}
use kdelta.Api.Common.{Provenance}
use kdelta.Api.Changes.{Change, VersionChanges, ChangeSet}
use kdelta.Api.Impact.{
  ImpactFinding, InformationGap, ResourceImpact, ImpactAssessment, RecommendedAction,
  ChangeEvidence,
}
use kdelta.Api.Service.{Progress}
use kdelta.Streamed.{StreamState}
use kdelta.ResourcePage.{PageState, Inputs, Msg}
use kdelta.ResourcePage.Prose.{
  progress_line, progress_log, inline_part, inline_text, change_item, provenance_line,
  version_changes_card, keyed_card, change_set_view,
}
use kdelta.ResourcePage.Impact.{
  severity_badge, resource_impact, evidence_line, action_line, finding_card, gap_line, impact_view,
}
use kdelta.ResourcePage.Panels.{error_box, changes_body, changes_panel, impact_panel}

inert-if :
    (b : Bool) (m n : Node Msg)
    → inert m ≡ true
    → inert n ≡ true
    → inert (if b then m else n) ≡ true
inert-if true m n h k = h
inert-if false m n h k = k

inline_part-inert : (index : ℕ) (part : Text) → inert {Msg = Msg} (inline_part index part) ≡ true
unfolding inline_part
inline_part-inert index part = inert-if (index % 2 == 1) _ _ refl refl

inline_text-inert : (t : Text) → inert {Msg = Msg} (inline_text t) ≡ true
unfolding inline_text
inline_text-inert t =
    inert-if (length (split b'`' t) % 2 == 0) _ _ refl
      (inert-each_from 0 (split b'`' t) inline_part inline_part-inert)

progress_line-inert : (n i : ℕ) (p : Progress) → inert {Msg = Msg} (progress_line n i p) ≡ true
unfolding progress_line
progress_line-inert n i p = refl

progress_log-inert : (ps : List Progress) (b : Bool) → inert {Msg = Msg} (progress_log ps b) ≡ true
unfolding progress_log
progress_log-inert ps b = inert-if (not b) _ _ refl (
    rw (inert-each_from 0 ps (progress_line (length ps)) (progress_line-inert (length ps)))
      (inert-show_if (length ps == 0) _ refl))

change_item-inert : (i : ℕ) (c : Change) → inert {Msg = Msg} (change_item i c) ≡ true
unfolding change_item
change_item-inert i c =
    rw inline_text-inert (inert-show_if (not (length c.affected_paths == 0)) _ refl)

provenance_line-inert : (p : Provenance) → inert {Msg = Msg} (provenance_line p) ≡ true
unfolding provenance_line
provenance_line-inert p = inert-if (truthy p.model) _ _ refl refl

version_changes_card-inert :
    (v : VersionChanges) → inert {Msg = Msg} (version_changes_card v) ≡ true
unfolding version_changes_card
version_changes_card-inert v =
    rw (inert-show_some v.provenance provenance_line empty provenance_line-inert refl)
      (inert-each_from 0 v.changes change_item change_item-inert)

pub keyed_card-inert : (v : VersionChanges) → inert {Msg = Msg} (keyed_card v) ≡ true
unfolding keyed_card
keyed_card-inert v = version_changes_card-inert v

change_set_view-inert : (set : ChangeSet) → inert {Msg = Msg} (change_set_view set) ≡ true
unfolding change_set_view
change_set_view-inert set = inert-each set.versions keyed_card keyed_card-inert

resource_impact-inert :
    (i : ℕ) (r : ResourceImpact) → inert {Msg = Msg} (resource_impact i r) ≡ true
unfolding resource_impact severity_badge
resource_impact-inert i r = inline_text-inert r.explanation

action_line-inert : (i : ℕ) (a : RecommendedAction) → inert {Msg = Msg} (action_line i a) ≡ true
unfolding action_line
action_line-inert i a = rw inline_text-inert (inert-show_if (truthy a.command) _ refl)

evidence_line-inert : (i : ℕ) (e : ChangeEvidence) → inert {Msg = Msg} (evidence_line i e) ≡ true
unfolding evidence_line
evidence_line-inert i e = inert-show_if (not (length e.affected_paths == 0)) _ refl

finding_card-inert : (i : ℕ) (f : ImpactFinding) → inert {Msg = Msg} (finding_card i f) ≡ true
unfolding finding_card severity_badge
finding_card-inert i f = simp (
  inline_text-inert,
  inert-each_from 0 f.evidence evidence_line evidence_line-inert,
  inert-each_from 0 f.actions action_line action_line-inert,
)

gap_line-inert : (i : ℕ) (g : InformationGap) → inert {Msg = Msg} (gap_line i g) ≡ true
unfolding gap_line
gap_line-inert i g =
    rw inline_text-inert (inert-show_if (truthy g.suggestion) _ (inline_text-inert g.suggestion))

impact_view-inert : (a : ImpactAssessment) → inert {Msg = Msg} (impact_view a) ≡ true
unfolding impact_view severity_badge
impact_view-inert a = and_intro _ _ (inline_text-inert a.summary) (
    and_intro _ _
      (inert-show_if (not (length a.resources == 0)) _
        (inert-each_from 0 a.resources resource_impact resource_impact-inert))
      (and_intro _ _ (inert-each_from 0 a.findings finding_card finding_card-inert) (
        inert-show_if (not (length a.gaps == 0)) _
          (inert-each_from 0 a.gaps gap_line gap_line-inert))))

changes_body-inert : (d : Option (StreamState ChangeSet)) → inert (changes_body d) ≡ true
unfolding changes_body
changes_body-inert d =
    inert-show_some (d >>= (λ x. x.result)) change_set_view _ change_set_view-inert (
      inert-show_if (not (get_or (d >>= (λ x. some (length x.partials))) 0 == 0)) _
        (inert-each (get_or (d >>= (λ x. some x.partials)) []) keyed_card keyed_card-inert))

pub changes_panel-inert : (i : Inputs) (s : PageState) → inert (changes_panel i s) ≡ true
unfolding changes_panel error_box
changes_panel-inert i s = and_intro _ _ (inert-show_if (not s.changes_requested) _ refl) (
    inert-show_if s.changes_requested _ (
      and_intro _ _
        (progress_log-inert (get_or (payload i.changes >>= (λ x. some x.progress)) [])
          i.changes.is_fetching)
        (and_intro _ _ (inert-show_some (error i.changes) error_box empty (λ e. refl) refl)
          (changes_body-inert (payload i.changes)))))

pub impact_panel-inert : (i : Inputs) (s : PageState) → inert (impact_panel i s) ≡ true
unfolding impact_panel error_box
impact_panel-inert i s = and_intro _ _ (inert-show_if (not s.impact_requested) _ refl) (
    inert-show_if s.impact_requested _ (
      and_intro _ _
        (progress_log-inert (get_or (payload i.impact >>= (λ x. some x.progress)) [])
          i.impact.is_fetching)
        (and_intro _ _ (inert-show_some (error i.impact) error_box empty (λ e. refl) refl) (
          inert-show_some (payload i.impact >>= (λ x. x.result)) impact_view empty impact_view-inert
            refl))))
