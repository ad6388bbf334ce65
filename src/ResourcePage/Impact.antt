-- ===== src/ResourcePage/Impact.antt =====
-- The components of resource/page.tsx that render an impact assessment.
use kdelta.Prelude.{ℕ, not, [], ◌∷◌, if◌then◌else◌, ◌==◌, length}
use kdelta.Text.{js, truthy, join}
use kdelta.View.{
  class_name, key_index, variant, outline, Node, text, ◌<>◌, element, each_from, show_if,
}
use kdelta.Ref.{ref_to_string}
use kdelta.Api.Impact.{
  ChangeEvidence, RecommendedAction, ImpactFinding, InformationGap, ResourceImpact,
  ImpactAssessment,
}
use kdelta.Api.ImpactSeverity
use kdelta.Enums.{enum_label, severity_variant}
use kdelta.ResourcePage.Prose.{inline_text}

module _ {Msg : Type 0} where
  unfoldable pub severity_badge : ℕ → Node Msg
  unfolding severity_variant enum_label ImpactSeverity.names
  severity_badge severity =
      element "Badge" (variant (severity_variant severity) ∷ [])
        (text (enum_label ImpactSeverity.names severity))

  unfoldable pub resource_impact : ℕ → ResourceImpact → Node Msg
  unfolding severity_badge inline_text ref_to_string
  resource_impact index r =
      element "div"
        (key_index index
          ∷ class_name "space-y-1 border-b border-border pb-3 last:border-0 last:pb-0"
          ∷ [])
        (element "div" (class_name "flex flex-wrap items-center gap-2" ∷ []) (
            severity_badge r.severity
            <> element "span" (class_name "font-mono text-sm" ∷ []) (text (ref_to_string r.ref)))
          <> element "p" (class_name "text-sm text-muted-foreground" ∷ [])
              (inline_text r.explanation))

  unfoldable pub evidence_line : ℕ → ChangeEvidence → Node Msg
  unfolding js join
  evidence_line i evidence =
      element "p" (key_index i ∷ class_name "text-xs text-muted-foreground" ∷ []) (
        text evidence.version
        <> text (js ": ")
        <> text evidence.summary
        <> show_if (not (length evidence.affected_paths == 0)) (
            element "span" (class_name "font-mono" ∷ [])
              (text (js " (") <> text (join (js ", ") evidence.affected_paths) <> text (js ")"))))

  unfoldable pub action_line : ℕ → RecommendedAction → Node Msg
  unfolding js inline_text
  action_line i action = element "p" (key_index i ∷ class_name "text-sm" ∷ []) (
      element "Badge" (variant outline ∷ [])
        (text (if action.before_upgrade then js "before upgrade" else js "after upgrade"))
      <> text (js " ")
      <> inline_text action.description
      <> show_if (truthy action.command) (
          element "code" (class_name "ml-1 rounded bg-secondary px-1 py-0.5 font-mono text-xs" ∷ [])
            (text action.command)))

  unfoldable pub finding_card : ℕ → ImpactFinding → Node Msg
  unfolding severity_badge inline_text evidence_line action_line
  finding_card index finding = element "Card" (key_index index ∷ []) (
      element "CardHeader" [] (
        element "CardTitle" (class_name "flex items-center gap-2 text-base" ∷ [])
          (severity_badge finding.severity <> inline_text finding.title)
        <> element "CardDescription" [] (inline_text finding.rationale))
      <> element "CardContent" (class_name "space-y-2" ∷ [])
          (each_from 0 finding.evidence evidence_line <> each_from 0 finding.actions action_line))

  unfoldable pub gap_line : ℕ → InformationGap → Node Msg
  unfolding js inline_text
  gap_line index gap =
      element "p" (key_index index ∷ class_name "text-sm text-muted-foreground" ∷ []) (
        text (js "? ")
        <> inline_text gap.description
        <> show_if (truthy gap.suggestion) (
            element "span" (class_name "text-xs" ∷ [])
              (text (js " — ") <> inline_text gap.suggestion)))

  unfoldable pub impact_view : ImpactAssessment → Node Msg
  unfolding severity_badge inline_text resource_impact finding_card gap_line js
  impact_view assessment = element "div" (class_name "space-y-4" ∷ []) (
      element "Card" [] (
        element "CardHeader" [] (
          element "CardTitle" (class_name "flex items-center gap-2" ∷ [])
            (severity_badge assessment.overall_severity <> text (js "Impact assessment"))
          <> element "CardDescription" [] (inline_text assessment.summary)))
      <> show_if (not (length assessment.resources == 0)) (
          element "Card" [] (
            element "CardHeader" [] (element "CardTitle" [] (text (js "Affected resources")))
            <> element "CardContent" (class_name "space-y-3" ∷ [])
                (each_from 0 assessment.resources resource_impact)))
      <> each_from 0 assessment.findings finding_card
      <> show_if (not (length assessment.gaps == 0)) (
          element "Card" [] (
            element "CardHeader" []
              (element "CardTitle" (class_name "text-base" ∷ []) (text (js "Unknowns")))
            <> element "CardContent" (class_name "space-y-1" ∷ [])
                (each_from 0 assessment.gaps gap_line))))
