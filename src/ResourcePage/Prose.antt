-- ===== src/ResourcePage/Prose.antt =====
-- The components of resource/page.tsx that render streamed progress and prose.
use kdelta.Prelude.{ℕ, ◌-◌, ◌%◌, Bool, not, List, [], ◌∷◌, if◌then◌else◌, ◌==◌, length}
use kdelta.Text.{Text, js, truthy, split, join}
use kdelta.View.{
  class_name, key_index, variant, Node, empty, text, ◌<>◌, element, each, each_from, show_if,
  show_some, key,
}
use kdelta.Api.Service.{Progress}
use kdelta.Api.Changes.{Change, VersionChanges, ChangeSet}
use kdelta.Api.Common.{Provenance}
use kdelta.Api.ChangeType
use kdelta.Enums.{enum_label, change_badge_variant}

module _ {Msg : Type 0} where
  unfoldable pub progress_line : ℕ → ℕ → Progress → Node Msg
  unfolding js
  progress_line count index p =
      element "p"
        (key_index index
          ∷ class_name (if index == count - 1 then "animate-pulse" else "opacity-60")
          ∷ [])
        (text (js "» ") <> text p.stage <> text (js ": ") <> text p.message)

  unfoldable pub progress_log : List Progress → Bool → Node Msg
  unfolding progress_line js
  progress_log progress active =
      if not active
      then empty
      else element "div"
          (class_name
              "space-y-1 rounded-lg border border-border bg-card/60 px-3 py-2 font-mono text-xs text-muted-foreground"
            ∷ [])
          (each_from 0 progress (progress_line (length progress))
            <> show_if (length progress == 0)
                (element "p" (class_name "animate-pulse" ∷ []) (text (js "» starting…"))))

  unfoldable pub inline_part : ℕ → Text → Node Msg
  inline_part index part =
      if index % 2 == 1
      then element "code"
          (key_index index
            ∷ class_name "rounded bg-secondary px-1 py-0.5 font-mono text-[0.85em]"
            ∷ [])
          (text part)
      else element "span" (key_index index ∷ []) (text part)

  unfoldable pub inline_text : Text → Node Msg
  unfolding inline_part split
  inline_text t =
      let parts = split b'`' t in
      if length parts % 2 == 0 then text t else each_from 0 parts inline_part

  unfoldable pub change_item : ℕ → Change → Node Msg
  unfolding inline_text change_badge_variant enum_label js join ChangeType.names
  change_item index change = element "div" (key_index index ∷ class_name "space-y-1" ∷ []) (
      element "div" (class_name "flex flex-wrap items-center gap-2" ∷ []) (
        element "Badge" (variant (change_badge_variant change.type) ∷ [])
          (text (enum_label ChangeType.names change.type))
        <> element "span" (class_name "text-sm" ∷ []) (inline_text change.summary))
      <> show_if (not (length change.affected_paths == 0)) (
          element "p" (class_name "font-mono text-xs text-muted-foreground" ∷ [])
            (text (js "affects ") <> text (join (js ", ") change.affected_paths))))

  unfoldable pub provenance_line : Provenance → Node Msg
  unfolding js
  provenance_line p = element "CardDescription" [] (
      if truthy p.model
      then text (js "extracted by ") <> text p.model
      else text (js "verbatim release notes"))

  unfoldable pub version_changes_card : VersionChanges → Node Msg
  unfolding change_item provenance_line
  version_changes_card version = element "Card" [] (
      element "CardHeader" [] (
        element "CardTitle" (class_name "font-mono" ∷ []) (text version.version)
        <> show_some version.provenance provenance_line empty)
      <> element "CardContent" (class_name "space-y-3" ∷ [])
          (each_from 0 version.changes change_item))

  unfoldable pub keyed_card : VersionChanges → Node Msg
  unfolding version_changes_card
  keyed_card version =
      element "VersionChangesCard" (key version.version ∷ []) (version_changes_card version)

  unfoldable pub change_set_view : ChangeSet → Node Msg
  unfolding keyed_card
  change_set_view set = element "div" (class_name "space-y-4" ∷ []) (each set.versions keyed_card)
