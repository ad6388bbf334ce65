-- ===== src/Enums.antt =====
-- apps/app-ui/lib/enums.ts: labels and badge variants of enum values.
use kdelta.Prelude.{
  ℕ, Bool, true, false, List, [], ◌∷◌, Option, none, some, ◌||◌, ◌==◌, if◌then◌else◌, get_or,
}
use kdelta.Text.{Text, js, truthy, display_name}
use kdelta.View.{Variant, default, secondary, destructive}
use kdelta.Api.Enum.{name_of}
use kdelta.Api.ChangeType
use kdelta.Api.ImpactSeverity
pub mod Labels
pub mod Variants

-- `s || t` for strings
abbrev pub or_else : Text → Text → Text
or_else [] t = t
or_else (c ∷ s) t = c ∷ s

-- `enumObj` is the table of names.
unfoldable pub enum_label : List (ℕ × Text) → ℕ → Text
unfolding js name_of display_name
enum_label enum_obj value =
    or_else (display_name (get_or (name_of enum_obj value) [])) (js "unknown")

unfoldable pub change_badge_variant : ℕ → Variant
change_badge_variant type =
    if (type == ChangeType.breaking)
      || (type == ChangeType.security)
      || (type == ChangeType.removed)
      || (type == ChangeType.default_changed)
    then destructive
    else if type == ChangeType.added
    then default
    else secondary

unfoldable pub severity_variant : ℕ → Variant
severity_variant severity =
    if (severity == ImpactSeverity.critical) || (severity == ImpactSeverity.high)
    then destructive
    else if severity == ImpactSeverity.medium
    then default
    else secondary
