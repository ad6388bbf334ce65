-- ===== src/Links.antt =====
-- apps/app-ui/lib/links.ts. The URL parser is the browser's (`new URL`): it is a parameter, which
-- gives a URL's `protocol`, or `none` where the constructor throws.
use kdelta.Prelude.{ℕ, Bool, Option, none, some, ◌||◌, ◌==◌, if◌then◌else◌}
use kdelta.Text.{Text, js, text_eq, display_name}
use kdelta.Api.Enum.{name_of}
use kdelta.Api.LinkKind
pub mod Safe

unfoldable pub safe_href : (Text → Option Text) → Text → Option Text
unfolding js text_eq
safe_href protocol_of url = elim (protocol_of url) [
  | none ↦ none
  | some protocol ↦
      if text_eq protocol (js "http:") || text_eq protocol (js "https:") then some url else none
]

unfoldable pub link_label : ℕ → Text
unfolding js name_of LinkKind.names display_name
link_label kind = elim (name_of LinkKind.names kind) [
  | none ↦ js "link"
  | some name ↦ if kind == LinkKind.unspecified then js "link" else display_name name
]
