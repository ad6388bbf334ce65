-- ===== src/AppSidebar.antt =====
-- apps/app-ui/app/sidebar.tsx: the navigation, and which of its items is active.
pub mod View
pub mod Content
use kdelta.Prelude.{
  String, Bool, true, false, ◌&&◌, List, [], ◌∷◌, if◌then◌else◌, ◌≡◌, refl, ◌↔◌, ◌++◌, Bool-cases,
  inl, inr,
}
use kdelta.Text.{Text, js, text_eq, text_eq_sound, text_eq_iff, starts_with, starts_with_iff}

pub record Item : Type 0 where
  pub href : Text
  pub label : Text
  pub icon : String

abbrev pub root : Item
unfolding js
root = record { href = js "/"; label = js "Resources"; icon = "Boxes" }

abbrev pub echo : Item
unfolding js
echo = record { href = js "/echo"; label = js "Echo"; icon = "Radio" }

abbrev pub items : List Item
items = root ∷ echo ∷ []

unfoldable pub is_active : Item → Text → Bool
unfolding js text_eq starts_with
is_active item pathname =
    if text_eq item.href (js "/") then text_eq pathname (js "/") else starts_with pathname item.href

-- The first item is active exactly on the path "/", the second exactly on the paths that begin with
-- "/echo", and so on no path are both.
items-active_iff :
    (pathname : Text)
    → ((is_active root pathname ≡ true) ↔ (pathname ≡ js "/"))
      × ((is_active echo pathname ≡ true) ↔ ((below : Text) × (pathname ≡ js "/echo" ++ below)))
      × ((is_active root pathname && is_active echo pathname) ≡ false)
unfolding is_active
items-active_iff pathname = (
  text_eq_iff pathname (js "/"),
  starts_with_iff pathname (js "/echo"),
  elim (Bool-cases (text_eq pathname (js "/"))) [
    | inl at_root ↦ rw (text_eq_sound pathname (js "/") at_root) refl
    | inr elsewhere ↦ rw elsewhere refl
  ],
)
