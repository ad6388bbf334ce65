-- ===== src/Sidebar.antt =====
-- packages/ui/src/components/sidebar.tsx: `SidebarProvider`, the state of the sidebar with its
-- controlled and uncontrolled modes, its cookie and its keyboard shortcut; and
-- packages/ui/src/hooks/use-mobile.ts.
pub mod Toggle
pub mod Persist
pub mod Slots
pub mod Panel
pub mod Controls
pub mod Menu
pub mod Content
use kdelta.Prelude.{
  ℕ, ◌*◌, Bool, true, false, not, ◌&&◌, ◌||◌, List, [], ◌∷◌, ◌++◌, Option, none, some, String,
  if◌then◌else◌, get_or, ltb, is_some,
}
use kdelta.Text.{Text, js, text_eq}

abbrev pub mobile_breakpoint : ℕ
mobile_breakpoint = 768

-- `useIsMobile`: undefined before the effect has run, then what the last measure of the window said.
pub data MobileEvent : Type 0 where
  mounted changed : ℕ → MobileEvent

unfoldable pub mobile_step : Option Bool → MobileEvent → Option Bool
mobile_step s (mounted inner_width) = some (ltb inner_width mobile_breakpoint)
mobile_step s (changed inner_width) = some (ltb inner_width mobile_breakpoint)

unfoldable pub is_mobile : Option Bool → Bool
is_mobile s = get_or s false

-- The props of the provider that decide who owns the state: `open`, and whether `onOpenChange` is
-- given.
pub record Props : Type 0 where
  pub default_open : Bool
  pub open_prop : Option Bool
  pub has_on_open_change : Bool

-- The provider's cells.
pub record Cells : Type 0 where
  pub open_cell : Bool
  pub open_mobile : Bool

-- What a handler does outside the cells.
pub data Effect : Type 0 where
  call_on_open_change : Bool → Effect
  set_cookie : Text → Effect
  prevent_default : Effect

unfoldable pub mount : Props → Cells
mount p = record { open_cell = p.default_open; open_mobile = false }

unfoldable pub cookie_max_age : ℕ
cookie_max_age = 60 * 60 * 24 * 7

-- the text of the cookie; 604800 is the maximal age in decimal digits
unfoldable pub cookie_text : Bool → Text
unfolding js
cookie_text open_state =
    js "sidebar_state="
    ++ ((if open_state then js "true" else js "false") ++ js "; path=/; max-age=604800")

module _ (p : Props) where
  -- `openProp ?? _open`
  unfoldable pub is_open : Cells → Bool
  is_open c = get_or p.open_prop c.open_cell

  -- `setOpen` of a function of the state shown; of a plain value `v` it is `λ _. v`.
  unfoldable pub set_open : (Bool → Bool) → Cells → Cells × List Effect
  unfolding is_open cookie_text
  set_open value c =
      let open_state = value (is_open c) in
      if p.has_on_open_change
      then (c, call_on_open_change open_state ∷ set_cookie (cookie_text open_state) ∷ [])
      else (record c { open_cell = open_state }, set_cookie (cookie_text open_state) ∷ [])

  -- `setOpenMobile` of a plain value, as the sheet calls it
  unfoldable pub set_open_mobile : Bool → Cells → Cells × List Effect
  set_open_mobile value c = (record c { open_mobile = value }, [])

  unfoldable pub toggle_sidebar : Bool → Cells → Cells × List Effect
  unfolding set_open
  toggle_sidebar mobile c =
      if mobile then (record c { open_mobile = not c.open_mobile }, []) else set_open not c

  -- `handleKeyDown`: the key, and whether meta or control is held.
  unfoldable pub handle_key_down : Bool → Text → Bool → Bool → Cells → Cells × List Effect
  unfolding toggle_sidebar js text_eq
  handle_key_down mobile key meta_key ctrl_key c =
      if text_eq key (js "b") && (meta_key || ctrl_key)
      then ((toggle_sidebar mobile c).0, prevent_default ∷ (toggle_sidebar mobile c).1)
      else (c, [])

  -- `state`, by which the sidebar is styled
  unfoldable pub shown_state : Cells → Text
  unfolding is_open js
  shown_state c = if is_open c then js "expanded" else js "collapsed"
