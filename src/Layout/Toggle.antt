-- ===== src/Layout/Toggle.antt =====
-- The trigger in the frame and the navigation beside it, over one click.
use kdelta.Prelude.{Bool, false, not, List, [], ◌∷◌, ◌++◌, ◌≡◌, refl, Bool-cases, inl, inr}
use mathlib.Core.Bool.{or-false}
use kdelta.Text.{Text, js, text_eq}
use kdelta.Ui.{Styling, Call, caller, empty}
use kdelta.Ui.Tree.{clicks, flags}
use kdelta.Sidebar
use kdelta.Sidebar.{Props, Cells, Effect, is_open}
use kdelta.Sidebar.Toggle.{IsUncontrolled, toggle_sidebar_lem}
use kdelta.Sidebar.Panel.{context_value}
use kdelta.AppSidebar.View.{app_sidebar}
use kdelta.AppSidebar.Content.{app_sidebar-Shows}
use kdelta.Layout.{root_layout}
use kdelta.Layout.Content.{root_layout_lem}

module _ (p : Props) (mobile : Bool) where
  -- A call of a handler: `requested` is what the sheet asks for. A caller's function is not the
  -- sidebar's and leaves its cells alone.
  unfoldable pub perform : Bool → Call → Cells → Cells × List Effect
  perform requested (caller n) c = (c, [])
  perform requested Call.toggle_sidebar c = Sidebar.toggle_sidebar p mobile c
  perform requested Call.set_open_mobile c = Sidebar.set_open_mobile p requested c

  unfoldable pub perform_all : Bool → List Call → Cells → Cells × List Effect
  unfolding perform
  perform_all requested [] c = (c, [])
  perform_all requested (call ∷ calls) c =
      let (c', effects) = perform requested call c in
      let rest = perform_all requested calls c' in (rest.0, effects ++ rest.1)

-- A state is shown as collapsed exactly while it is not open.
collapsed_iff :
    (p : Props) (c : Cells)
    → not (text_eq (context_value p false c).state (js "collapsed")) ≡ is_open p c
unfolding context_value text_eq
collapsed_iff p c = elim (Bool-cases (is_open p c)) [ inl o ↦ rw o refl | inr o ↦ rw o refl ]

hidden_flags :
    (s : Styling) (p : Props) (c : Cells) (pathname : Text)
    → flags (js "hidden") (app_sidebar s (context_value p false c) pathname)
      ≡ is_open p c ∷ is_open p c ∷ []
unfolding context_value
hidden_flags s p c pathname =
    rw
      (
        (app_sidebar-Shows s (context_value p false c) pathname).hinted,
        or-false (not (text_eq (context_value p false c).state (js "collapsed"))),
        collapsed_iff p c,
      )
      refl

-- Without a parent that owns the state and on a desktop, the frame around a page that offers nothing
-- offers one click; the navigation's tooltips are hidden exactly while the sidebar is open; and after
-- the click they are hidden exactly if they were shown before.
root_layout-toggle :
    (s : Styling) (p : Props) (c : Cells) (pathname : Text)
    → IsUncontrolled p
    → (calls : List Call) × (clicks (root_layout s (context_value p false c) pathname empty)
        ≡ calls ∷ [])
      × (flags (js "hidden") (app_sidebar s (context_value p false c) pathname)
          ≡ is_open p c ∷ is_open p c ∷ [])
      × (flags
            (js "hidden")
            (app_sidebar s (context_value p false (perform_all p false false calls c).0) pathname)
          ≡ not (is_open p c) ∷ not (is_open p c) ∷ [])
unfolding perform_all clicks
root_layout-toggle s p c pathname u =
    let after = (Sidebar.toggle_sidebar p false c).0 in
    (
      Call.toggle_sidebar ∷ [],
      (root_layout_lem s (context_value p false c) pathname empty).2,
      hidden_flags s p c pathname,
      rw (hidden_flags s p after pathname, (toggle_sidebar_lem p false c u).1) refl,
    )
