-- ===== src/Layout/Content.antt =====
-- What the frame adds to a page.
use kdelta.Prelude.{Bool, true, false, [], ◌∷◌, ◌++◌, ◌≡◌, refl}
use kdelta.Text.{Text, js, text_eq}
use kdelta.Ui.{Styling, toggle_sidebar, Markup, attr}
use kdelta.Ui.Slot.{slot}
use kdelta.Ui.Tree.{links, clicks, words}
use kdelta.Sidebar.Panel.{Context}
use kdelta.Ui.Button.{button}
use kdelta.Sidebar.Controls.{calls_in}
use kdelta.AppSidebar.View.{app_sidebar}
use kdelta.AppSidebar.Content.{app_sidebar-Shows}
use kdelta.Layout.{root_layout}

app_sidebar-clicks_on :
    (s : Styling) (ctx : Context) (mobile : Bool) (pathname : Text)
    → clicks (app_sidebar s (record ctx { is_mobile = mobile }) pathname) ≡ []
unfolding app_sidebar clicks slot text_eq attr
app_sidebar-clicks_on s ctx true pathname = refl
app_sidebar-clicks_on s ctx false pathname = refl

-- Around every page, on every path, in every state of the sidebar and on every device: the page's
-- words come last and once, and before them nothing but the navigation and the header; the links
-- are those of the navigation and then the page's; and what can be clicked is the sidebar's trigger,
-- which toggles it, and then what the page offers.
pub root_layout_lem :
    (s : Styling) (ctx : Context) (pathname : Text) (children : Markup)
    → (words (root_layout s ctx pathname children)
        ≡ words (app_sidebar s ctx pathname)
          ++ (js "Toggle Sidebar" ∷ js "Kubernetes version deltas" ∷ words children))
      × (links (root_layout s ctx pathname children)
          ≡ js "/" ∷ js "/" ∷ js "/echo" ∷ links children)
      × (clicks (root_layout s ctx pathname children) ≡ (toggle_sidebar ∷ []) ∷ clicks children)
unfolding root_layout links clicks slot text_eq attr button calls_in
root_layout_lem s ctx pathname children = (
  refl,
  rw ((app_sidebar-Shows s ctx pathname).linked) refl,
  rw (app_sidebar-clicks_on s ctx ctx.is_mobile pathname) refl,
)
