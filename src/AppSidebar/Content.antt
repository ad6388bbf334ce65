-- ===== src/AppSidebar/Content.antt =====
-- What the navigation shows.
use kdelta.Prelude.{Bool, true, false, not, ◌||◌, [], ◌∷◌, ◌≡◌, refl}
use kdelta.Text.{Text, js, text_eq}
use kdelta.Ui.{Styling, Markup, attr}
use kdelta.Ui.Slot.{slot}
use kdelta.Ui.Tree.{links, flags}
use kdelta.Sidebar.Panel.{Context}
use kdelta.AppSidebar.{root, echo, is_active}
use kdelta.AppSidebar.View.{app_sidebar}

-- The navigation of a path: where it links, which entries are marked as active, and which of their
-- tooltips are hidden.
pub record Shows (ctx : Context) (pathname : Text) (m : Markup) : Type 0 where
  pub linked : links m ≡ js "/" ∷ js "/" ∷ js "/echo" ∷ []
  pub marked : flags (js "data-active") m ≡ is_active root pathname ∷ is_active echo pathname ∷ []
  pub hinted :
      let quiet = not (text_eq ctx.state (js "collapsed")) || ctx.is_mobile in
      flags (js "hidden") m ≡ quiet ∷ quiet ∷ []

app_sidebar-Shows_on :
    (s : Styling) (ctx : Context) (mobile : Bool) (pathname : Text)
    → Shows
        (record ctx { is_mobile = mobile })
        pathname
        (app_sidebar s (record ctx { is_mobile = mobile }) pathname)
unfolding app_sidebar links flags slot text_eq attr
app_sidebar-Shows_on s ctx true pathname = record { linked = refl; marked = refl; hinted = refl }
app_sidebar-Shows_on s ctx false pathname = record { linked = refl; marked = refl; hinted = refl }

-- On every path, in every state of the sidebar and on every device the navigation links to "/" and
-- to its two items in order, marks exactly the entries that are active on the path, and shows the
-- entries' tooltips only while the sidebar is collapsed on a device that is not mobile.
pub app_sidebar-Shows :
    (s : Styling) (ctx : Context) (pathname : Text)
    → Shows ctx pathname (app_sidebar s ctx pathname)
app_sidebar-Shows s ctx pathname = app_sidebar-Shows_on s ctx ctx.is_mobile pathname
