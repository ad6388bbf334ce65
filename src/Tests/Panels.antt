-- ===== src/Tests/Panels.antt =====
-- The sidebar's state, the navigation, the retry rule and the build configuration.
use kdelta.Prelude.{true, false, List, [], ◌∷◌, none, some, ◌≡◌, refl}
use kdelta.Text.{js, text_eq, starts_with}
use kdelta.Query.{Codes, connect_error}
use kdelta.Providers.{retry}
use kdelta.AppSidebar.{is_active, root, echo}
use kdelta.Sidebar.{Props, Cells, mount}
use kdelta.Sidebar.Toggle.{IsUncontrolled}
use kdelta.Sidebar.Persist.{
  Action, toggle, press, request, run, last_cookie, Agrees, mount-run-Agrees,
}

abbrev codes : Codes
codes = record {
  failed_precondition = 9;
  invalid_argument = 3;
  not_found = 5;
  unimplemented = 12;
  permission_denied = 7;
  unauthenticated = 16;
}

retry_tests :
    (retry codes 0 (connect_error 14 []) ≡ true)
    × (retry codes 1 (connect_error 14 []) ≡ false)
    × (retry codes 0 (connect_error 9 []) ≡ false)
unfolding retry
retry_tests = (refl, refl, refl)

-- On the page of a resource no item is active.
resource_path :
    (is_active root (js "/resource") ≡ false) × (is_active echo (js "/resource") ≡ false)
unfolding is_active js text_eq starts_with
resource_path = (refl, refl)

abbrev own : Props
own = record { default_open = true; open_prop = none; has_on_open_change = false }

own-IsUncontrolled : IsUncontrolled own
own-IsUncontrolled = record { no_open = refl; no_handler = refl }

abbrev held : Props
held = record { default_open = true; open_prop = some true; has_on_open_change = true }

abbrev cells : Cells
cells = record { open_cell = true; open_mobile = false }

abbrev session : List Action
session = toggle false ∷ toggle true ∷ press false (js "b") true false ∷ request false ∷ []

mount-run-Agrees_example :
    Agrees own (run own (mount own) session).0 (last_cookie none (run own (mount own) session).1)
mount-run-Agrees_example = mount-run-Agrees own-IsUncontrolled session
