-- ===== src/Sidebar/Toggle.antt =====
-- One toggle of the sidebar, by its trigger or by the keyboard.
use kdelta.Prelude.{
  Bool, true, false, not, ◌&&◌, ◌||◌, [], ◌∷◌, none, some, ◌≡◌, ◌⊎◌, inl, inr, arith, if◌then◌else◌,
  Bool-cases,
}
use kdelta.Text.{Text, js, text_eq, text_eq_iff}
use kdelta.Sidebar.{
  Props, Cells, prevent_default, set_cookie, call_on_open_change, is_open, set_open, toggle_sidebar,
  handle_key_down, cookie_text,
}

-- The provider keeps the state itself.
pub record IsUncontrolled (p : Props) : Type 0 where
  pub no_open : p.open_prop ≡ none
  pub no_handler : p.has_on_open_change ≡ false

module _ (p : Props) where
  -- Without a parent that owns the state, two toggles in one mode leave the sidebar as it was; one
  -- toggle turns the sheet on a mobile device and the sidebar elsewhere, and not the other, and
  -- only the latter writes the cookie, with the new state.
  pub toggle_sidebar_lem :
      (mobile : Bool) (c : Cells)
      → IsUncontrolled p
      → ((toggle_sidebar p mobile (toggle_sidebar p mobile c).0).0 ≡ c)
        × (is_open p (toggle_sidebar p mobile c).0
            ≡ (if mobile then is_open p c else not (is_open p c)))
        × ((toggle_sidebar p mobile c).0.open_mobile
            ≡ (if mobile then not c.open_mobile else c.open_mobile))
        × ((toggle_sidebar p mobile c).1
            ≡ (if mobile then [] else set_cookie (cookie_text (not (is_open p c))) ∷ []))
  unfolding toggle_sidebar set_open is_open
  toggle_sidebar_lem true c u = ground arith
  toggle_sidebar_lem false c u = ground arith

  -- A parent that gives both `open` and `onOpenChange` owns the state: a toggle elsewhere than on a
  -- mobile device leaves every cell as it was and asks the parent for the opposite of what is shown.
  toggle_controlled :
      (c : Cells) (o : Bool)
      → p.open_prop ≡ some o
      → p.has_on_open_change ≡ true
      → toggle_sidebar p false c
        ≡ (c, call_on_open_change (not o) ∷ set_cookie (cookie_text (not o)) ∷ [])
  unfolding toggle_sidebar set_open is_open
  toggle_controlled c o e h = ground arith

  -- The shortcut does what the trigger does and keeps the browser from acting on it exactly for the
  -- key "b" with meta or control; every other key changes nothing.
  handle_key_down_lem :
      (mobile : Bool) (key : Text) (meta_key ctrl_key : Bool) (c : Cells)
      → (((key ≡ js "b") × ((meta_key ≡ true) ⊎ (ctrl_key ≡ true)))
          × (handle_key_down p mobile key meta_key ctrl_key c
              ≡ ((toggle_sidebar p mobile c).0, prevent_default ∷ (toggle_sidebar p mobile c).1)))
        ⊎ (¬ ((key ≡ js "b") × ((meta_key ≡ true) ⊎ (ctrl_key ≡ true)))
            × (handle_key_down p mobile key meta_key ctrl_key c ≡ (c, [])))
  unfolding handle_key_down
  handle_key_down_lem mobile key meta_key ctrl_key c =
      elim (Bool-cases (text_eq key (js "b") && (meta_key || ctrl_key))) [
        | inl hit ↦
            inl
              ((ground (arith, text_eq_iff key (js "b")), ground arith), rw (hit, handle_key_down))
        | inr miss ↦
            inr ((λ k. ground (arith, text_eq_iff key (js "b"))), rw (miss, handle_key_down))
      ]
