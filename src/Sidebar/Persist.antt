-- ===== src/Sidebar/Persist.antt =====
-- The cookie over a whole session.
use kdelta.Prelude.{
  Bool, true, false, not, List, [], ◌∷◌, ◌++◌, Option, none, some, ◌≡◌, refl, arith, Bool-cases,
  inl, inr, ◌&&◌, ◌||◌,
}
use kdelta.Text.{Text, js, text_eq}
use kdelta.Sidebar.{
  Props, Cells, Effect, prevent_default, set_cookie, call_on_open_change, mount, is_open, set_open,
  set_open_mobile, toggle_sidebar, handle_key_down, cookie_text,
}
use kdelta.Sidebar.Toggle.{IsUncontrolled}

-- What can happen: the trigger or the rail, a key, or a component that sets the state through the
-- context; each on a device that is mobile or not at that time; or the sheet opens or closes.
pub data Action : Type 0 where
  toggle : (mobile : Bool) → Action
  press : (mobile : Bool) → Text → (meta_key ctrl_key : Bool) → Action
  request sheet : Bool → Action

module _ (p : Props) where
  unfoldable pub act : Cells → Action → Cells × List Effect
  act c (toggle mobile) = toggle_sidebar p mobile c
  act c (press mobile key meta_key ctrl_key) = handle_key_down p mobile key meta_key ctrl_key c
  act c (request v) = set_open p (λ _. v) c
  act c (sheet v) = set_open_mobile p v c

  unfoldable pub run : Cells → List Action → Cells × List Effect
  run c [] = (c, [])
  run c (a ∷ as_) = let rest = run (act c a).0 as_ in (rest.0, (act c a).1 ++ rest.1)

-- the cookie after the effects
abbrev pub last_cookie : Option Text → List Effect → Option Text
last_cookie k [] = k
last_cookie k (set_cookie t ∷ es) = last_cookie (some t) es
last_cookie k (e ∷ es) = last_cookie k es

last_cookie-append :
    (k : Option Text) (es fs : List Effect)
    → last_cookie k (es ++ fs) ≡ last_cookie (last_cookie k es) fs
last_cookie-append k [] fs = refl
last_cookie-append k (set_cookie t ∷ es) fs = last_cookie-append (some t) es fs
last_cookie-append k (call_on_open_change b ∷ es) fs = last_cookie-append k es fs
last_cookie-append k (prevent_default ∷ es) fs = last_cookie-append k es fs

-- The cookie says what the sidebar shows; none is written while it is as it was at first.
abbrev pub Agrees : Props → Cells → Option Text → Type 0
Agrees p c none = is_open p c ≡ p.default_open
Agrees p c (some t) = t ≡ cookie_text (is_open p c)

module _ {p : Props} (u : IsUncontrolled p) where
  set_open-Agrees :
      (f : Bool → Bool) (c : Cells) (k : Option Text)
      → Agrees p (set_open p f c).0 (last_cookie k (set_open p f c).1)
  unfolding set_open is_open
  set_open-Agrees f c k = ground arith

  toggle-Agrees :
      (mobile : Bool) (c : Cells) (k : Option Text)
      → Agrees p c k
      → Agrees p (toggle_sidebar p mobile c).0 (last_cookie k (toggle_sidebar p mobile c).1)
  unfolding toggle_sidebar
  toggle-Agrees true c none h = unfold is_open in h
  toggle-Agrees true c (some t) h = unfold is_open in h
  toggle-Agrees false c k h = set_open-Agrees not c k

  key-Agrees :
      (mobile : Bool) (key : Text) (meta_key ctrl_key : Bool) (c : Cells) (k : Option Text)
      → Agrees p c k
      → Agrees p
          (handle_key_down p mobile key meta_key ctrl_key c).0
          (last_cookie k (handle_key_down p mobile key meta_key ctrl_key c).1)
  unfolding handle_key_down
  key-Agrees mobile key meta_key ctrl_key c k h =
      elim (Bool-cases (text_eq key (js "b") && (meta_key || ctrl_key))) [
        | inl hit ↦ rw (hit, handle_key_down) (toggle-Agrees mobile c k h)
        | inr miss ↦ rw (miss, handle_key_down) h
      ]

  act-Agrees :
      (a : Action) (c : Cells) (k : Option Text)
      → Agrees p c k
      → Agrees p (act p c a).0 (last_cookie k (act p c a).1)
  unfolding act
  act-Agrees (toggle mobile) c k h = toggle-Agrees mobile c k h
  act-Agrees (press mobile key m ctrl) c k h = key-Agrees mobile key m ctrl c k h
  act-Agrees (request v) c k h = set_open-Agrees (λ _. v) c k
  act-Agrees (sheet v) c none h = unfold set_open_mobile is_open in h
  act-Agrees (sheet v) c (some t) h = unfold set_open_mobile is_open in h

  run-Agrees :
      (actions : List Action) (c : Cells) (k : Option Text)
      → Agrees p c k
      → Agrees p (run p c actions).0 (last_cookie k (run p c actions).1)
  unfolding run
  run-Agrees [] c k h = h
  run-Agrees (a ∷ actions) c k h =
      rw (last_cookie-append k (act p c a).1 (run p (act p c a).0 actions).1)
        (run-Agrees actions (act p c a).0 (last_cookie k (act p c a).1) (act-Agrees a c k h))

  -- After any session without a parent that owns the state, the last cookie written says whether
  -- the sidebar is open; if none was written, the sidebar is as it was at first.
  pub mount-run-Agrees :
      (actions : List Action)
      → Agrees p (run p (mount p) actions).0 (last_cookie none (run p (mount p) actions).1)
  unfolding mount is_open
  mount-run-Agrees actions = run-Agrees actions (mount p) none (ground arith)
