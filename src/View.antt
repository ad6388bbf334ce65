-- ===== src/View.antt =====
-- What a React component returns, as a tree: JSX elements with their attributes, text and
-- fragments. A handler is the message that it sends (`Msg`); the page's state answers it.
-- `className` and other constant attributes are kept as they stand in the source.
pub mod Inert
pub mod Links
pub mod Offers
use kdelta.Prelude.{
  ℕ, zero, suc, Bool, true, false, List, [], ◌∷◌, Option, none, some, String, if◌then◌else◌,
}
use kdelta.Text.{Text}

-- The variants of a badge or a button.
pub data Variant : Type 0 where
  default secondary destructive outline : Variant

pub data Attr (Msg : Type 0) : Type 0 where
  class_name : String → Attr Msg
  attr : String → String → Attr Msg
  key value title : Text → Attr Msg
  key_index : ℕ → Attr Msg
  -- the `value` of a `TabsContent`, which names the trigger that shows it
  panel_of : Text → Attr Msg
  -- `none` is undefined: the anchor has no `href`
  href : Option Text → Attr Msg
  variant : Variant → Attr Msg
  disabled : Bool → Attr Msg
  on_click on_submit : Msg → Attr Msg
  -- `onChange` is of an input, with its text; `onValueChange` of a select or tabs
  on_value_change on_change : (Text → Msg) → Attr Msg

infixr 20 ◌<>◌
pub data Node (Msg : Type 0) : Type 0 where
  -- null, false and undefined
  empty : Node Msg
  text : Text → Node Msg
  number : ℕ → Node Msg
  ◌<>◌ : Node Msg → Node Msg → Node Msg
  element : String → List (Attr Msg) → Node Msg → Node Msg

module _ {Msg : Type 0} where
  -- `{xs.map(f)}`, and with the index as key
  abbrev pub each : {A : Type 0} → List A → (A → Node Msg) → Node Msg
  each [] f = empty
  each (x ∷ xs) f = f x <> each xs f

  abbrev pub each_from : {A : Type 0} → ℕ → List A → (ℕ → A → Node Msg) → Node Msg
  each_from i [] f = empty
  each_from i (x ∷ xs) f = f i x <> each_from (suc i) xs f

  -- `{test && node}`
  abbrev pub show_if : Bool → Node Msg → Node Msg
  show_if true n = n
  show_if false n = empty

  -- `{a ? f(a) : n}` for a value that may be undefined
  abbrev pub show_some : {A : Type 0} → Option A → (A → Node Msg) → Node Msg → Node Msg
  show_some none f n = n
  show_some (some a) f n = f a
