-- ===== src/Ui.antt =====
-- packages/ui/src: what a component of the library renders. An element keeps its attributes, own
-- ones first and the caller's `{...props}` behind them; React reads the last of two with one name.
-- `twMerge`, `clsx` and `cva` are third-party functions, taken as parameters (`Styling`); elements
-- of Radix and the icons are leaves of the tree, under the names by which the source calls them.
pub mod Attributes
pub mod Slot
pub mod Tree
pub mod Card
pub mod Table
pub mod Button
pub mod Form
pub mod Tabs
pub mod Select
pub mod Sheet
pub mod Tooltip
pub mod Slots
use kdelta.Prelude.{
  ℕ, zero, suc, Bool, true, false, not, ◌||◌, List, [], ◌∷◌, ◌++◌, map, filter, Option, none, some,
  String, or_some, if◌then◌else◌,
}
use kdelta.Text.{Text, js, text_eq, truthy}

-- What a handler calls: a function of the caller's, or a setter of the sidebar's context.
pub data Call : Type 0 where
  caller : ℕ → Call
  toggle_sidebar set_open_mobile : Call

pub data Value : Type 0 where
  undefined : Value
  string : Text → Value
  boolean : Bool → Value
  -- a number, and the opposite of one
  number minus : ℕ → Value
  handler : List Call → Value
  style : List (String × Text) → Value

abbrev pub Attributes : Type 0
Attributes = List (Text × Value)

infixr 20 ◌<>◌
pub data Markup : Type 0 where
  empty : Markup
  text : Text → Markup
  ◌<>◌ : Markup → Markup → Markup
  element : String → Attributes → Markup → Markup

-- The argument of `cva`: the base, for each variant the class names of its values, the defaults.
pub record Config : Type 0 where
  pub base : String
  pub variants : List (String × List (String × String))
  pub default_variants : List (String × String)

-- The third-party functions that put class names together.
pub record Styling : Type 0 where
  pub tw_merge : Text → Text
  pub clsx : List Value → Text
  pub cva : Config → Attributes → Text

-- `cn(...inputs)` of lib/utils.ts
unfoldable pub cn : Styling → List Value → Value
cn s inputs = string (s.tw_merge (s.clsx inputs))

-- The value that React reads: the last one given.
unfoldable pub attribute : Text → Attributes → Option Value
attribute name [] = none
attribute name ((n, v) ∷ attrs) =
    or_some (attribute name attrs) (if text_eq n name then some v else none)

unfoldable pub has : List Text → Text → Bool
has [] name = false
has (n ∷ ns) name = text_eq n name || has ns name

-- The rest `...props` after the props with these names were taken out.
unfoldable pub rest : List Text → Attributes → Attributes
unfolding has
rest names attrs = filter (λ (a : Text × Value). not (has names a.0)) attrs

-- A value as a condition.
unfoldable pub is_truthy : Value → Bool
is_truthy undefined = false
is_truthy (string s) = truthy s
is_truthy (boolean b) = b
is_truthy (number zero) = false
is_truthy (minus zero) = false
is_truthy _ = true

abbrev defined : Value → Option Value
defined undefined = none
defined v = some v

-- A prop, undefined where the caller does not give it.
unfoldable pub prop : String → Attributes → Value
unfolding attribute js
prop name attrs = elim (attribute (js name) attrs) [ none ↦ undefined | some v ↦ v ]

abbrev or_value : Option Value → Value → Value
or_value none v = v
or_value (some w) v = w

-- A prop with a default, which stands in for an undefined one.
unfoldable pub prop_or : String → Value → Attributes → Value
unfolding prop
prop_or name default attrs = or_value (defined (prop name attrs)) default

-- An attribute or a class name that is written out, and one that is there under a condition.
unfoldable pub attr : String → String → Text × Value
unfolding js
attr name v = (js name, string (js v))

unfoldable pub lit : String → Value
unfolding js
lit c = string (js c)

unfoldable pub when : Bool → String → Value
unfolding lit
when true c = lit c
when false c = boolean false

-- `value === "literal"`
unfoldable pub is_string : Value → String → Bool
unfolding js text_eq
is_string (string t) c = text_eq t (js c)
is_string _ c = false

-- `asChild ? Slot.Root : tag`
unfoldable pub component_tag : Value → String → String
unfolding is_truthy
component_tag as_child tag = if is_truthy as_child then "Slot.Root" else tag

-- `{xs.map(f)}`
abbrev pub each : {A : Type 0} → List A → (A → Markup) → Markup
each [] f = empty
each (x ∷ xs) f = f x <> each xs f
