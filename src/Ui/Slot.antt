-- ===== src/Ui/Slot.antt =====
-- The shape that most components of packages/ui/src/components share: an element that is marked
-- with its `data-slot`, merges its class names with the caller's `className`, and hands on every
-- other prop and the children.
use kdelta.Prelude.{
  Bool, true, false, ◌||◌, List, [], ◌∷◌, ◌++◌, map, Option, none, some, String, ◌≡◌, refl, or_some,
  if◌then◌else◌,
}
use kdelta.Text.{Text, js, text_eq, text_eq_self}
use kdelta.Ui.{
  Value, Attributes, Markup, element, Styling, cn, attribute, has, rest, attr, lit, prop,
}
use kdelta.Ui.Attributes.{attribute-append, attribute-rest, or_some-none}
use kdelta.Ui.Tree.{attributes_of, content_of}

-- `<tag {...own} className={cn(...classes)} {...props}>`; `taken` are the props that the component
-- takes out beside `className`.
unfoldable pub render :
    Styling → String → Attributes → List Value → List Text → Attributes → Markup → Markup
render s tag own classes taken attrs children =
    element tag (own ++ ((js "className", cn s classes) ∷ rest (js "className" ∷ taken) attrs))
      children

-- `cn(...classes, className)`
unfoldable pub with_caller : List String → Attributes → List Value
unfolding lit
with_caller classes attrs = map lit classes ++ (prop "className" attrs ∷ [])

-- `<tag data-slot={name} {...own} className={cn(...classes, className)} {...props} />`
unfoldable pub slot :
    Styling → String → String → Attributes → List String → Attributes → Markup → Markup
unfolding render with_caller
slot s tag name own classes attrs children =
    render s tag (attr "data-slot" name ∷ own) (with_caller classes attrs) [] attrs children

-- `<tag data-slot={name} {...props} />`
unfoldable pub spread : String → String → Attributes → Markup → Markup
spread tag name attrs children = element tag (attr "data-slot" name ∷ attrs) children

choose :
    (class taken : Bool) (given own : Option Value) (v : Value)
    → or_some
        (or_some (if class || taken then none else given) (if class then some v else none))
        own
      ≡ (if class then some v else or_some (if taken then none else given) own)
choose true taken given own v = refl
choose false taken given own v = rw (or_some-none (if taken then none else given)) refl

-- What React reads of the outermost element: the class names merged here, and every other attribute
-- from the caller where the caller gives it and the component does not take it out, else from the
-- component.
pub attribute-render :
    (s : Styling) (name : Text) (tag : String) (own : Attributes) (classes : List Value)
    (taken : List Text) (attrs : Attributes) (children : Markup)
    → attribute name (attributes_of (render s tag own classes taken attrs children)) ≡ (
        if text_eq (js "className") name
        then some (cn s classes)
        else or_some (if has taken name then none else attribute name attrs) (attribute name own))
unfolding render has attribute
attribute-render s name tag own classes taken attrs children =
    rw
      (
        attribute-append name own
            ((js "className", cn s classes) ∷ rest (js "className" ∷ taken) attrs),
        attribute-rest name (js "className" ∷ taken) attrs,
      )
      (choose (text_eq (js "className") name) (has taken name) (attribute name attrs)
        (attribute name own) (cn s classes))

-- What a component of this shape keeps to, whatever the caller gives.
pub record IsSlot (s : Styling) (name : String) (c : Attributes → Markup → Markup) : Type 0 where
  -- the attributes and the class names that the component has of its own, the mark among them
  pub own : Attributes
  pub classes : List String
  pub marked : attribute (js "data-slot") own ≡ some (lit name)
  -- What React reads: the caller's class names behind the own ones, so that they win; and every
  -- other attribute from the caller where the caller gives it, else from the component.
  pub reads :
      (n : Text) (attrs : Attributes) (children : Markup)
      → attribute n (attributes_of (c attrs children)) ≡ (
          if text_eq (js "className") n
          then some (cn s (with_caller classes attrs))
          else or_some (attribute n attrs) (attribute n own))
  pub filled : (attrs : Attributes) (children : Markup) → content_of (c attrs children) ≡ children

data_slot_own :
    (name : String) (own : Attributes)
    → attribute (js "data-slot") own ≡ none
    → attribute (js "data-slot") (attr "data-slot" name ∷ own) ≡ some (lit name)
unfolding attribute attr lit
data_slot_own name own free = rw (free, text_eq_self (js "data-slot")) refl

pub slot-IsSlot :
    (s : Styling) (tag name : String) (own : Attributes) (classes : List String)
    → attribute (js "data-slot") own ≡ none
    → IsSlot s name (slot s tag name own classes)
unfolding slot has
slot-IsSlot s tag name own classes free = record {
  own = attr "data-slot" name ∷ own;
  classes = classes;
  marked = data_slot_own name own free;
  reads = λ n attrs children.
      attribute-render s n tag (attr "data-slot" name ∷ own) (with_caller classes attrs) [] attrs
        children;
  filled = λ attrs children. unfold render in refl;
}
