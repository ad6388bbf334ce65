-- ===== src/ResourcePage/Content.antt =====
-- What the reader sees of prose: `InlineText` loses no text.
use kdelta.Prelude.{
  ℕ, suc, ◌%◌, true, false, not, List, [], ◌∷◌, ◌++◌, ◌≡◌, refl, ap₂, arith, Bool-cases, inl, inr,
  if◌then◌else◌, ◌==◌, length, filter, ◌∙◌,
}
use kdelta.Text.{Text, split_off, split}
use kdelta.View.{Node, empty, text, number, ◌<>◌, element, each_from}
use kdelta.ResourcePage.{Msg}
use kdelta.ResourcePage.Prose.{inline_part, inline_text}

-- The text of a tree, in reading order; a number is not text.
abbrev pub text_of : Node Msg → Text
text_of empty = []
text_of (text t) = t
text_of (number n) = []
text_of (a <> b) = text_of a ++ text_of b
text_of (element tag attrs children) = text_of children

-- The text without its backticks.
abbrev pub without_ticks : Text → Text
without_ticks = filter (λ c. not (c == b'`'))

-- all parts one after another
abbrev pub concat : List Text → Text
concat [] = []
concat (p ∷ ps) = p ++ concat ps

abbrev pub ticks : Text → ℕ
ticks [] = 0
ticks (c ∷ s) = if c == b'`' then suc (ticks s) else ticks s

concat-split : (s : Text) → (split_off b'`' s).0 ++ concat (split_off b'`' s).1 ≡ without_ticks s
unfolding split_off
concat-split [] = refl
concat-split (c ∷ s) = ground (arith, concat-split s)

length-split : (s : Text) → length (split_off b'`' s).1 ≡ ticks s
unfolding split_off
length-split [] = refl
length-split (c ∷ s) = ground (arith, length-split s)

text_of-inline_part : (index : ℕ) (part : Text) → text_of (inline_part index part) ≡ part
unfolding inline_part
text_of-inline_part index part = elim (Bool-cases (index % 2 == 1)) [
  | inl odd ↦ rw odd
  | inr even ↦ rw even
]

text_of-inline_parts : (i : ℕ) (ps : List Text) → text_of (each_from i ps inline_part) ≡ concat ps
text_of-inline_parts i [] = refl
text_of-inline_parts i (p ∷ ps) =
    ap₂ ◌++◌ (text_of-inline_part i p) (text_of-inline_parts (suc i) ps)

-- Prose with an even number of backticks is shown without them and otherwise whole; prose with an
-- odd number is shown as it stands.
text_of-inline_text :
    (t : Text) → text_of (inline_text t) ≡ (if ticks t % 2 == 0 then without_ticks t else t)
unfolding inline_text split
text_of-inline_text t = elim (Bool-cases (ticks t % 2 == 0)) [
  | inl even ↦
      let odd_parts : (suc (length (split_off b'`' t).1) % 2 == 0) ≡ false =
        ground (arith, length-split t) in
      rw (even, odd_parts) (text_of-inline_parts 0 (split b'`' t) ∙ concat-split t)
  | inr odd ↦
      let even_parts : (suc (length (split_off b'`' t).1) % 2 == 0) ≡ true =
        ground (arith, length-split t) in
      rw (odd, even_parts)
]
