-- ===== src/Text.antt =====
-- JavaScript strings: lists of UTF-16 code units, and the string methods that the UI calls.
-- A literal of the source is written `js "…"`; every literal lies in the Basic Multilingual Plane,
-- so that each character is one code unit.
pub mod Split
pub mod Decimal
use mathlib.Core.Bool.{and-eq-true_iff}
use Prim.Native.Char.{code}
use kdelta.Prelude.{
  ℕ, zero, suc, ◌+◌, ◌-◌, ◌/◌, ◌%◌, ◌≡◌, refl, ap₂, ◌↔◌, Bool, true, false, ◌&&◌, List, [], ◌∷◌,
  ◌++◌, map, String, Option, none, some, arith, ltb, ◌==◌, if◌then◌else◌,
}

abbrev pub Text : Type 0
Text = List ℕ

unfoldable pub js : String → Text
js String.[] = []
js (String.◌∷◌ c s) = code c ∷ js s

-- `s === t`
unfoldable pub text_eq : Text → Text → Bool
text_eq [] [] = true
text_eq (a ∷ s) (b ∷ t) = (a == b) && text_eq s t
text_eq _ _ = false

pub text_eq_sound : (s t : Text) → text_eq s t ≡ true → s ≡ t
unfolding text_eq
text_eq_sound [] [] h = refl
text_eq_sound (a ∷ s) (b ∷ t) h = ground (arith, text_eq_sound s t)
text_eq_sound [] (b ∷ t) h = cc
text_eq_sound (a ∷ s) [] h = cc

pub text_eq_self : (s : Text) → text_eq s s ≡ true
unfolding text_eq
text_eq_self [] = refl
text_eq_self (a ∷ s) = ground (arith, text_eq_self s)

pub text_eq_iff : (s t : Text) → (text_eq s t ≡ true) ↔ (s ≡ t)
text_eq_iff s t = (text_eq_sound s t, λ e. rw e (text_eq_self t))

-- a string as a condition: the empty one is falsy
abbrev pub truthy : Text → Bool
truthy [] = false
truthy (a ∷ s) = true

-- `s.indexOf(sep)` for a separator of one code unit; `none` is -1
unfoldable pub index_of : ℕ → Text → Option ℕ
index_of sep [] = none
index_of sep (a ∷ s) =
    if a == sep then some 0 else elim (index_of sep s) [ none ↦ none | some i ↦ some (suc i) ]

-- `s.split(sep)` for a separator of one code unit: the first part and the others
unfoldable pub split_off : ℕ → Text → Text × List Text
split_off sep [] = ([], [])
split_off sep (a ∷ s) =
    let (part, parts) = split_off sep s in
    if a == sep then ([], part ∷ parts) else (a ∷ part, parts)

unfoldable pub split : ℕ → Text → List Text
split sep s = (split_off sep s).0 ∷ (split_off sep s).1

-- `parts.join(sep)`
unfoldable pub join : Text → List Text → Text
join sep [] = []
join sep (s ∷ []) = s
join sep (s ∷ t ∷ ss) = s ++ sep ++ join sep (t ∷ ss)

-- `s.startsWith(t)`
unfoldable pub starts_with : Text → Text → Bool
starts_with s [] = true
starts_with [] (b ∷ t) = false
starts_with (a ∷ s) (b ∷ t) = (a == b) && starts_with s t

pub starts_with_iff : (s t : Text) → (starts_with s t ≡ true) ↔ ((r : Text) × (s ≡ t ++ r))
unfolding starts_with
starts_with_iff s [] = ((λ h. (s, refl)), λ h. refl)
starts_with_iff [] (b ∷ t) = ((λ h. absurd (ground arith)), λ h. let (r, e) = h in cc)
starts_with_iff (a ∷ s) (b ∷ t) = (
  (λ h.
      let (same, later) = (and-eq-true_iff (a == b) (starts_with s t)).0 h in
      let (r, e) = (starts_with_iff s t).0 later in
      let heads : a ≡ b = ground arith in (r, ap₂ ◌∷◌ heads e)),
  λ h.
      let (r, e) = h in
      let heads : a ≡ b = cc in
      let tails : s ≡ t ++ r = cc in
      (and-eq-true_iff (a == b) (starts_with s t)).1
        (ground arith, (starts_with_iff s t).1 (r, tails)),
)

-- `s.toLowerCase()` and `s.replaceAll("_", " ")`, unit by unit. The lower case of units beyond
-- ASCII is not modelled: the names of the enums are ASCII.
unfoldable pub lower_unit : ℕ → ℕ
lower_unit c = if ltb 64 c && ltb c 91 then c + 32 else c

unfoldable pub underscore_to_space : ℕ → ℕ
underscore_to_space c = if c == b'_' then b' ' else c

unfoldable pub display_name : Text → Text
unfolding lower_unit underscore_to_space
display_name s = map underscore_to_space (map lower_unit s)

-- `String(n)`: the digits from the last one on, in front of those that are there. A number has at
-- most as many digits as it is large, so the fuel is enough.
unfoldable pub digits : ℕ → ℕ → Text → Text
digits zero n rest = rest
digits (suc fuel) n rest =
    if ltb n 10 then (48 + n) ∷ rest else digits fuel (n / 10) ((48 + n % 10) ∷ rest)

unfoldable pub decimal : ℕ → Text
unfolding digits
decimal n = digits (suc n) n []
