-- ===== src/Ref/Validated.antt =====
-- The references that the server sends: proto/kdelta/v1/resource.proto declares a pattern and a
-- length for each field of `ResourceRef`, and the server validates them.
use mathlib.Core.Bool.{and-eq-true_iff}
use kdelta.Prelude.{
  ℕ, ◌≤◌, Bool, true, false, ◌&&◌, ◌||◌, [], ◌∷◌, some, ◌≡◌, ◌≢◌, ◌⊎◌, inl, inr, ltb, ◌==◌, length,
  All, arith,
}
use kdelta.Text.{Text}
use kdelta.Text.Split.{Lacks}
use kdelta.Ref.{ResourceRef, ref_to_string, parse_ref}
use kdelta.Ref.RoundTrip.{IsCanonical, print-parse_iff}
use kdelta.Ref.Server.{server_parse, server_parse-print}

-- [a-z] and [a-z0-9]
unfoldable pub is_lower : ℕ → Bool
is_lower c = ltb 96 c && ltb c 123

unfoldable pub is_alnum : ℕ → Bool
unfolding is_lower
is_alnum c = is_lower c || (ltb 47 c && ltb c 58)

-- Every unit is in the class, and the last one is a letter or a digit.
unfoldable pub label_from : (ℕ → Bool) → ℕ → Text → Bool
unfolding is_alnum
label_from inner a [] = is_alnum a
label_from inner a (b ∷ s) = inner a && label_from inner b s

-- ^[a-z0-9]([class]*[a-z0-9])?$
unfoldable pub matches_label : (ℕ → Bool) → Text → Bool
unfolding is_alnum label_from
matches_label inner [] = false
matches_label inner (a ∷ s) = is_alnum a && label_from inner a s

-- ^[a-z][a-z0-9-]*$
unfoldable pub all_units : (ℕ → Bool) → Text → Bool
all_units p [] = true
all_units p (a ∷ s) = p a && all_units p s

unfoldable pub dashed : ℕ → Bool
unfolding is_alnum
dashed c = is_alnum c || c == b'-'

unfoldable pub dotted : ℕ → Bool
unfolding dashed
dotted c = dashed c || c == b'.'

unfoldable pub matches_detector : Text → Bool
unfolding is_lower dashed all_units
matches_detector [] = false
matches_detector (a ∷ s) = is_lower a && all_units dashed s

-- The declared rules; the rule of the namespace is ignored where it is empty.
pub record IsValidated (r : ResourceRef) : Type 0 where
  pub detector_pattern : matches_detector r.detector ≡ true
  pub detector_length : length r.detector ≤ 63
  pub namespace_pattern : (r.namespace ≡ []) ⊎ (matches_label dashed r.namespace ≡ true)
  pub namespace_length : length r.namespace ≤ 63
  pub name_pattern : matches_label dotted r.name ≡ true
  pub name_length : length r.name ≤ 253

-- No unit of a class of the patterns is one of the two separators.
abbrev Plain : ℕ → Type 0
Plain c = (c ≢ b':') × (c ≢ b'/')

is_alnum-Plain : (c : ℕ) → is_alnum c ≡ true → Plain c
unfolding is_alnum
is_alnum-Plain c h = (λ e. ground arith, λ e. ground arith)

dashed-Plain : (c : ℕ) → dashed c ≡ true → Plain c
unfolding dashed
dashed-Plain c h = (λ e. ground arith, λ e. ground arith)

dotted-Plain : (c : ℕ) → dotted c ≡ true → Plain c
unfolding dotted
dotted-Plain c h = (λ e. ground arith, λ e. ground arith)

is_lower-Plain : (c : ℕ) → is_lower c ≡ true → Plain c
unfolding is_lower
is_lower-Plain c h = (λ e. ground arith, λ e. ground arith)

all_units-Plain : (s : Text) → all_units dashed s ≡ true → All Plain s
unfolding all_units
all_units-Plain [] h = tt
all_units-Plain (a ∷ s) h =
    let (here, later) = (and-eq-true_iff _ _).0 h in (dashed-Plain a here, all_units-Plain s later)

module _ (inner : ℕ → Bool) (plain : (c : ℕ) → inner c ≡ true → Plain c) where
  label_from-Plain : (a : ℕ) (s : Text) → label_from inner a s ≡ true → All Plain s
  unfolding label_from
  label_from-Plain a [] h = tt
  label_from-Plain a (b ∷ []) h = (is_alnum-Plain b ((and-eq-true_iff _ _).0 h).1, tt)
  label_from-Plain a (b ∷ c ∷ s) h =
      let later = ((and-eq-true_iff _ _).0 h).1 in
      (plain b ((and-eq-true_iff _ _).0 later).0, label_from-Plain b (c ∷ s) later)

  matches_label-Plain : (s : Text) → matches_label inner s ≡ true → All Plain s
  unfolding matches_label
  matches_label-Plain [] h = tt
  matches_label-Plain (a ∷ s) h =
      let (here, later) = (and-eq-true_iff _ _).0 h in
      (is_alnum-Plain a here, label_from-Plain a s later)

matches_detector-Plain : (s : Text) → matches_detector s ≡ true → All Plain s
unfolding matches_detector
matches_detector-Plain [] h = tt
matches_detector-Plain (a ∷ s) h =
    let (here, later) = (and-eq-true_iff _ _).0 h in
    (is_lower-Plain a here, all_units-Plain s later)

colons : (s : Text) → All Plain s → Lacks b':' s
colons [] h = tt
colons (a ∷ s) h = (h.0.0, colons s h.1)

slashes : (s : Text) → All Plain s → Lacks b'/' s
slashes [] h = tt
slashes (a ∷ s) h = (h.0.1, slashes s h.1)

namespace-Plain : {r : ResourceRef} → IsValidated r → All Plain r.namespace
namespace-Plain {r} v = elim v.namespace_pattern [
  | inl none ↦ rw none tt
  | inr label ↦ matches_label-Plain dashed dashed-Plain r.namespace label
]

module _ {r : ResourceRef} (v : IsValidated r) where
  name-Plain : All Plain r.name
  name-Plain = matches_label-Plain dotted dotted-Plain r.name v.name_pattern

  name-ne-nil : r.name ≢ []
  unfolding matches_label
  name-ne-nil e = let k : matches_label dotted [] ≡ true = rw e at v.name_pattern in cc

  detector-ne-nil : r.detector ≢ []
  unfolding matches_detector
  detector-ne-nil e = let k : matches_detector [] ≡ true = rw e at v.detector_pattern in cc

  pub validated-IsCanonical : IsCanonical r
  validated-IsCanonical = record {
    plain = record {
      detected = detector-ne-nil;
      detector_colon = colons r.detector (matches_detector-Plain r.detector v.detector_pattern);
      namespace_colon = colons r.namespace (namespace-Plain v);
      namespace_slash = slashes r.namespace (namespace-Plain v);
      name_colon = colons r.name name-Plain;
    };
    scoped = inr (name-ne-nil, slashes r.name name-Plain);
  }

  -- A reference that keeps to the rules which the server validates is printed as a text that both
  -- the UI and the server read as the same reference.
  pub validated_round_trip :
      (parse_ref (ref_to_string (some r)) ≡ some r)
      × (server_parse (ref_to_string (some r)) ≡ some r)
  validated_round_trip = (
    (print-parse_iff r).1 validated-IsCanonical,
    server_parse-print r validated-IsCanonical name-ne-nil,
  )
