-- ===== src/Ref.antt =====
-- apps/app-ui/lib/ref.ts: the string form of a resource reference, and beside it the server's
-- parser of the same form (internal/ref/ref.go). The type is `ResourceRef` of
-- packages/api/src/gen/kdelta/v1/resource_pb.ts.
pub mod RoundTrip
pub mod Server
pub mod Validated
use kdelta.Prelude.{
  ℕ, suc, List, [], ◌∷◌, ◌++◌, Option, none, some, ◌&&◌, if◌then◌else◌, take, drop, String,
}
use kdelta.Text.{Text, js, truthy, index_of, split}

pub record ResourceRef : Type 0 where
  pub detector : Text
  pub namespace : Text
  pub name : Text

unfoldable pub ref_to_string : Option ResourceRef → Text
unfolding js
ref_to_string none = js "?"
ref_to_string (some r) =
    if truthy r.namespace
    then r.detector ++ (b':' ∷ (r.namespace ++ (b'/' ∷ r.name)))
    else r.detector ++ (b':' ∷ r.name)

-- `create` leaves out no field: a missing one is the empty string.
unfoldable pub parse_rest : Text → Text → ResourceRef
parse_rest detector rest = elim (index_of b'/' rest) [
  | none ↦ record { detector = detector; namespace = []; name = rest }
  | some slash ↦ record {
    detector = detector;
    namespace = take slash rest;
    name = drop (suc slash) rest;
  }
]

-- The two parts that `const [detector, rest] = …` takes, where both are there and not empty.
unfoldable pub parse_parts : List Text → Option ResourceRef
parse_parts (detector ∷ rest ∷ _) =
    if truthy detector && truthy rest then some (parse_rest detector rest) else none
parse_parts _ = none

unfoldable pub parse_ref : Text → Option ResourceRef
unfolding parse_parts parse_rest index_of split
parse_ref canonical = parse_parts (take 2 (split b':' canonical))
