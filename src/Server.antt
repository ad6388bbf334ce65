-- ===== src/Server.antt =====
-- internal/server and internal/store: the handlers behind the calls that the UI makes, and the cache
-- that they keep. A handler is a function of the cache, the request and the time; its error is a
-- Connect error, or another error of Go, and its text is left out where the source formats one.
pub mod Table
pub mod Store
pub mod Scan
pub mod Vers
pub mod Scanning
pub mod Versions
pub mod Changes
pub mod GetChanges
pub mod AssessImpact
use kdelta.Prelude.{
  ◌⊎◌, inl, inr, true, Bool, ◌&&◌, Option, none, some, [], ◌∷◌, ◌++◌, if◌then◌else◌, ℕ,
}
use kdelta.Text.{Text, text_eq, truthy}
use kdelta.Query.{RpcError}
use kdelta.Ref.{ResourceRef}

-- What a handler returns.
abbrev pub Answer : Type 0 → Type 0
Answer A = RpcError ⊎ A

-- The getters of a message that may be nil.
abbrev pub ref_or_empty : Option ResourceRef → ResourceRef
ref_or_empty none = record { detector = []; namespace = []; name = [] }
ref_or_empty (some r) = r

-- `ref.String`
unfoldable pub string_of : Option ResourceRef → Text
string_of ref =
    let r = ref_or_empty ref in
    if truthy r.namespace
    then r.detector ++ (b':' ∷ (r.namespace ++ (b'/' ∷ r.name)))
    else r.detector ++ (b':' ∷ r.name)

-- `refsEqual`
unfoldable pub refs_equal : Option ResourceRef → Option ResourceRef → Bool
refs_equal a b =
    let x = ref_or_empty a in
    let y = ref_or_empty b in
    text_eq x.detector y.detector && text_eq x.namespace y.namespace && text_eq x.name y.name
