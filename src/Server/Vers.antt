-- ===== src/Server/Vers.antt =====
-- internal/vers/vers.go: the order of version strings under a scheme. The package
-- golang.org/x/mod/semver and `strings.TrimSpace` are parameters.
pub mod Sorted
pub mod Precedence
use Prim.Native.Nat.{Ordering}
use kdelta.Prelude.{
  ℕ, Bool, true, false, not, ◌&&◌, ◌||◌, List, [], ◌∷◌, ◌++◌, ◌==◌, if◌then◌else◌, filter,
}
use kdelta.Text.{Text}
use kdelta.Api.Version.{Version}
use kdelta.Api.VersioningScheme

-- `semver.IsValid` and `semver.Compare`, whose result is one of three signs.
pub record Semver : Type 0 where
  pub is_valid : Text → Bool
  pub compare : Text → Text → Ordering

abbrev pub is_lt : Ordering → Bool
is_lt Ordering.lt = true
is_lt _ = false

abbrev pub is_gt : Ordering → Bool
is_gt Ordering.gt = true
is_gt _ = false

-- `strings.HasPrefix(v, "v")`, and the text with that prefix
abbrev pub has_v : Text → Bool
has_v [] = false
has_v (c ∷ t) = c == b'v'

abbrev pub with_v : Text → Text
with_v t = if has_v t then t else b'v' ∷ t

abbrev pub is_semver_scheme : ℕ → Bool
is_semver_scheme scheme =
    scheme == VersioningScheme.semver
    || scheme == VersioningScheme.loose_semver
    || scheme == VersioningScheme.unspecified

module _ (semver : Semver) where
  -- `canonical`, of the trimmed text
  unfoldable pub canonical_of : Text → ℕ → Text × Bool
  canonical_of v scheme =
      if is_semver_scheme scheme then (with_v v, semver.is_valid (with_v v)) else (v, false)

  -- `CompareOK`, of the canonical texts
  unfoldable pub compare_canonical : Text × Bool → Text × Bool → Ordering × Bool
  compare_canonical a b =
      if not a.1 || not b.1 then (Ordering.eq, false) else (semver.compare a.0 b.0, true)

  module _ (trim : Text → Text) where
    unfoldable pub canonical : Text → ℕ → Text × Bool
    unfolding canonical_of
    canonical value scheme = canonical_of (trim value) scheme

    unfoldable pub compare_ok : Text → Text → ℕ → Ordering × Bool
    unfolding compare_canonical
    compare_ok a b scheme = compare_canonical (canonical a scheme) (canonical b scheme)

    -- `Compare`
    unfoldable pub compare : Text → Text → ℕ → Ordering
    unfolding compare_ok
    compare a b scheme = (compare_ok a b scheme).0

    -- `Sortable`
    unfoldable pub sortable : Text → ℕ → Bool
    unfolding canonical
    sortable value scheme = (canonical value scheme).1

-- `sort.SliceStable` of the Go library by a Boolean order, as insertion from the right.
module _ {A : Type 0} (less : A → A → Bool) where
  unfoldable pub put : A → List A → List A
  put x [] = x ∷ []
  put x (y ∷ ys) = let rest = put x ys in if less y x then y ∷ rest else x ∷ y ∷ ys

  unfoldable pub slice_stable : List A → List A
  unfolding put
  slice_stable [] = []
  slice_stable (x ∷ xs) = put x (slice_stable xs)

module _ (semver : Semver) (trim : Text → Text) where
  -- The order of the sort: `Compare(…) < 0`.
  abbrev pub older : ℕ → Version → Version → Bool
  older scheme v w = is_lt (compare semver trim v.value w.value scheme)

  -- `SortAscending`
  unfoldable pub sort_ascending : List Version → ℕ → List Version
  unfolding slice_stable sortable
  sort_ascending versions scheme =
      slice_stable (older scheme)
        (filter (λ (v : Version). sortable semver trim v.value scheme) versions)
