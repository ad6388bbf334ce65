-- ===== src/Server/Vers/Precedence.antt =====
-- What internal/vers relies on in golang.org/x/mod/semver, and the order that follows.
use Prim.Native.Nat.{Ordering}
use kdelta.Prelude.{ℕ, Bool, true, false, List, ◌≡◌, ◌↔◌, refl, filter, All-of_In, In, arith}
use kdelta.Text.{Text}
use kdelta.Api.Version.{Version}
use kdelta.Server.Vers.{
  Semver, is_lt, canonical, compare_canonical, compare_ok, compare, sortable, older, sort_ascending,
}
use kdelta.Server.Vers.Sorted.{Ascending, slice_stable-Ascending, In-filter, In-slice_stable}

abbrev pub flip : Ordering → Ordering
flip Ordering.lt = Ordering.gt
flip Ordering.eq = Ordering.eq
flip Ordering.gt = Ordering.lt

-- `Compare` gives the precedence of versions: the other way round the sign turns, and what is not
-- below something is not below what that is not below.
pub record IsPrecedence (semver : Semver) : Type 0 where
  pub flipped : (a b : Text) → semver.compare b a ≡ flip (semver.compare a b)
  pub not_below :
      (a b c : Text)
      → is_lt (semver.compare b a) ≡ false
      → is_lt (semver.compare c b) ≡ false
      → is_lt (semver.compare c a) ≡ false

is_lt-flip : (o : Ordering) → is_lt o ≡ true → is_lt (flip o) ≡ false
is_lt-flip Ordering.lt h = refl
is_lt-flip Ordering.eq h = refl
is_lt-flip Ordering.gt h = absurd (ground arith)

comparable_left :
    (semver : Semver) (a b : Text × Bool) → (compare_canonical semver a b).1 ≡ true → a.1 ≡ true
unfolding compare_canonical
comparable_left semver (s, true) b h = refl
comparable_left semver (s, false) b h = h

-- What can be ordered against another can be sorted.
pub comparable-sortable :
    (semver : Semver) (trim : Text → Text) (a b : Text) (scheme : ℕ)
    → (compare_ok semver trim a b scheme).1 ≡ true
    → sortable semver trim a scheme ≡ true
unfolding compare_ok sortable
comparable-sortable semver trim a b scheme =
    comparable_left semver (canonical semver trim a scheme) (canonical semver trim b scheme)

module _ (semver : Semver) (precedence : IsPrecedence semver) where
  canonical_asymmetric :
      (a b : Text × Bool)
      → is_lt (compare_canonical semver a b).0 ≡ true
      → is_lt (compare_canonical semver b a).0 ≡ false
  unfolding compare_canonical
  canonical_asymmetric (s, true) (t, true) h =
      rw (precedence.flipped s t) (is_lt-flip (semver.compare s t) h)
  canonical_asymmetric (s, true) (t, false) h = refl
  canonical_asymmetric (s, false) (t, true) h = refl
  canonical_asymmetric (s, false) (t, false) h = refl

  canonical_transitive :
      (a b c : Text × Bool)
      → b.1 ≡ true
      → is_lt (compare_canonical semver b a).0 ≡ false
      → is_lt (compare_canonical semver c b).0 ≡ false
      → is_lt (compare_canonical semver c a).0 ≡ false
  unfolding compare_canonical
  canonical_transitive (s, true) (t, true) (u, true) valid h k = precedence.not_below s t u h k
  canonical_transitive (s, false) (t, true) (u, true) valid h k = refl
  canonical_transitive (s, true) (t, true) (u, false) valid h k = refl
  canonical_transitive (s, false) (t, true) (u, false) valid h k = refl
  canonical_transitive a (t, false) c valid h k = absurd (ground arith)

  module _ (trim : Text → Text) (scheme : ℕ) where
    -- The versions that the scheme can order.
    abbrev pub Sortable : Version → Type 0
    Sortable v = sortable semver trim v.value scheme ≡ true

    pub compare_asymmetric :
        (a b : Text)
        → is_lt (compare semver trim a b scheme) ≡ true
        → is_lt (compare semver trim b a scheme) ≡ false
    unfolding compare
    compare_asymmetric a b =
        canonical_asymmetric (canonical semver trim a scheme) (canonical semver trim b scheme)

    pub compare_transitive :
        (a b c : Text)
        → sortable semver trim b scheme ≡ true
        → is_lt (compare semver trim b a scheme) ≡ false
        → is_lt (compare semver trim c b scheme) ≡ false
        → is_lt (compare semver trim c a scheme) ≡ false
    unfolding compare sortable
    compare_transitive a b c =
        canonical_transitive (canonical semver trim a scheme) (canonical semver trim b scheme)
          (canonical semver trim c scheme)

    -- The sorted list ascends, and holds the versions that the scheme can order.
    pub sort_ascending-Ascending :
        (vs : List Version)
        → Ascending (older semver trim scheme) (sort_ascending semver trim vs scheme)
    unfolding sort_ascending
    sort_ascending-Ascending vs =
        slice_stable-Ascending (older semver trim scheme) Sortable
          (λ v w. compare_asymmetric v.value w.value)
          (λ u v w. compare_transitive u.value v.value w.value)
          (filter (λ (v : Version). sortable semver trim v.value scheme) vs)
          (All-of_In Sortable _ (λ v h.
            ((In-filter (λ (w : Version). sortable semver trim w.value scheme) v vs).0 h).1))

    pub In-sort_ascending :
        (v : Version) (vs : List Version)
        → In v (sort_ascending semver trim vs scheme) ↔ (In v vs × Sortable v)
    unfolding sort_ascending
    In-sort_ascending v vs =
        let sorts : Version → Bool = λ w. sortable semver trim w.value scheme in
        let kept = In-filter sorts v vs in
        let moved = In-slice_stable (older semver trim scheme) v (filter sorts vs) in
        ((λ h. kept.0 (moved.0 h)), λ h. moved.1 (kept.1 h))
