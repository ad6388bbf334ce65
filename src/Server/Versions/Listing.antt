-- ===== src/Server/Versions/Listing.antt =====
-- `ListVersions` of internal/server/versions.go on what it fetches: which versions it lists, in which
-- order, and how many it says the deployed one is behind.
use Prim.Native.Nat.{Ordering}
use mathlib.Core.Bool.{and-eq-true_iff}
use kdelta.Prelude.{
  ℕ, suc, Bool, true, false, not, ◌&&◌, ◌||◌, List, [], ◌∷◌, Option, none, ◌≡◌, ◌↔◌, refl, sym, ap,
  ◌∙◌, inl, inr, ◌>>=◌, if◌then◌else◌, filter, length, In, Bool-cases, arith,
}
use kdelta.Text.{Text}
use kdelta.Query.{Codes}
use kdelta.Api.Version.{Version}
use kdelta.Api.Resource.{Resource, VersionStream}
use kdelta.Api.Service.{ListVersionsRequest, ListVersionsResponse}
use kdelta.Server.Store.{Store, version_list}
use kdelta.Server.Scan.{resource_stream}
use kdelta.Server.Vers.{
  Semver, is_lt, is_gt, compare_ok, sortable, older, slice_stable, sort_ascending,
}
use kdelta.Server.Vers.Sorted.{
  Ascending, Ascending-filter, In-filter, In-slice_stable, count-slice_stable,
}
use kdelta.Server.Vers.Precedence.{comparable-sortable, IsPrecedence, sort_ascending-Ascending}
use kdelta.Server.Versions.{
  Upstream, version_cache_ttl, current_of, latest_of, fetch_versions, from_current, list_versions,
}

-- The same elements, in some order and number.
abbrev pub SameMembers : {A : Type 0} → List A → List A → Type 0
SameMembers {A} xs ys = (a : A) → In a xs ↔ In a ys

filter-filter :
    {A : Type 0} (p q : A → Bool) (xs : List A)
    → ((a : A) → q a ≡ true → p a ≡ true)
    → filter q (filter p xs) ≡ filter q xs
filter-filter p q [] h = refl
filter-filter p q (x ∷ xs) h = elim (Bool-cases (p x)) [
  | inl passes ↦ rw passes (elim (Bool-cases (q x)) [
    | inl kept ↦ rw kept (ap (x ∷◌) (filter-filter p q xs h))
    | inr dropped ↦ rw dropped (filter-filter p q xs h)
  ])
  | inr fails ↦ elim (Bool-cases (q x)) [
    | inl kept ↦ let k : p x ≡ true = h x kept in absurd (ground arith)
    | inr dropped ↦ rw (fails, dropped) (filter-filter p q xs h)
  ]
]

filter-SameMembers :
    {A : Type 0} (q : A → Bool) (xs ys : List A)
    → SameMembers xs ys
    → SameMembers (filter q xs) (filter q ys)
filter-SameMembers q xs ys same a =
    let kept = In-filter q a xs in
    let kept' = In-filter q a ys in
    (
      (λ h. kept'.1 ((same a).0 (kept.0 h).0, (kept.0 h).1)),
      λ h. kept.1 ((same a).1 (kept'.0 h).0, (kept'.0 h).1),
    )

length-if :
    {A : Type 0} (b : Bool) (x : A) (xs : List A)
    → length (if b then x ∷ xs else xs) ≡ (if b then suc (length xs) else length xs)
length-if true x xs = refl
length-if false x xs = refl

-- One round of the loop, by the result of the comparison.
loop_step :
    (c : Ordering × Bool) (v : Version) (vs : List Version) (n : ℕ)
    → let kept : List Version × ℕ = (
      (if c.1 && not (is_lt c.0) then v ∷ vs else vs),
      if c.1 && is_gt c.0 && not v.prerelease then suc n else n,
    ) in
      (if not c.1 || is_lt c.0
        then (vs, n)
        else (v ∷ vs, if is_gt c.0 && not v.prerelease then suc n else n))
      ≡ kept
loop_step (Ordering.lt, true) v vs n = refl
loop_step (Ordering.eq, true) v vs n = refl
loop_step (Ordering.gt, true) v vs n = refl
loop_step (o, false) v vs n = refl

module _ (semver : Semver) (trim : Text → Text) (current : Text) (scheme : ℕ) where
  -- A version that can be ordered against the current one and is not below it; and one above it
  -- that is no prerelease.
  abbrev pub not_below : Version → Bool
  not_below v = let c = compare_ok semver trim v.value current scheme in c.1 && not (is_lt c.0)

  abbrev pub newer_stable : Version → Bool
  newer_stable v =
      let c = compare_ok semver trim v.value current scheme in c.1 && is_gt c.0 && not v.prerelease

  from_current-filter :
      (vs : List Version)
      → from_current semver trim current scheme vs
        ≡ (filter not_below vs, length (filter newer_stable vs))
  unfolding from_current
  from_current-filter [] = refl
  from_current-filter (v ∷ vs) = rw (from_current-filter vs) (
      loop_step (compare_ok semver trim v.value current scheme) v (filter not_below vs)
        (length (filter newer_stable vs))
      ∙ ap (λ n. (filter not_below (v ∷ vs), n))
          (sym (length-if (newer_stable v) v (filter newer_stable vs))))

  abbrev sorts : Version → Bool
  sorts v = sortable semver trim v.value scheme

  module _ (p : Version → Bool)
      (comparable : (v : Version)
        → p v ≡ true
        → (compare_ok semver trim v.value current scheme).1 ≡ true) where
    sorted_test : (v : Version) → p v ≡ true → sorts v ≡ true
    sorted_test v h = comparable-sortable semver trim v.value current scheme (comparable v h)

    kept_members :
        (fetched : List Version)
        → SameMembers (filter p (sort_ascending semver trim fetched scheme)) (filter p fetched)
    unfolding sort_ascending
    kept_members fetched = rw (sym (filter-filter sorts p fetched sorted_test)) (
        filter-SameMembers p (slice_stable (older semver trim scheme) (filter sorts fetched))
          (filter sorts fetched)
          (λ a. In-slice_stable (older semver trim scheme) a (filter sorts fetched)))

    kept_count :
        (fetched : List Version)
        → length (filter p (sort_ascending semver trim fetched scheme)) ≡ length (filter p fetched)
    unfolding sort_ascending
    kept_count fetched =
        count-slice_stable (older semver trim scheme) p (filter sorts fetched)
        ∙ ap length (filter-filter sorts p fetched sorted_test)

module _ (semver : Semver) (precedence : IsPrecedence semver) (trim : Text → Text) (code : Codes)
    (upstream : Option Upstream) where
  -- Where a stream's versions are not cached and upstream lists them, the answer's versions ascend,
  -- and they are just the versions listed upstream that can be ordered against the deployed one and
  -- are not below it. The deployed one is behind by as many as there are versions upstream that are
  -- above it and no prerelease.
  pub list_versions_lem :
      (asked stored : ℕ) (store : Option Store) (req : ListVersionsRequest) (resource : Resource)
      (stream : VersionStream) (fetched : List Version)
      → resource_stream code store req.ref req.stream_id ≡ inr (resource, stream)
      → (store >>= version_list asked resource.upstream stream.kind version_cache_ttl) ≡ none
      → fetch_versions code upstream stream ≡ inr fetched
      → (res : ListVersionsResponse) × ((list_versions semver trim code upstream asked stored store
            req).0
          ≡ inr res)
        × Ascending (older semver trim stream.scheme) res.versions
        × SameMembers res.versions
            (filter (not_below semver trim (current_of stream) stream.scheme) fetched)
        × (res.versions_behind
            ≡ length (filter (newer_stable semver trim (current_of stream) stream.scheme) fetched))
  unfolding list_versions
  list_versions_lem asked stored store req resource stream fetched found missing answered =
      let current = current_of stream in
      let sorted = sort_ascending semver trim fetched stream.scheme in
      let res : ListVersionsResponse = record {
        versions = filter (not_below semver trim current stream.scheme) sorted;
        current = current;
        latest = latest_of sorted;
        versions_behind = length (filter (newer_stable semver trim current stream.scheme) sorted);
      } in
      (
        res,
        rw (found, missing, answered, from_current-filter semver trim current stream.scheme sorted)
            refl,
        Ascending-filter (older semver trim stream.scheme)
            (not_below semver trim current stream.scheme) sorted
            (sort_ascending-Ascending semver precedence trim stream.scheme fetched),
        kept_members semver trim current stream.scheme (not_below semver trim current stream.scheme)
            (λ v h. ((and-eq-true_iff _ _).0 h).0) fetched,
        kept_count semver trim current stream.scheme
            (newer_stable semver trim current stream.scheme)
            (λ v h. ((and-eq-true_iff _ _).0 ((and-eq-true_iff _ _).0 h).0).0) fetched,
      )
