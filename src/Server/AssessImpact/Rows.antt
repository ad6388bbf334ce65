-- ===== src/Server/AssessImpact/Rows.antt =====
-- The rows of assessments in the cache: one that is put under the current scan is found.
use mathlib.Core.Option.{some-injective}
use kdelta.Prelude.{
  ℕ, Bool, true, false, ◌&&◌, List, [], ◌∷◌, Option, none, some, ◌≡◌, refl, sym, ap, inl, inr,
  ◌>>=◌, ◌==◌, ltb, filter, map, All, IfSome, Bool-cases, arith,
}
use kdelta.Text.{Text}
use kdelta.Query.{Codes}
use kdelta.Api.Impact.{ImpactAssessment}
use kdelta.Api.Service.{ScanResponse}
use kdelta.Server.Table.{Key, texts_eq, texts_eq_iff, same_key, upsert, newer, newest}
use kdelta.Server.Store.{Store, has_scan, latest_scan, impact_columns, put_impact, impact}
use kdelta.Server.Store.Invalidation.{IsCurrent, Belong}
use kdelta.Server.Scan.{resource_stream, cached_scan}
use kdelta.Ref.{ResourceRef}

module _ {A : Type 0} where
  abbrev Same : ℕ → ℕ × A → Type 0
  Same id row = row.0 ≡ id

  newer-Same :
      (id : ℕ) (row : ℕ × A) (rest : Option (ℕ × A))
      → Same id row
      → IfSome (Same id) rest
      → newer row rest ≡ some row
  unfolding newer
  newer-Same id (n, a) none h k = refl
  newer-Same id (n, a) (some (m, b)) h k =
      let level : ltb n m ≡ false = ground arith in rw level refl

  -- The newest of rows of one number is the first.
  newest-Same : (id : ℕ) (rows : List (ℕ × A)) → All (Same id) rows → IfSome (Same id) (newest rows)
  unfolding newest
  newest-Same id [] h = tt
  newest-Same id (row ∷ rows) h =
      let first : newer row (newest rows) ≡ some row =
        newer-Same id row (newest rows) h.0 (newest-Same id rows h.1) in
      rw first h.0

  module _ (texts : List Text) (id : ℕ) (p : ℕ → Bool) (there : p id ≡ true) where
    abbrev wanted : Key × A → Bool
    wanted r = texts_eq r.0.0 texts && p r.0.1

    abbrev joined : List (Key × A) → List (ℕ × A)
    joined rows = map (λ (r : Key × A). (r.0.1, r.1)) (filter wanted rows)

    joined-Same : (rows : List (Key × A)) → Belong id rows → All (Same id) (joined rows)
    joined-Same [] h = tt
    joined-Same (r ∷ rows) h = elim (Bool-cases (wanted r)) [
      | inl kept ↦ rw kept (h.0, joined-Same rows h.1)
      | inr dropped ↦ rw dropped (joined-Same rows h.1)
    ]

    first_wanted :
        (a : A) (rows : List (Key × A))
        → Belong id rows
        → newest (joined (((texts, id), a) ∷ rows)) ≡ some (id, a)
    unfolding newest
    first_wanted a rows h =
        let mine : texts_eq texts texts ≡ true = (texts_eq_iff texts texts).1 refl in
        rw (mine, there)
          (newer-Same id (id, a) (newest (joined rows)) refl
            (newest-Same id (joined rows) (joined-Same rows h)))

    newest-upsert :
        (a : A) (rows : List (Key × A))
        → Belong id rows
        → newest (joined (upsert (texts, id) a rows)) ≡ some (id, a)
    unfolding upsert
    newest-upsert a [] h = first_wanted a [] tt
    newest-upsert a (((j, n), b) ∷ rows) h = elim (Bool-cases (same_key (j, n) (texts, id))) [
      | inl same ↦ rw same (first_wanted a rows h.1)
      | inr other ↦
          let number : n ≡ id = h.0 in
          let differs : (texts_eq j texts && n == id) ≡ false = unfold same_key in other in
          let not_wanted : texts_eq j texts ≡ false = ground arith in
          rw (other, not_wanted) (newest-upsert a rows h.1)
    ]

abbrev columns_of : ImpactAssessment → List Text
columns_of a = impact_columns a.target a.stream_id a.from_version a.to_version

abbrev pub with_impact : ℕ → ImpactAssessment → Store → Store
with_impact id a s = record s { impacts = upsert (columns_of a, id) a s.impacts }

latest-current :
    (s : Store) (id : ℕ) (scan : ScanResponse)
    → IsCurrent s
    → latest_scan s ≡ some (id, scan)
    → (id ≡ s.sequence) × (has_scan s.scans id ≡ true)
unfolding latest_scan newest newer has_scan
latest-current s id scan current latest = elim current.one_scan [
  | inl none_there ↦
      let result : Option (ℕ × ScanResponse) = some (id, scan) in
      let nothing : none ≡ result = rw none_there at latest in absurd (ground arith)
  | inr (old, there) ↦
      let row : ℕ × ScanResponse = (s.sequence, old) in
      let last : ℕ × ScanResponse = (id, scan) in
      let e : some row ≡ some last = rw there at latest in
      let number : id ≡ s.sequence =
        sym (ap (λ (r : ℕ × ScanResponse). r.0) (some-injective row last e)) in
      (number, rw (there, number) (ground arith))
]

-- In a cache with a scan, an assessment of it is put, and then found.
pub impact-put :
    (s : Store) (id : ℕ) (scan : ScanResponse) (a : ImpactAssessment)
    → IsCurrent s
    → latest_scan s ≡ some (id, scan)
    → (put_impact id a s ≡ some (with_impact id a s))
      × (impact a.target a.stream_id a.from_version a.to_version (with_impact id a s) ≡ some a)
unfolding put_impact impact
impact-put s id scan a current latest =
    let (number, there) = latest-current s id scan current latest in
    let belong : Belong id s.impacts = rw number current.impacts_belong in
    (
      rw there refl,
      ap (λ r. r >>= (λ row. some row.1))
          (newest-upsert (columns_of a) id (λ n. has_scan s.scans n) there a s.impacts belong),
    )

pub resource_stream-with_impact :
    (code : Codes) (id : ℕ) (a : ImpactAssessment) (s : Store) (target : Option ResourceRef)
    (stream_id : Text)
    → resource_stream code (some (with_impact id a s)) target stream_id
      ≡ resource_stream code (some s) target stream_id
unfolding resource_stream cached_scan latest_scan
resource_stream-with_impact code id a s target stream_id = refl
