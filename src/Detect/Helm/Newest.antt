-- ===== src/Detect/Helm/Newest.antt =====
-- What `Detect` keeps of the releases that Helm lists.
use mathlib.Core.Path.{subst}
use kdelta.Prelude.{
  ◌≤◌, List, [], ◌∷◌, Option, none, some, ◌>>=◌, ◌≡◌, ◌≢◌, ◌⊎◌, refl, sym, ap, ◌∙◌, inl, inr, ltb,
  map, All, In, Distinct, Bool-cases, Option-cases, arith,
}
use kdelta.Text.{Text, text_eq, text_eq_iff}
use kdelta.Detect.Helm.FromRelease.{Release}
use kdelta.Detect.Helm.{release_key, newer_of, note_release, note_releases, gather}

abbrev Row : Type 0
Row = Text × Release

abbrev keys : List Row → List Text
keys rows = map (λ (r : Row). r.0) rows

-- A row of the key of a release, which is not older.
abbrev pub Covers : List Row → Release → Type 0
Covers rows rel =
    (row : Row) × In row rows × (row.0 ≡ release_key rel) × (rel.version ≤ row.1.version)

-- The map under its keys: each holds the newest of the releases seen.
pub record IsNewest (seen : List Release) (rows : List Row) : Type 0 where
  pub keyed : All (λ (r : Row). r.0 ≡ release_key r.1) rows
  pub distinct : Distinct (keys rows)
  pub listed : All (λ (r : Row). In r.1 seen) rows
  pub covered : All (Covers rows) seen

keys-note_release :
    (rel : Release) (rows : List Row) (k : Text)
    → All (λ j. k ≢ j) (keys rows)
    → k ≢ release_key rel
    → All (λ j. k ≢ j) (keys (note_release rel rows))
unfolding note_release
keys-note_release rel [] k h other = (other, tt)
keys-note_release rel ((key, current) ∷ rows) k h other =
    elim (Bool-cases (text_eq key (release_key rel))) [
      | inl same ↦ rw same h
      | inr differs ↦ rw differs (h.0, keys-note_release rel rows k h.1 other)
    ]

note_release-Distinct :
    (rel : Release) (rows : List Row)
    → Distinct (keys rows)
    → Distinct (keys (note_release rel rows))
unfolding note_release
note_release-Distinct rel [] h = (tt, tt)
note_release-Distinct rel ((key, current) ∷ rows) h =
    elim (Bool-cases (text_eq key (release_key rel))) [
      | inl same ↦ rw same h
      | inr differs ↦
          let other : key ≢ release_key rel =
            λ e. let same = (text_eq_iff key (release_key rel)).1 e in absurd (ground arith) in
          rw differs (keys-note_release rel rows key h.0 other, note_release-Distinct rel rows h.1)
    ]

newer_of-cases :
    (current rel : Release)
    → (current.version ≤ (newer_of current rel).version)
      × (rel.version ≤ (newer_of current rel).version)
      × ((newer_of current rel ≡ current) ⊎ (newer_of current rel ≡ rel))
newer_of-cases current rel = elim (Bool-cases (ltb current.version rel.version)) [
  | inl older ↦ rw older (ground arith, ground arith, inr refl)
  | inr newest ↦ rw newest (ground arith, ground arith, inl refl)
]

-- What holds of the rows and of the new release under its key holds of the rows after it.
All-note_release :
    (P : Row → Type 0) (rel : Release) (rows : List Row)
    → All P rows
    → P (release_key rel, rel)
    → All P (note_release rel rows)
unfolding note_release
All-note_release P rel [] h new = (new, tt)
All-note_release P rel ((key, current) ∷ rows) h new =
    elim (Bool-cases (text_eq key (release_key rel))) [
      | inl same ↦
          let e = (text_eq_iff key (release_key rel)).0 same in
          rw same (
            elim (newer_of-cases current rel).2 [
              | inl old ↦ subst (λ r. P (key, r)) (sym old) (h.0)
              | inr fresh ↦ subst P (λ i. (sym e i, sym fresh i)) new
            ],
            h.1,
          )
      | inr differs ↦ rw differs (h.0, All-note_release P rel rows h.1 new)
    ]

Covers-note_release :
    (rel old : Release) (rows : List Row) → Covers rows old → Covers (note_release rel rows) old
unfolding note_release
Covers-note_release rel old [] c = absurd c.1
Covers-note_release rel old ((key, current) ∷ rows) (row, there, of_key, newer) =
    elim (Bool-cases (text_eq key (release_key rel))) [
      | inl same ↦ rw same (elim there [
        | inl e ↦
            let versions : row.1.version ≡ current.version = ap (λ (r : Row). r.1.version) e in
            let most = (newer_of-cases current rel).0 in
            (
              (key, newer_of current rel),
              inl refl,
              ap (λ (r : Row). r.0) (sym e) ∙ of_key,
              omega arith,
            )
        | inr later ↦ (row, inr later, of_key, newer)
      ])
      | inr differs ↦ rw differs (elim there [
        | inl e ↦ (row, inl e, of_key, newer)
        | inr later ↦
            let (found, place, keyed, most) =
              Covers-note_release rel old rows (row, later, of_key, newer) in
            (found, inr place, keyed, most)
      ])
    ]

Covers-note_release_self : (rel : Release) (rows : List Row) → Covers (note_release rel rows) rel
unfolding note_release
Covers-note_release_self rel [] = ((release_key rel, rel), inl refl, refl, omega arith)
Covers-note_release_self rel ((key, current) ∷ rows) =
    elim (Bool-cases (text_eq key (release_key rel))) [
      | inl same ↦ rw same (
        (key, newer_of current rel),
        inl refl,
        (text_eq_iff key (release_key rel)).0 same,
        (newer_of-cases current rel).1,
      )
      | inr differs ↦
          let (found, place, keyed, most) = Covers-note_release_self rel rows in
          rw differs (found, inr place, keyed, most)
    ]

All-In-cons :
    (rel : Release) (seen : List Release) (rows : List Row)
    → All (λ (r : Row). In r.1 seen) rows
    → All (λ (r : Row). In r.1 (rel ∷ seen)) rows
All-In-cons rel seen [] h = tt
All-In-cons rel seen (row ∷ rows) h = (inr (h.0), All-In-cons rel seen rows h.1)

All-Covers :
    (rel : Release) (rows : List Row) (seen : List Release)
    → All (Covers rows) seen
    → All (Covers (note_release rel rows)) seen
All-Covers rel rows [] h = tt
All-Covers rel rows (old ∷ seen) h =
    (Covers-note_release rel old rows h.0, All-Covers rel rows seen h.1)

note_release-IsNewest :
    (rel : Release) (seen : List Release) (rows : List Row)
    → IsNewest seen rows
    → IsNewest (rel ∷ seen) (note_release rel rows)
note_release-IsNewest rel seen rows h = record {
  keyed = All-note_release (λ r. r.0 ≡ release_key r.1) rel rows h.keyed refl;
  distinct = note_release-Distinct rel rows h.distinct;
  listed =
      All-note_release (λ r. In r.1 (rel ∷ seen)) rel rows (All-In-cons rel seen rows h.listed)
        (inl refl);
  covered = (Covers-note_release_self rel rows, All-Covers rel rows seen h.covered);
}

abbrev pub pushed : List Release → List Release → List Release
pushed [] seen = seen
pushed (rel ∷ rels) seen = pushed rels (rel ∷ seen)

-- All releases of some namespaces, the last first, after those seen.
abbrev pub listed_after :
    (Text → Option (List Release)) → List Text → List Release → Option (List Release)
listed_after list [] seen = some seen
listed_after list (n ∷ ns) seen = list n >>= (λ rels. listed_after list ns (pushed rels seen))

note_releases-IsNewest :
    (rels seen : List Release) (rows : List Row)
    → IsNewest seen rows
    → IsNewest (pushed rels seen) (note_releases rels rows)
unfolding note_releases
note_releases-IsNewest [] seen rows h = h
note_releases-IsNewest (rel ∷ rels) seen rows h =
    note_releases-IsNewest rels (rel ∷ seen) (note_release rel rows)
      (note_release-IsNewest rel seen rows h)

pub gather-IsNewest :
    (list : Text → Option (List Release)) (ns : List Text) (seen : List Release) (rows : List Row)
    (all : List Release)
    → IsNewest seen rows
    → listed_after list ns seen ≡ some all
    → (latest : List Row) × (gather list ns rows ≡ some latest) × IsNewest all latest
unfolding gather
gather-IsNewest list [] seen rows all h e =
    (rows, refl, (let same : seen ≡ all = cc in subst (λ s. IsNewest s rows) same h))
gather-IsNewest list (n ∷ ns) seen rows all h e = elim (Option-cases (list n)) [
  | inl broken ↦ let nothing : none ≡ some all = rw broken at e in absurd (ground arith)
  | inr (rels, read) ↦
      let rest : listed_after list ns (pushed rels seen) ≡ some all = rw read at e in
      rw read (
        gather-IsNewest list ns (pushed rels seen) (note_releases rels rows) all
          (note_releases-IsNewest rels seen rows h) rest)
]

pub gather_broken :
    (list : Text → Option (List Release)) (ns : List Text) (seen : List Release) (rows : List Row)
    → listed_after list ns seen ≡ none
    → gather list ns rows ≡ none
unfolding gather
gather_broken list [] seen rows e = absurd (ground arith)
gather_broken list (n ∷ ns) seen rows e = elim (Option-cases (list n)) [
  | inl broken ↦ rw broken refl
  | inr (rels, read) ↦
      rw read (gather_broken list ns (pushed rels seen) (note_releases rels rows) (rw read at e))
]
