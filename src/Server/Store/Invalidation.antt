-- ===== src/Server/Store/Invalidation.antt =====
-- What a new scan drops from the cache, and what it keeps.
use kdelta.Prelude.{
  ℕ, suc, Bool, true, false, List, [], ◌∷◌, Option, none, some, ◌≡◌, refl, sym, ap, ◌∙◌, ◌⊎◌, inl,
  inr, ◌>>=◌, ◌==◌, filter, get_or, All, Bool-cases, Option-cases, arith, is_some,
}
use kdelta.Text.{Text}
use kdelta.Ref.{ResourceRef}
use kdelta.Api.Common.{PackageKey}
use kdelta.Api.Resource.{Resource}
use kdelta.Api.Changes.{ChangeSet}
use kdelta.Api.Impact.{ImpactAssessment}
use kdelta.Api.Service.{ScanResponse, ListVersionsResponse}
use kdelta.Server.Table.{Key, same_key, upsert}
use kdelta.Server.Store.{
  Store, empty_store, has_scan, insert_resources, of_scan, write_scan, save_scan, latest_scan,
  put_version_list, put_resolution, put_change_set, put_impact, impact,
}

-- The writes that reach the cache.
pub data Write : Type 0 where
  scanned : ScanResponse → Write
  listed : ℕ → Option PackageKey → ℕ → ListVersionsResponse → Write
  resolved : ℕ → Text → Text → Text → Write
  changed : ChangeSet → Write
  assessed : ℕ → ImpactAssessment → Write

-- One write; a write that fails leaves the cache alone.
unfoldable pub write : Write → Store → Store
unfolding write_scan put_version_list put_resolution put_change_set put_impact
write (scanned scan) s = get_or (write_scan scan s >>= (λ r. some r.1)) s
write (listed now package_key kind list) s = put_version_list now package_key kind list s
write (resolved now system name registry_url) s = put_resolution now system name registry_url s
write (changed set) s = get_or (put_change_set set s) s
write (assessed scan_id a) s = get_or (put_impact scan_id a s) s

-- The cache after some writes, the latest first.
unfoldable pub written : List Write → Store
unfolding write
written [] = empty_store
written (w ∷ ws) = write w (written ws)

module _ {A : Type 0} where
  abbrev pub Belong : ℕ → List (Key × A) → Type 0
  Belong id rows = All (λ (r : Key × A). r.0.1 ≡ id) rows

  of_scan-Belong : (id : ℕ) (rows : List (Key × A)) → Belong id (of_scan id rows)
  unfolding of_scan
  of_scan-Belong id [] = tt
  of_scan-Belong id (((texts, n), a) ∷ rows) = elim (Bool-cases (n == id)) [
    | inl here ↦ rw here (ground arith, of_scan-Belong id rows)
    | inr other ↦ rw other (of_scan-Belong id rows)
  ]

  -- The rows of an older scan are all dropped.
  of_scan-older : (id : ℕ) (rows : List (Key × A)) → Belong id rows → of_scan (suc id) rows ≡ []
  unfolding of_scan
  of_scan-older id [] h = refl
  of_scan-older id (((texts, n), a) ∷ rows) h =
      let here : n ≡ id = h.0 in
      let other : (n == suc id) ≡ false = ground arith in rw other (of_scan-older id rows h.1)

  upsert-Belong :
      (texts : List Text) (id : ℕ) (a : A) (rows : List (Key × A))
      → Belong id rows
      → Belong id (upsert (texts, id) a rows)
  unfolding upsert
  upsert-Belong texts id a [] h = (refl, tt)
  upsert-Belong texts id a (r ∷ rows) h = elim (Bool-cases (same_key r.0 (texts, id))) [
    | inl same ↦ rw same (refl, h.1)
    | inr other ↦ rw other (h.0, upsert-Belong texts id a rows h.1)
  ]

-- There is one scan at most, the one with the last id, and every assessment and every
-- resource is of it.
pub record IsCurrent (s : Store) : Type 0 where
  pub one_scan : (s.scans ≡ []) ⊎ ((scan : ScanResponse) × (s.scans ≡ (s.sequence, scan) ∷ []))
  pub impacts_belong : Belong s.sequence s.impacts
  pub resources_belong : Belong s.sequence s.resources

-- The cache that a scan leaves, beside the table of resources.
abbrev pub superseded : ScanResponse → Store → List (Key × Resource) → Store
superseded scan s resources = record s {
  sequence = suc s.sequence;
  scans = (suc s.sequence, scan) ∷ [];
  resources = of_scan (suc s.sequence) resources;
  impacts = [];
}

scans_superseded :
    (scan : ScanResponse) (s : Store)
    → IsCurrent s
    → filter (λ (r : ℕ × ScanResponse). r.0 == suc s.sequence) ((suc s.sequence, scan) ∷ s.scans)
      ≡ (suc s.sequence, scan) ∷ []
scans_superseded scan s current = elim current.one_scan [
  | inl none_there ↦ rw none_there (ground arith)
  | inr (old, there) ↦ rw there (ground arith)
]

-- Where the rows can be inserted, the rest of `SaveScan` does not fail.
pub write_scan-superseded :
    (scan : ScanResponse) (s : Store)
    → IsCurrent s
    → write_scan scan s ≡ (
        insert_resources (suc s.sequence) scan.resources s.resources
        >>= (λ rows. some (suc s.sequence, superseded scan s rows)))
unfolding write_scan
write_scan-superseded scan s current =
    rw (scans_superseded scan s current, of_scan-older s.sequence s.impacts current.impacts_belong)
      refl

bind_some :
    {A B : Type 0} (o : Option A) (f : A → B) (b : B)
    → (o >>= (λ a. some (f a))) ≡ some b
    → (a : A) × (b ≡ f a)
bind_some none f b e = absurd (ground arith)
bind_some (some a) f b e = (a, cc)

saved_as :
    (scan : ScanResponse) (s t : Store) (id : ℕ)
    → IsCurrent s
    → write_scan scan s ≡ some (id, t)
    → (rows : List (Key × Resource)) × (id ≡ suc s.sequence) × (t ≡ superseded scan s rows)
saved_as scan s t id current saved =
    let result : ℕ × Store = (id, t) in
    let (rows, e) =
      bind_some (insert_resources (suc s.sequence) scan.resources s.resources)
        (λ rows. (suc s.sequence, superseded scan s rows)) result
        (sym (write_scan-superseded scan s current) ∙ saved) in
    (rows, ap (λ r. r.0) e, ap (λ r. r.1) e)

superseded-IsCurrent :
    (scan : ScanResponse) (s : Store) (rows : List (Key × Resource))
    → IsCurrent (superseded scan s rows)
superseded-IsCurrent scan s rows = record {
  one_scan = inr (scan, refl);
  impacts_belong = tt;
  resources_belong = of_scan-Belong (suc s.sequence) rows;
}

scan_there : (s : Store) (id : ℕ) → IsCurrent s → has_scan s.scans id ≡ true → id ≡ s.sequence
unfolding has_scan
scan_there s id current h = elim current.one_scan [
  | inl none_there ↦ let k : has_scan [] id ≡ true = rw none_there at h in absurd (ground arith)
  | inr (old, there) ↦
      let k : has_scan ((s.sequence, old) ∷ []) id ≡ true = rw there at h in ground arith
]

write-IsCurrent : (w : Write) (s : Store) → IsCurrent s → IsCurrent (write w s)
unfolding write
write-IsCurrent (scanned scan) s current =
    elim (Option-cases (insert_resources (suc s.sequence) scan.resources s.resources)) [
      | inl taken ↦ rw (write_scan-superseded scan s current, taken) current
      | inr (rows, inserted) ↦
          rw (write_scan-superseded scan s current, inserted) (superseded-IsCurrent scan s rows)
    ]
write-IsCurrent (listed now package_key kind list) s current = record {
  one_scan = current.one_scan;
  impacts_belong = current.impacts_belong;
  resources_belong = current.resources_belong;
}
write-IsCurrent (resolved now system name registry_url) s current = record {
  one_scan = current.one_scan;
  impacts_belong = current.impacts_belong;
  resources_belong = current.resources_belong;
}
write-IsCurrent (changed set) s current = elim (Bool-cases (is_some set.package_key)) [
  | inl keyed ↦ rw keyed (record {
    one_scan = current.one_scan;
    impacts_belong = current.impacts_belong;
    resources_belong = current.resources_belong;
  })
  | inr bare ↦ rw bare current
]
write-IsCurrent (assessed scan_id a) s current = elim (Bool-cases (has_scan s.scans scan_id)) [
  | inl there ↦ rw there (record {
    one_scan = current.one_scan;
    impacts_belong =
        rw (scan_there s scan_id current there)
          (upsert-Belong _ s.sequence a s.impacts current.impacts_belong);
    resources_belong = current.resources_belong;
  })
  | inr gone ↦ rw gone current
]

pub written-IsCurrent : (ws : List Write) → IsCurrent (written ws)
unfolding written
written-IsCurrent [] = record { one_scan = inl refl; impacts_belong = tt; resources_belong = tt }
written-IsCurrent (w ∷ ws) = write-IsCurrent w (written ws) (written-IsCurrent ws)

pub save_scan-write :
    (fails : Bool) (scan : ScanResponse) (s : Store) (r : ℕ × Store)
    → save_scan fails scan s ≡ some r
    → write_scan scan s ≡ some r
unfolding save_scan
save_scan-write true scan s r e = absurd (ground arith)
save_scan-write false scan s r e = e

-- Whatever was written before, a scan that is saved is the one that is read next, no
-- assessment of an earlier scan is found any more under any key, and the lists of versions, the
-- change sets and the resolutions stay as they were.
pub save_scan_lem :
    (fails : Bool) (ws : List Write) (scan : ScanResponse) (id : ℕ) (t : Store)
    (target : Option ResourceRef) (stream_id from_version to_version : Text)
    → save_scan fails scan (written ws) ≡ some (id, t)
    → (latest_scan t ≡ some (id, scan))
      × (impact target stream_id from_version to_version t ≡ none)
      × (t.version_lists ≡ (written ws).version_lists)
      × (t.change_sets ≡ (written ws).change_sets)
      × (t.resolutions ≡ (written ws).resolutions)
unfolding latest_scan impact
save_scan_lem fails ws scan id t target stream_id from_version to_version saved =
    let (rows, ids, e) =
      saved_as scan (written ws) t id (written-IsCurrent ws)
        (save_scan-write fails scan (written ws) (id, t) saved) in
    rw (ids, e) (refl, refl, refl, refl, refl)
