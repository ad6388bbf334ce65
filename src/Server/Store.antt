-- ===== src/Server/Store.antt =====
-- internal/store/store.go and schema.sql: the tables of the cache and the methods on them. A method
-- returns `none` where a constraint of the schema fails; its transaction is then rolled back. Errors
-- of the disk and of the wire format are left out. Times are nanoseconds.
pub mod Invalidation
pub mod Refused
use kdelta.Prelude.{
  ℕ, zero, suc, ◌+◌, ◌-◌, ◌*◌, ◌/◌, Bool, true, false, not, ◌&&◌, List, [], ◌∷◌, Option, none, some,
  ◌>>=◌, ◌==◌, ltb, if◌then◌else◌, is_some, filter, map, get_or, find,
}
use kdelta.Text.{Text, truthy}
use kdelta.Ref.{ResourceRef}
use kdelta.Api.Common.{PackageKey}
use kdelta.Api.Resource.{Resource}
use kdelta.Api.Changes.{ChangeSet}
use kdelta.Api.Impact.{ImpactAssessment}
use kdelta.Api.Service.{ScanResponse, ListVersionsResponse}
use kdelta.Server.{string_of}
use kdelta.Server.Table.{Key, texts_eq, select, upsert, insert, newest}

-- A list of versions or a resolution, with the second in which it was fetched.
pub record Fetched (A : Type 0) : Type 0 where
  pub fetched_at : ℕ
  pub content : A

-- The tables under their primary keys; `sequence` is the last id that AUTOINCREMENT gave.
pub record Store : Type 0 where
  pub sequence : ℕ
  pub scans : List (ℕ × ScanResponse)
  pub resources : List (Key × Resource)
  pub impacts : List (Key × ImpactAssessment)
  pub version_lists : List (Key × Fetched ListVersionsResponse)
  pub change_sets : List (Key × ChangeSet)
  pub resolutions : List (Key × Fetched Text)

-- A database in which `migrate` has made the tables.
abbrev pub empty_store : Store
empty_store = record {
  sequence = 0;
  scans = [];
  resources = [];
  impacts = [];
  version_lists = [];
  change_sets = [];
  resolutions = [];
}

-- Whether the scan of a row is there.
unfoldable pub has_scan : List (ℕ × ScanResponse) → ℕ → Bool
has_scan scans id = is_some (find (λ (r : ℕ × ScanResponse). r.0 == id) scans)

unfoldable pub insert_resources :
    ℕ → List Resource → List (Key × Resource) → Option (List (Key × Resource))
unfolding string_of insert
insert_resources id [] rows = some rows
insert_resources id (r ∷ rs) rows =
    insert (string_of r.ref ∷ [], id) r rows >>= insert_resources id rs

-- The rows of one scan: what is left where the others are deleted, by ON DELETE CASCADE.
unfoldable pub of_scan : {A : Type 0} → ℕ → List (Key × A) → List (Key × A)
of_scan {A} id rows = filter (λ (r : Key × A). r.0.1 == id) rows

-- The transaction of `SaveScan`, with the id that it returns, which fails where a constraint does
unfoldable pub write_scan : ScanResponse → Store → Option (ℕ × Store)
unfolding insert_resources of_scan
write_scan scan s =
    let id = suc s.sequence in
    insert_resources id scan.resources s.resources >>= (λ resources. some (
      id,
      record s {
        sequence = id;
        scans = filter (λ (r : ℕ × ScanResponse). r.0 == id) ((id, scan) ∷ s.scans);
        resources = of_scan id resources;
        impacts = of_scan id s.impacts;
      },
    ))

-- `SaveScan`. Whether it fails otherwise is given: a message that cannot be marshalled, such as one with
-- a text that is not UTF-8, or an error of the database.
unfoldable pub save_scan : Bool → ScanResponse → Store → Option (ℕ × Store)
unfolding write_scan
save_scan true scan s = none
save_scan false scan s = write_scan scan s

-- `LatestScan`
unfoldable pub latest_scan : Store → Option (ℕ × ScanResponse)
unfolding newest
latest_scan s = newest s.scans

-- `Resource`: of the rows of a reference that join with a scan, the one of the newest scan
unfoldable pub resource : Option ResourceRef → Store → Option Resource
unfolding newest has_scan texts_eq
resource target s =
    let joined =
      filter
        (λ (r : Key × Resource). texts_eq r.0.0 (string_of target ∷ []) && has_scan s.scans r.0.1)
        s.resources in
    newest (map (λ (r : Key × Resource). (r.0.1, r.1)) joined) >>= (λ row. some row.1)

-- `packageKeyColumns`, with the getters of a key that may be nil
unfoldable pub package_columns : Option PackageKey → List Text
package_columns none = [] ∷ [] ∷ [] ∷ []
package_columns (some k) = k.system ∷ k.name ∷ k.registry_url ∷ []

abbrev pub second : ℕ
second = 1_000_000_000

-- `time.Since(time.Unix(fetchedAt, 0)) > maxAge`; a time that lies ahead is no age
unfoldable pub expired : ℕ → ℕ → ℕ → Bool
expired now fetched_at max_age = ltb max_age (now - fetched_at * second)

-- `PutVersionList` and `VersionList`
unfoldable pub put_version_list : ℕ → Option PackageKey → ℕ → ListVersionsResponse → Store → Store
unfolding package_columns upsert
put_version_list now package_key kind list s = record s {
  version_lists =
      upsert (package_columns package_key, kind)
        (record { fetched_at = now / second; content = list }) s.version_lists;
}

unfoldable pub version_list : ℕ → Option PackageKey → ℕ → ℕ → Store → Option ListVersionsResponse
unfolding package_columns select expired
version_list now package_key kind max_age s =
    select (package_columns package_key, kind) s.version_lists
    >>= (λ row. if expired now row.fetched_at max_age then none else some row.content)

-- `PutResolution` and `Resolution`; the empty text says that the attempt failed.
unfoldable pub put_resolution : ℕ → Text → Text → Text → Store → Store
unfolding upsert
put_resolution now system name registry_url s = record s {
  resolutions =
      upsert (system ∷ name ∷ [], 0) (record { fetched_at = now / second; content = registry_url })
        s.resolutions;
}

unfoldable pub resolution : ℕ → Text → Text → ℕ → ℕ → Store → Option Text
unfolding select expired
resolution now system name max_age failure_max_age s =
    select (system ∷ name ∷ [], 0) s.resolutions >>= (λ row.
      let age = if truthy row.content then max_age else failure_max_age in
      if expired now row.fetched_at age then none else some row.content)

unfoldable pub change_set_key : Option PackageKey → ℕ → Text → Text → Key
unfolding package_columns
change_set_key package_key kind from_version to_version =
    (from_version ∷ to_version ∷ package_columns package_key, kind)

-- `PutChangeSet`, which refuses a set without a package, and `ChangeSet`
unfoldable pub put_change_set : ChangeSet → Store → Option Store
unfolding change_set_key upsert
put_change_set set s =
    if is_some set.package_key
    then some (record s {
      change_sets =
          upsert (change_set_key set.package_key set.kind set.from_version set.to_version) set
            s.change_sets;
    })
    else none

unfoldable pub change_set : Option PackageKey → ℕ → Text → Text → Store → Option ChangeSet
unfolding change_set_key select
change_set package_key kind from_version to_version s =
    select (change_set_key package_key kind from_version to_version) s.change_sets

abbrev pub impact_columns : Option ResourceRef → Text → Text → Text → List Text
impact_columns target stream_id from_version to_version =
    string_of target ∷ stream_id ∷ from_version ∷ to_version ∷ []

-- `PutImpact`: the scan's id is a foreign key.
unfoldable pub put_impact : ℕ → ImpactAssessment → Store → Option Store
unfolding upsert has_scan
put_impact scan_id a s =
    if has_scan s.scans scan_id
    then some (record s {
      impacts =
          upsert (impact_columns a.target a.stream_id a.from_version a.to_version, scan_id) a
            s.impacts;
    })
    else none

-- `Impact`: of the rows under these columns that join with a scan, the one of the newest scan
unfoldable pub impact : Option ResourceRef → Text → Text → Text → Store → Option ImpactAssessment
unfolding newest has_scan texts_eq
impact target stream_id from_version to_version s =
    let columns = impact_columns target stream_id from_version to_version in
    let joined =
      filter (λ (r : Key × ImpactAssessment). texts_eq r.0.0 columns && has_scan s.scans r.0.1)
        s.impacts in
    newest (map (λ (r : Key × ImpactAssessment). (r.0.1, r.1)) joined) >>= (λ row. some row.1)
