-- ===== src/Server/Versions/Cached.antt =====
-- `ListVersions` of internal/server/versions.go twice: what it fetched first is read from the cache
-- while it is fresh.
use kdelta.Prelude.{
  ℕ, ◌+◌, ◌*◌, ◌/◌, ◌≤◌, false, List, [], Option, none, some, ◌≡◌, refl, inr, arith,
}
use kdelta.Text.{Text}
use kdelta.Query.{Codes}
use kdelta.Api.Common.{PackageKey}
use kdelta.Ref.{ResourceRef}
use kdelta.Api.Version.{Version}
use kdelta.Api.Resource.{Resource, VersionStream}
use kdelta.Api.Service.{ListVersionsRequest, ListVersionsResponse}
use kdelta.Server.{Answer}
use kdelta.Server.Table.{select-upsert_self}
use kdelta.Server.Store.{
  Store, second, expired, package_columns, put_version_list, version_list, latest_scan,
}
use kdelta.Server.Scan.{cached_scan, resource_stream}
use kdelta.Server.Vers.{Semver, sort_ascending}
use kdelta.Server.Versions.{
  Upstream, version_cache_ttl, latest_of, fetch_versions, from_current, current_of, list_versions,
}

-- A list that was put is found while it is fresh.
pub version_list-put :
    (stored later : ℕ) (key : Option PackageKey) (kind age : ℕ) (list : ListVersionsResponse)
    (s : Store)
    → later ≤ stored / second * second + age
    → version_list later key kind age (put_version_list stored key kind list s) ≡ some list
unfolding version_list put_version_list
version_list-put stored later key kind age list s fresh =
    let young : expired later (stored / second) age ≡ false = unfold expired in ground arith in
    rw
      (
        select-upsert_self (package_columns key, kind)
            (record { fetched_at = stored / second; content = list }) s.version_lists,
        young,
      )
      refl

-- A list of versions does not change what is found in the scan.
resource_stream-put :
    (code : Codes) (stored : ℕ) (key : Option PackageKey) (kind : ℕ) (list : ListVersionsResponse)
    (s : Store) (target : Option ResourceRef) (stream_id : Text)
    → resource_stream code (some (put_version_list stored key kind list s)) target stream_id
      ≡ resource_stream code (some s) target stream_id
unfolding put_version_list resource_stream cached_scan latest_scan
resource_stream-put code stored key kind list s target stream_id = refl

-- A handler answers with a message, and leaves the cache so.
abbrev pub Gives :
    Answer ListVersionsResponse × Option Store → ListVersionsResponse → Store → Type 0
Gives r res t = (r.0 ≡ inr res) × (r.1 ≡ some t)

module _ (semver : Semver) (trim : Text → Text) (code : Codes) where
  -- An answer that was fetched from upstream is given again, by the same cache, until an hour has
  -- passed since the second in which it was stored, whatever upstream lists by then, or if it is
  -- not reached at all.
  pub list_versions-again :
      (upstream upstream' : Option Upstream) (asked stored later stored' : ℕ) (s : Store)
      (req : ListVersionsRequest) (resource : Resource) (stream : VersionStream)
      (fetched : List Version)
      → resource_stream code (some s) req.ref req.stream_id ≡ inr (resource, stream)
      → version_list asked resource.upstream stream.kind version_cache_ttl s ≡ none
      → fetch_versions code upstream stream ≡ inr fetched
      → later ≤ stored / second * second + version_cache_ttl
      → (res : ListVersionsResponse) × (t : Store) × Gives
          (list_versions semver trim code upstream asked stored (some s) req)
          res
          t
        × Gives (list_versions semver trim code upstream' later stored' (some t) req) res t
  unfolding list_versions
  list_versions-again upstream upstream' asked stored later stored' s req resource stream fetched
        found missing answered fresh =
      let sorted = sort_ascending semver trim fetched stream.scheme in
      let kept : ListVersionsResponse = record {
        versions = sorted;
        current = [];
        latest = latest_of sorted;
        versions_behind = 0;
      } in
      let t = put_version_list stored resource.upstream stream.kind kept s in
      (
        record {
          versions = (from_current semver trim (current_of stream) stream.scheme sorted).0;
          current = current_of stream;
          latest = latest_of sorted;
          versions_behind = (from_current semver trim (current_of stream) stream.scheme sorted).1;
        },
        t,
        rw (found, missing, answered) (refl, refl),
        rw
            (
              resource_stream-put code stored resource.upstream stream.kind kept s req.ref
                  req.stream_id,
              found,
              version_list-put stored later resource.upstream stream.kind version_cache_ttl kept s
                  fresh,
            )
            (refl, refl),
      )
