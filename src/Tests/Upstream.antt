-- ===== src/Tests/Upstream.antt =====
-- The versions and the changelog of a resource of the cluster.
use kdelta.Prelude.{
  true, [], ◌∷◌, Option, none, some, ◌≡◌, refl, ◌⊎◌, inr, length, filter, map, arith, All,
}
use kdelta.Text.{Text, js, text_eq, split_off}
use kdelta.Api.Changes.{ChangeSet}
use kdelta.Api.Version.{Version}
use kdelta.Api.Service.{ListVersionsRequest, ListVersionsResponse, RangeInput, result}
use kdelta.Streamed.{StreamState, fold_events}
use kdelta.Streamed.Events.{changes_event}
use kdelta.Server.{refs_equal}
use kdelta.Server.Table.{same_key}
use kdelta.Server.Store.{Store, version_list, write_scan, save_scan, latest_scan, change_set}
use kdelta.Server.Store.Invalidation.{written}
use kdelta.Server.Scan.{cached_scan, resource_stream, find_resource}
use kdelta.Server.Vers.{compare_ok, canonical, older, sort_ascending}
use kdelta.Server.Vers.Sorted.{Ascending}
use kdelta.Server.Versions.{
  Upstream, latest_of, source_of, version_cache_ttl, fetch_versions, list_versions, release_version,
}
use kdelta.Server.Versions.Listing.{SameMembers, not_below, newer_stable, list_versions_lem}
use kdelta.Server.Versions.Cached.{Gives, list_versions-again}
use kdelta.Server.Changes.{ReleaseNotes, verbatim, report, structure_releases, fetch_release_notes}
use kdelta.Server.GetChanges.{set_of, get_changes}
use kdelta.Server.GetChanges.Stream.{get_changes-verbatim}
use kdelta.Server.GetChanges.Again.{get_changes-again}
use kdelta.ResourcesPage.{behind_query}
use kdelta.Server.Versions.Latest.{IsGreatest, stable, orderable, latest_of_lem}
use kdelta.Upstream.Ip.{is_public_ip}
use kdelta.Upstream.Egress.{check_egress_url}
use kdelta.Upstream.Sources.{github_releases}
use kdelta.Upstream.Listed.{client_upstream, listed_release, IsShown, list_versions-IsShown}
use kdelta.Tests.Web.{web, client, tagged}
use kdelta.Tests.Cluster.{
  codes, node, stream, node_resource, cache, by_length, by_length-IsPrecedence, trim, releases,
  upstream,
}

abbrev from : Text
from = b'1' ∷ b'2' ∷ []

abbrev to : Text
to = b'1' ∷ b'2' ∷ b'3' ∷ []

abbrev request : RangeInput
request = record { ref = some node; stream_id = b's' ∷ []; from_version = from; to_version = to }

found : resource_stream codes (some cache) (some node) (b's' ∷ []) ≡ inr (node_resource, stream)
unfolding resource_stream cached_scan latest_scan find_resource save_scan write_scan written
    same_key text_eq refs_equal
found = refl

queried :
    resource_stream codes
      (some cache)
      (behind_query node_resource).0.ref
      (behind_query node_resource).0.stream_id
    ≡ inr (node_resource, stream)
unfolding behind_query resource_stream cached_scan latest_scan find_resource save_scan write_scan
    written same_key text_eq refs_equal
queried = refl

missing : version_list 0 node_resource.upstream 1 version_cache_ttl cache ≡ none
unfolding version_list save_scan write_scan written same_key text_eq
missing = refl

answered : fetch_versions codes (some upstream) stream ≡ inr (map release_version releases)
unfolding fetch_versions
answered = refl

-- The same stream, once its versions are cached.
abbrev listing_request : ListVersionsRequest
listing_request = record { ref = some node; stream_id = b's' ∷ [] }

list_versions-again_example :
    (res : ListVersionsResponse) × (t : Store) × Gives
      (list_versions by_length trim codes (some upstream) 0 0 (some cache) listing_request)
      res
      t
    × Gives (list_versions by_length trim codes none 3_000_000 0 (some t) listing_request) res t
list_versions-again_example =
    list_versions-again by_length trim codes (some upstream) none 0 0 3_000_000 0 cache
      listing_request node_resource stream (map release_version releases) found missing answered
      (omega arith)

abbrev parse_url : Text → Option (Text × Text)
parse_url u = some (js "github.com", js "/o/r/")

abbrev note : ReleaseNotes
note = record { version = to; body = to; url = [] }

fetched :
    (fetch_release_notes by_length trim parse_url codes (some upstream) stream from to).1
    ≡ inr (note ∷ [])
unfolding fetch_release_notes compare_ok js text_eq split_off canonical
fetched = refl

not_cached : change_set node_resource.upstream 1 from to cache ≡ none
unfolding change_set save_scan write_scan written same_key text_eq
not_cached = refl

abbrev set : ChangeSet
set = set_of node_resource stream from to (map verbatim (note ∷ []))

get_changes-verbatim_example :
    let r =
      get_changes by_length trim parse_url codes (some upstream) none 0 0 (some cache) request in
    let seen : StreamState ChangeSet = fold_events (map changes_event r.events) in
    (r.error ≡ none) × (seen.result ≡ some set) × (seen.partials ≡ set.versions)
get_changes-verbatim_example =
    get_changes-verbatim by_length trim parse_url codes (some upstream) 0 0 (some cache) request
      node_resource stream note [] found refl refl refl not_cached fetched

structured_notes :
    (structure_releases true none node_resource.upstream (note ∷ [])).1
    ≡ inr (map verbatim (note ∷ []))
unfolding structure_releases
structured_notes = refl

get_changes-again_example :
    (t : Store) × ((get_changes by_length trim parse_url codes
        (some upstream)
        none
        0
        0
        (some cache)
        request).error
      ≡ none)
    × ((get_changes by_length trim parse_url codes
          (some upstream)
          none
          0
          0
          (some cache)
          request).store
        ≡ some t)
    × (get_changes by_length trim parse_url codes none none 1 1 (some t) request ≡ record {
      events = report (js "cache") (js "serving the cached change set") ∷ result set ∷ [];
      error = none;
      store = some t;
    })
get_changes-again_example =
    get_changes-again by_length trim parse_url codes (some upstream) none none none 0 0 1 1 cache
      request node_resource stream note [] (map verbatim (note ∷ [])) found refl refl refl
      not_cached fetched structured_notes

list_versions_lem_example :
    (res : ListVersionsResponse) × ((list_versions by_length trim codes
        (some upstream)
        0
        0
        (some cache)
        (record { ref = some node; stream_id = b's' ∷ [] })).0
      ≡ inr res)
    × Ascending (older by_length trim 1) res.versions
    × SameMembers res.versions
        (filter (not_below by_length trim from 1) (map release_version releases))
    × (res.versions_behind
        ≡ length (filter (newer_stable by_length trim from 1) (map release_version releases)))
list_versions_lem_example =
    list_versions_lem by_length by_length-IsPrecedence trim codes (some upstream) 0 0 (some cache)
      (record { ref = some node; stream_id = b's' ∷ [] }) node_resource stream
      (map release_version releases) found missing answered

latest_of_lem_example :
    let fetched = map release_version releases in
    let sorted = sort_ascending by_length trim fetched 1 in
    ((v : Version) × (latest_of sorted ≡ v.value)
      × IsGreatest (older by_length trim 1) v (stable by_length trim 1 fetched))
    ⊎ ((stable by_length trim 1 fetched ≡ [])
        × ((v : Version) × (latest_of sorted ≡ v.value)
            × IsGreatest (older by_length trim 1) v (orderable by_length trim 1 fetched)))
    ⊎ ((orderable by_length trim 1 fetched ≡ []) × (latest_of sorted ≡ []))
latest_of_lem_example =
    latest_of_lem by_length by_length-IsPrecedence trim 1 (map release_version releases)
      (refl, (refl, (refl, tt)))

abbrev web_upstream : Upstream
web_upstream = client_upstream web client []

answered_by_web :
    fetch_versions codes (some web_upstream) stream
    ≡ inr (release_version (listed_release tagged) ∷ [])
unfolding fetch_versions github_releases is_public_ip check_egress_url
answered_by_web = refl

list_versions-IsShown_example :
    (res : ListVersionsResponse) × ((list_versions by_length trim codes
        (some web_upstream)
        0
        0
        (some cache)
        listing_request).0
      ≡ inr res)
    × All (IsShown web client (source_of stream)) res.versions
list_versions-IsShown_example =
    list_versions-IsShown web client [] codes by_length by_length-IsPrecedence trim 0 0 (some cache)
      listing_request node_resource stream (release_version (listed_release tagged) ∷ []) found
      missing answered_by_web
