-- ===== src/Server/Scan.antt =====
-- internal/server/scan.go and resourceStream of versions.go: what is read from the cached scan. `none`
-- is a server without a cache. An error has its code and, where the source does not format it, its
-- message; a page size is not negative (a rule of proto/kdelta/v1/service.proto). The handler of a
-- listing does not read the request's selector.
pub mod Token
pub mod Bounds
pub mod Paging
pub mod Detail
use kdelta.Prelude.{
  ℕ, zero, suc, ◌+◌, ◌-◌, ◌*◌, ◌≤◌, Bool, true, false, not, ◌&&◌, ◌||◌, List, [], ◌∷◌, Option, none,
  some, ◌⊎◌, inl, inr, ◌>>=◌, ◌==◌, ltb, if◌then◌else◌, filter, find, length, take, drop, get_or,
}
use kdelta.Text.{Text, js, text_eq, truthy, decimal}
use kdelta.Query.{RpcError, connect_error, Codes}
use kdelta.Ref.{ResourceRef}
use kdelta.Api.Resource.{Resource, ResourceEdge, VersionStream}
use kdelta.Api.Service.{
  ScanResponse, ListResourcesRequest, ListResourcesResponse, GetResourceRequest,
  GetResourceResponse,
}
use kdelta.Server.{Answer, refs_equal}
use kdelta.Server.Store.{Store, latest_scan}

-- strconv.Atoi of the Go library: an optional sign and at least one digit, within 64 bits.
unfoldable pub digits_value : ℕ → Text → Option ℕ
digits_value n [] = some n
digits_value n (c ∷ t) =
    let rest = digits_value (n * 10 + (c - 48)) t in if ltb 47 c && ltb c 58 then rest else none

unfoldable pub unsigned : Text → Option ℕ
unfolding digits_value
unsigned [] = none
unsigned (c ∷ t) = digits_value 0 (c ∷ t)

abbrev pub max_int : ℕ
max_int = 9223372036854775807

-- The sign (true for a minus) and the size.
unfoldable pub atoi : Text → Option (Bool × ℕ)
unfolding unsigned
atoi [] = none
atoi (c ∷ t) =
    if c == b'-'
    then unsigned t >>= (λ n. if ltb (suc max_int) n then none else some (true, n))
    else (if c == b'+' then unsigned t else unsigned (c ∷ t))
      >>= (λ n. if ltb max_int n then none else some (false, n))

-- `offset < 0 || offset > len(resources)`
abbrev out_of_range : Bool × ℕ → ℕ → Bool
out_of_range (negative, n) size = (negative && ltb 0 n) || ltb size n

-- Where the page ends: `end` of the source, before which the slice is cut.
unfoldable pub page_end : ℕ → ℕ → ℕ → ℕ
page_end total size offset =
    if ltb 0 size && ltb (offset + size) total then offset + size else total

-- The rest of `ListResources`, from the offset on.
unfoldable pub page_from : List Resource → ℕ → ℕ → ListResourcesResponse
unfolding page_end
page_from resources size offset =
    let total = length resources in
    let end = page_end total size offset in
    record {
      resources = take (end - offset) (drop offset resources);
      next_page_token = if ltb end total then decimal end else [];
    }

-- An edge that touches the resource.
abbrev pub touches : Option ResourceRef → ResourceEdge → Bool
touches target edge = refs_equal edge.parent target || refs_equal edge.child target

-- The first resource with a reference.
unfoldable pub find_resource : Option ResourceRef → List Resource → Option Resource
find_resource target = find (λ (r : Resource). refs_equal r.ref target)

module _ (code : Codes) where
  -- `cachedScan`
  unfoldable pub scan_of : Option (ℕ × ScanResponse) → Answer ScanResponse
  unfolding js
  scan_of none =
      inl (connect_error code.failed_precondition (js "no scan cached yet - run a scan first"))
  scan_of (some (id, scan)) = inr scan

  unfoldable pub cached_scan : Option Store → Answer ScanResponse
  unfolding scan_of js
  cached_scan none =
      inl (connect_error code.failed_precondition (js "no cache is configured on this server"))
  cached_scan (some s) = scan_of (latest_scan s)

  unfoldable pub offset_at : Option (Bool × ℕ) → ℕ → Answer ℕ
  offset_at none size = inl (connect_error code.invalid_argument [])
  offset_at (some (negative, n)) size =
      if out_of_range (negative, n) size
      then inl (connect_error code.invalid_argument [])
      else inr n

  -- The offset that a page token stands for.
  unfoldable pub offset_of : Text → ℕ → Answer ℕ
  unfolding offset_at
  offset_of [] size = inr 0
  offset_of (c ∷ t) size = offset_at (atoi (c ∷ t)) size

  -- The page at an offset, and the page that a request asks for.
  unfoldable pub page_at : Answer ℕ → List Resource → ℕ → Answer ListResourcesResponse
  page_at (inl e) resources size = inl e
  page_at (inr offset) resources size = inr (page_from resources size offset)

  unfoldable pub listed_in :
      Answer ScanResponse → ListResourcesRequest → Answer ListResourcesResponse
  unfolding page_at
  listed_in (inl e) req = inl e
  listed_in (inr scan) req =
      page_at (offset_of req.page_token (length scan.resources)) scan.resources req.page_size

  -- `ListResources`
  unfoldable pub list_resources : Option Store → ListResourcesRequest → Answer ListResourcesResponse
  unfolding listed_in
  list_resources store req = listed_in (cached_scan store) req

  unfoldable pub detail_of :
      Option Resource → Option ResourceRef → List ResourceEdge → Answer GetResourceResponse
  detail_of none target edges = inl (connect_error code.not_found [])
  detail_of (some r) target edges =
      inr (record { resource = some r; edges = filter (touches target) edges })

  unfoldable pub detail_in : Answer ScanResponse → Option ResourceRef → Answer GetResourceResponse
  unfolding detail_of
  detail_in (inl e) target = inl e
  detail_in (inr scan) target = detail_of (find_resource target scan.resources) target scan.edges

  -- `GetResource`
  unfoldable pub get_resource : Option Store → GetResourceRequest → Answer GetResourceResponse
  unfolding detail_in
  get_resource store req = detail_in (cached_scan store) req.ref

  -- `resourceStream`: a resource and one of its streams, the first where no id is given
  unfoldable pub stream_of : Resource → Text → Answer (Resource × VersionStream)
  unfolding text_eq
  stream_of r stream_id = elim r.streams [
    | [] ↦ inl (connect_error code.failed_precondition [])
    | first ∷ streams ↦
        if truthy stream_id
        then elim (find (λ (s : VersionStream). text_eq s.id stream_id) r.streams) [
          | none ↦ inl (connect_error code.not_found [])
          | some s ↦ inr (r, s)
        ]
        else inr (r, first)
  ]

  unfoldable pub streams_of : Option Resource → Text → Answer (Resource × VersionStream)
  unfolding stream_of
  streams_of none stream_id = inl (connect_error code.not_found [])
  streams_of (some r) stream_id = stream_of r stream_id

  unfoldable pub streams_in :
      Answer ScanResponse → Option ResourceRef → Text → Answer (Resource × VersionStream)
  unfolding streams_of
  streams_in (inl e) target stream_id = inl e
  streams_in (inr scan) target stream_id =
      streams_of (find_resource target scan.resources) stream_id

  unfoldable pub resource_stream :
      Option Store → Option ResourceRef → Text → Answer (Resource × VersionStream)
  unfolding streams_in
  resource_stream store target stream_id = streams_in (cached_scan store) target stream_id
