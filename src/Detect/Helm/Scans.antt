-- ===== src/Detect/Helm/Scans.antt =====
-- A scan whose registry holds the detector of Helm, with the resolver in its place, and the list of
-- resources after it.
use mathlib.Core.Path.{subst}
use kdelta.Prelude.{
  Bool, true, false, ◌⊎◌, Bool-cases, List, [], ◌∷◌, Option, none, some, ◌≡◌, ◌≢◌, refl, sym, ap,
  ap₂, ◌∙◌, inl, inr, map, All, All-In, In, Distinct, Shuffled, arith,
}
use kdelta.Text.{Text, truthy}
use kdelta.Url.{Url}
use kdelta.Query.{Codes, other_error}
use kdelta.Api.Resource.{Resource}
use kdelta.Api.Service.{ScanRequest, ScanResponse}
use kdelta.Server.{string_of}
use kdelta.Server.Store.Invalidation.{Write, written}
use kdelta.Server.Store.Refused.{refs_of}
use kdelta.Server.Scan.{list_resources}
use kdelta.Server.Scanning.{Detected, Cluster, scan}
use kdelta.ResourcesPage.{list_query}
use kdelta.Upstream.Fetch.{Web, Client, Log}
use kdelta.Resolve.{Times, resolve_upstreams}
use kdelta.Resolve.Scanned.{scan-resolved}
use kdelta.Detect.{Scope, found, run, selected}
use kdelta.Detect.Helm.FromRelease.{Release, ChartMetadata, resource_of, resource_from_release}
use kdelta.Detect.Helm.{release_key, namespaces_of, detect, helm_detector, resources_of, found_in}
use kdelta.Detect.Helm.Newest.{listed_after}
use kdelta.Detect.Helm.Kept.{Row, IsKept, detect_lem}

-- The string form of a release's reference
abbrev pub ref_text : Release → Text
ref_text rel = b'h' ∷ b'e' ∷ b'l' ∷ b'm' ∷ b':' ∷ release_key rel

-- A release with a namespace, the metadata of its chart, and its status
abbrev pub IsComplete : Release → Type 0
IsComplete rel =
    (truthy rel.namespace ≡ true)
    × ((meta : ChartMetadata) × (rel.metadata ≡ some meta))
    × ((status : Text) × (rel.status ≡ some status))

string_of-release :
    (parse_url : Text → Option Url) (rel : Release) (meta : ChartMetadata) (status : Text)
    → truthy rel.namespace ≡ true
    → string_of (resource_of parse_url rel meta status).ref ≡ ref_text rel
unfolding string_of resource_of
string_of-release parse_url rel meta status scoped = rw scoped refl

resource_from_release-IsComplete :
    (parse_url : Text → Option Url) (rel : Release)
    → IsComplete rel
    → (r : Resource) × (resource_from_release parse_url rel ≡ some r)
      × (string_of r.ref ≡ ref_text rel)
unfolding resource_from_release
resource_from_release-IsComplete parse_url rel (scoped, (meta, there), (status, known)) = (
  resource_of parse_url rel meta status,
  rw (there, known) refl,
  string_of-release parse_url rel meta status scoped,
)

differ-texts :
    (rel : Release) (rels : List Release)
    → All (λ k. release_key rel ≢ k) (map release_key rels)
    → All (λ t. ref_text rel ≢ t) (map ref_text rels)
differ-texts rel [] h = tt
differ-texts rel (q ∷ rels) h = ((λ e. h.0 (cc)), differ-texts rel rels h.1)

Distinct-texts :
    (rels : List Release) → Distinct (map release_key rels) → Distinct (map ref_text rels)
Distinct-texts [] h = tt
Distinct-texts (rel ∷ rels) h = (differ-texts rel rels h.0, Distinct-texts rels h.1)

All-kept :
    (P : Release → Type 0) (all kept : List Release)
    → All (λ rel. In rel all) kept
    → All P all
    → All P kept
All-kept P all [] h k = tt
All-kept P all (rel ∷ kept) h k = (All-In P all rel k h.0, All-kept P all kept h.1 k)

all_of : {xs ys : List Release} → some xs ≡ some ys → xs ≡ ys
all_of e = cc

module _ (list : Text → Option (List Release)) (parse_url : Text → Option Url)
    (ranged : List Row → List Row) where
  -- What `Scan` runs, where the registry holds only this detector
  abbrev pub helm_cluster : Cluster
  helm_cluster = record {
    rest_config = none;
    detect = λ req.
        run (helm_detector list parse_url ranged ∷ [])
          (record { namespaces = req.namespaces; selector = req.selector }) req.detectors;
  }

  -- Complete releases become resources, with the references of the releases.
  resources_of-IsComplete :
      (rels : List Release)
      → All IsComplete rels
      → (rs : List Resource) × (resources_of list parse_url ranged rels ≡ some rs)
        × (refs_of rs ≡ map ref_text rels)
  unfolding resources_of
  resources_of-IsComplete [] h = ([], refl, refl)
  resources_of-IsComplete (rel ∷ rels) (complete, rest) =
      let (r, made, text) = resource_from_release-IsComplete parse_url rel complete in
      let (rs, all, texts) = resources_of-IsComplete rels rest in
      (r ∷ rs, rw (made, all) refl, ap₂ ◌∷◌ text texts)

  run-found :
      (scope : Scope) (part : Detected)
      → detect list parse_url ranged scope ≡ found part
      → run (helm_detector list parse_url ranged ∷ []) scope [] ≡ inr part
  unfolding run selected
  run-found scope part e = rw e refl

  -- Where the client of the cluster is built and Helm lists releases in each namespace of the
  -- request, each with a namespace, the metadata of its chart and its status, and the scan names no
  -- detector: of each namespace and name the newest release is kept, and there is a response with a
  -- resource to each one kept, with its reference; whatever the web answers to the resolver, and in
  -- whatever order Go ranges over a map. The scan fails if this response cannot be marshalled or the
  -- database has an error, and only then; otherwise it answers with it, and the listing that the UI
  -- fetches next shows just the resources of the answer.
  pub helm-scan :
      (code : Codes) (fails : ScanResponse → Bool) (web : Web) (times : Times) (client : Client)
      (log : Log) (ws : List Write) (req : ScanRequest) (all : List Release)
      → ((rows : List Row) → Shuffled rows (ranged rows))
      → req.detectors ≡ []
      → listed_after list (namespaces_of req.namespaces) [] ≡ some all
      → All IsComplete all
      → let r =
          scan code fails
            (resolve_upstreams web times (some client) log)
            (some helm_cluster)
            (some (written ws))
            req in
        (kept : List Release) × (rs : List Resource) × IsKept all kept
        × (refs_of rs ≡ map ref_text kept)
        × (((fails (record { resources = rs; edges = [] }) ≡ true) × (r.0 ≡ inl (other_error [])))
            ⊎ ((fails (record { resources = rs; edges = [] }) ≡ false)
                × (r.0 ≡ inr (record { resources = rs; edges = [] }))
                × (list_resources code r.1 list_query
                    ≡ inr (record { resources = rs; next_page_token = [] }))))
  helm-scan code fails web times client log ws req all ranges every listing complete =
      let scope : Scope = record { namespaces = req.namespaces; selector = req.selector } in
      elim (detect_lem list parse_url ranged scope ranges) [
        | inl (broken, e) ↦
            let nothing : none ≡ some all = sym broken ∙ listing in absurd (ground arith)
        | inr (all', kept, read, newest', e) ↦
            let same : all' ≡ all = all_of (sym read ∙ listing) in
            let newest = subst (λ l. IsKept l kept) same newest' in
            let (resources, made, texts) =
              resources_of-IsComplete kept (All-kept IsComplete all kept newest.listed complete) in
            let detected : helm_cluster.detect req
                ≡ inr (record { resources = resources; edges = [] }) =
              ap (run (helm_detector list parse_url ranged ∷ []) scope) every
              ∙ run-found scope (record { resources = resources; edges = [] })
                  (e ∙ ap (found_in list parse_url ranged) made) in
            let distinct = subst Distinct (sym texts) (Distinct-texts kept newest.distinct) in
            let (rs, refs, answer) =
              scan-resolved code fails web times client log helm_cluster ws req
                (record { resources = resources; edges = [] }) refl detected in
            (
              kept,
              rs,
              newest,
              refs ∙ texts,
              elim answer [
                | inl (clash, failed, left) ↦
                    elim (Bool-cases (fails (record { resources = rs; edges = [] }))) [
                      | inl lost ↦ inl (lost, failed)
                      | inr fine ↦ absurd (clash (fine, distinct))
                    ]
                | inr (fine, _, answered, shown) ↦ inr (fine, answered, shown)
              ],
            )
      ]
