-- ===== src/Tests/Cluster.antt =====
-- A small cluster, the cache after its second scan, and what upstream lists: data for the tests.
use kdelta.Prelude.{
  true, false, Bool, [], ◌∷◌, List, none, some, ◌≡◌, refl, inl, inr, ltb, if◌then◌else◌, length,
  arith, ◌>>=◌, get_or,
}
use Prim.Native.Nat.{Ordering}
use kdelta.Text.{Text, text_eq}
use kdelta.Query.{Codes, other_error}
use kdelta.Ref.{ResourceRef}
use kdelta.Ref.Validated.{IsValidated, matches_detector, matches_label, dotted}
use kdelta.Api.Changes.{release_notes}
use kdelta.Api.Version.{github_releases}
use kdelta.Api.Resource.{Resource, ResourceEdge, VersionStream}
use kdelta.Api.Impact.{ImpactAssessment}
use kdelta.Api.Service.{ScanResponse}
use kdelta.Server.Table.{same_key}
use kdelta.Server.Store.{Store, empty_store, write_scan, save_scan, latest_scan}
use kdelta.Server.Store.Invalidation.{Write, scanned, assessed, written}
use kdelta.Server.Scan.{cached_scan}
use kdelta.Server.Vers.{Semver}
use kdelta.Server.Vers.Precedence.{IsPrecedence}
use kdelta.Server.Versions.{Release, Upstream}

abbrev pub codes : Codes
codes = record {
  failed_precondition = 9;
  invalid_argument = 3;
  not_found = 5;
  unimplemented = 12;
  permission_denied = 7;
  unauthenticated = 16;
}

abbrev pub node : ResourceRef
node = record { detector = b'h' ∷ []; namespace = []; name = b'n' ∷ [] }

abbrev pub pod : ResourceRef
pod = record { detector = b'h' ∷ []; namespace = []; name = b'p' ∷ [] }

pub node-IsValidated : IsValidated node
unfolding matches_detector matches_label dotted
node-IsValidated = record {
  detector_pattern = refl;
  detector_length = omega arith;
  namespace_pattern = inl refl;
  namespace_length = omega arith;
  name_pattern = refl;
  name_length = omega arith;
}

-- Deployed is "12"; the versions and the release notes come from GitHub.
abbrev pub stream : VersionStream
stream = record {
  id = b's' ∷ [];
  kind = 1;
  current = some (record { value = b'1' ∷ b'2' ∷ []; digest = []; provenance = none });
  constraint = [];
  scheme = 1;
  source = some (record {
    source = github_releases (record { owner = b'o' ∷ []; repo = b'r' ∷ []; tag_pattern = [] });
  });
  changes =
      record { source = release_notes (record { repository_url = b'u' ∷ []; tag_pattern = [] }) }
      ∷ [];
  source_provenance = none;
}

abbrev resource_at : ResourceRef → List VersionStream → Resource
resource_at r streams = record {
  ref = some r;
  display_name = [];
  upstream = some (record { system = b'g' ∷ []; name = b'n' ∷ []; registry_url = [] });
  links = [];
  streams = streams;
  objects = [];
  labels = [];
  conditions = [];
  provenance = none;
}

abbrev pub node_resource : Resource
node_resource = resource_at node (stream ∷ [])

abbrev pub pod_resource : Resource
pod_resource = resource_at pod []

abbrev pub edge : ResourceEdge
edge = record { parent = some node; child = some pod; kind = 1 }

abbrev first_scan : ScanResponse
first_scan = record { resources = pod_resource ∷ []; edges = [] }

abbrev pub second_scan : ScanResponse
second_scan = record { resources = node_resource ∷ pod_resource ∷ []; edges = edge ∷ [] }

abbrev pub assessment : ImpactAssessment
assessment = record {
  target = some pod;
  stream_id = [];
  from_version = [];
  to_version = [];
  overall_severity = 1;
  summary = [];
  resources = [];
  findings = [];
  gaps = [];
  provenance = none;
}

-- What was written before the second scan, the latest first.
abbrev pub before : List Write
before = assessed 1 assessment ∷ scanned first_scan ∷ []

abbrev pub cache : Store
cache = get_or (save_scan false second_scan (written before) >>= (λ r. some r.1)) empty_store

pub saved : save_scan false second_scan (written before) ≡ some (2, cache)
unfolding save_scan write_scan written same_key text_eq
saved = refl

pub cached : cached_scan codes (some cache) ≡ inr second_scan
unfolding cached_scan save_scan write_scan written latest_scan same_key text_eq
cached = refl

-- An order of versions: the shorter is the older.
abbrev pub by_length : Semver
by_length = record {
  is_valid = λ t. true;
  compare = λ a b.
      if ltb (length a) (length b)
      then Ordering.lt
      else (if ltb (length b) (length a) then Ordering.gt else Ordering.eq);
}

pub by_length-IsPrecedence : IsPrecedence by_length
by_length-IsPrecedence = record {
  flipped = λ a b. ground arith;
  not_below = λ a b c h k. ground arith;
}

abbrev pub trim : Text → Text
trim t = t

abbrev release : Text → Bool → Release
release tag pre = record { tag = tag; prerelease = pre; html_url = []; body = tag }

-- One below the deployed version, one above it, one above it that is a prerelease.
abbrev pub releases : List Release
releases =
    release (b'1' ∷ b'2' ∷ b'3' ∷ []) false
    ∷ release (b'1' ∷ []) false
    ∷ release (b'1' ∷ b'2' ∷ b'3' ∷ b'4' ∷ []) true
    ∷ []

abbrev pub upstream : Upstream
upstream = record {
  github_releases_of = λ owner repo. inr releases;
  chart_versions_of = λ url chart. inl (other_error []);
}
