-- ===== src/Detect/Helm.antt =====
-- internal/detect/helm/helm.go: the releases of Helm as resources. What the storage of Helm lists in a
-- namespace is a parameter, like `url.Parse` and the order in which Go ranges over a map; timestamps
-- are left out.
pub mod FromRelease
pub mod Newest
pub mod Kept
pub mod Links
pub mod Scans
use kdelta.Prelude.{
  ℕ, Bool, true, false, not, ◌&&◌, ◌||◌, List, [], ◌∷◌, ◌++◌, Option, none, some, ◌>>=◌, ltb, map,
  if◌then◌else◌, is_some, or_some,
}
use kdelta.Text.{Text, js, text_eq, truthy, split, decimal}
use kdelta.Url.{Url, trim_slashes}
use kdelta.Api.VersionKind
use kdelta.Api.VersioningScheme
use kdelta.Api.LinkKind
use kdelta.Api.ConditionStatus
use kdelta.Api.ProvenanceMethod
use kdelta.Api.Common.{Link, Provenance}
use kdelta.Api.Version.{VersionSource, github_releases}
use kdelta.Api.Changes.{ChangeSource, release_notes}
use kdelta.Api.Resource.{Resource, VersionStream}
use kdelta.Server.Scanning.{Detected}
use kdelta.Detect.{Scope, Outcome, found, failed, Detector}
use kdelta.Detect.Helm.FromRelease.{Release, resource_from_release}

abbrev pub release_key : Release → Text
release_key rel = rel.namespace ++ (b'/' ∷ rel.name)

abbrev pub newer_of : Release → Release → Release
newer_of current rel = if ltb current.version rel.version then rel else current

-- One release in the map `latest`
unfoldable pub note_release : Release → List (Text × Release) → List (Text × Release)
unfolding text_eq
note_release rel [] = (release_key rel, rel) ∷ []
note_release rel ((key, current) ∷ rows) =
    if text_eq key (release_key rel)
    then (key, newer_of current rel) ∷ rows
    else (key, current) ∷ note_release rel rows

unfoldable pub note_releases : List Release → List (Text × Release) → List (Text × Release)
unfolding note_release
note_releases [] rows = rows
note_releases (rel ∷ rels) rows = note_releases rels (note_release rel rows)

abbrev pub namespaces_of : List Text → List Text
namespaces_of [] = [] ∷ []
namespaces_of (n ∷ ns) = n ∷ ns

module _ (list : Text → Option (List Release)) where
  -- The loop over the namespaces; `none` is an error of the storage, the end of the context, or that
  -- the client of the cluster could not be built. There is one namespace at least.
  unfoldable pub gather : List Text → List (Text × Release) → Option (List (Text × Release))
  unfolding note_releases
  gather [] rows = some rows
  gather (namespace ∷ namespaces) rows =
      list namespace >>= (λ rels. gather namespaces (note_releases rels rows))

  module _ (parse_url : Text → Option Url)
      (ranged : List (Text × Release) → List (Text × Release)) where
    -- The resources of the releases that are kept, or a panic
    unfoldable pub resources_of : List Release → Option (List Resource)
    unfolding resource_from_release
    resources_of [] = some []
    resources_of (rel ∷ rels) =
        resource_from_release parse_url rel >>= (λ r. resources_of rels >>= (λ rs. some (r ∷ rs)))

    -- A panic ends the call that scans, as an error does, and nothing is kept of either.
    abbrev pub found_in : Option (List Resource) → Outcome
    found_in none = failed
    found_in (some rs) = found (record { resources = rs; edges = [] })

    abbrev outcome_of : Option (List (Text × Release)) → Outcome
    outcome_of none = failed
    outcome_of (some latest) =
        found_in (resources_of (map (λ (row : Text × Release). row.1) (ranged latest)))

    -- `Detect`
    unfoldable pub detect : Scope → Outcome
    unfolding gather resources_of
    detect scope = outcome_of (gather (namespaces_of scope.namespaces) [])

    -- `Detector`, with its name
    abbrev pub helm_detector : Detector
    helm_detector = record { name = js "helm"; detect = detect }
