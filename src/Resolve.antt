-- ===== src/Resolve.antt =====
-- internal/resolve/resolve.go and internal/server/resolve.go: the registries of packages that a scan
-- found. The resources are changed in place in the source; here the list is rebuilt. What time it is
-- at a step, and whether the time of a step has run out, is a parameter; so is the web.
pub mod Match
pub mod Choice
pub mod Helm
pub mod Group
pub mod Fresh
pub mod Enriched
pub mod Shortlist
pub mod Agreement
pub mod Verified
pub mod Bounded
pub mod Scanned
use kdelta.Prelude.{
  ℕ, suc, ◌*◌, Bool, true, false, not, ◌&&◌, ◌||◌, List, [], ◌∷◌, Option, none, some, ◌>>=◌, ◌==◌,
  ltb, if◌then◌else◌, is_some, map, find, get_or,
}
use kdelta.Text.{Text, js, text_eq, truthy}
use kdelta.Api.VersionKind
use kdelta.Api.ProvenanceMethod
use kdelta.Api.Common.{PackageKey, Provenance}
use kdelta.Api.Version.{helm_repository}
use kdelta.Api.Resource.{Resource, VersionStream}
use kdelta.Server.Store.{Store, resolution, put_resolution, second}
use kdelta.Upstream.Fetch.{Web, Client, Log}
use kdelta.Resolve.Match.{key_or_empty, deployed_from}
use kdelta.Resolve.Helm.{resolve_helm}

-- `packageKey`
pub record Package : Type 0 where
  pub system : Text
  pub name : Text

abbrev pub max_packages_per_scan : ℕ
max_packages_per_scan = 20

-- `resolutionTTL` and `resolutionFailureTTL`, in nanoseconds
abbrev pub resolution_ttl : ℕ
resolution_ttl = 7 * 24 * 3600 * second

abbrev pub resolution_failure_ttl : ℕ
resolution_failure_ttl = 24 * 3600 * second

-- The clock at the step of a package: when the cache is read and when it is written, with `none` where
-- that failed, and whether the context of the whole had ended in between.
pub record Times : Type 0 where
  pub asked : Package → Option ℕ
  pub stored : Package → Option ℕ
  pub late : Package → Bool

-- `chartStream`
abbrev pub is_chart : VersionStream → Bool
is_chart s = s.kind == VersionKind.chart

abbrev pub lacks_source : Option VersionStream → Bool
lacks_source none = false
lacks_source (some s) = not (is_some s.source)

-- `eligible`
unfoldable pub eligible : Resource → Bool
unfolding text_eq js
eligible r =
    let up = key_or_empty r.upstream in
    text_eq up.system (js "helm")
    && truthy up.name
    && not (truthy up.registry_url)
    && lacks_source (find is_chart r.streams)

abbrev pub package_of : Resource → Package
package_of r = let up = key_or_empty r.upstream in record { system = up.system; name = up.name }

unfoldable pub same_package : Package → Package → Bool
unfolding text_eq
same_package a b = text_eq a.system b.system && text_eq a.name b.name

-- The packages in the order in which they are first seen
unfoldable pub seen : Package → List Package → Bool
unfolding same_package
seen k [] = false
seen k (j ∷ js) = same_package j k || seen k js

abbrev note_package : Resource → List Package → List Package → List Package
note_package r before others =
    if eligible r && not (seen (package_of r) before) then package_of r ∷ others else others

unfoldable pub packages_in : List Package → List Resource → List Package
unfolding eligible seen
packages_in before [] = []
packages_in before (r ∷ rs) =
    note_package r before (packages_in (if eligible r then package_of r ∷ before else before) rs)

-- `apply`, on one resource
abbrev pub fetched_from : Text → Provenance
fetched_from url = record {
  method = ProvenanceMethod.fetched;
  source_url = url;
  detector = [];
  model = [];
}

abbrev pub sourced : Text → Text → VersionStream → VersionStream
sourced url name s = record s {
  source =
      some (record { source = helm_repository (record { repository_url = url; chart = name }) });
  source_provenance = some (fetched_from url);
}

unfoldable pub stamp_chart : Text → Text → List VersionStream → List VersionStream
stamp_chart url name [] = []
stamp_chart url name (s ∷ ss) =
    let rest = stamp_chart url name ss in if is_chart s then sourced url name s ∷ ss else s ∷ rest

unfoldable pub stamp : Text → Resource → Resource
unfolding stamp_chart
stamp url r =
    let up = key_or_empty r.upstream in
    record r {
      upstream = some (record up { registry_url = url });
      streams = stamp_chart url up.name r.streams;
    }

-- The resources of a package's group: the groups are disjoint, and those of another group that were
-- stamped are eligible no more.
unfoldable pub in_group : Package → Resource → Bool
unfolding eligible same_package
in_group k r = eligible r && same_package (package_of r) k

unfoldable pub apply : Package → Text → List Resource → List Resource
unfolding in_group stamp
apply k url resources = map (λ (r : Resource). if in_group k r then stamp url r else r) resources

pub record Run : Type 0 where
  pub resources : List Resource
  pub store : Option Store
  pub log : Log
  pub fetched : ℕ

module _ (web : Web) (client : Client) (times : Times) where
  -- `resolutionCache.Resolution` and `PutResolution`, where there is a cache; their errors are a miss,
  -- and nothing.
  unfoldable pub cached : Package → Option Store → Option Text
  unfolding resolution
  cached k store = store >>= (λ s.
      times.asked k
      >>= (λ now. resolution now k.system k.name resolution_ttl resolution_failure_ttl s))

  unfoldable pub stored_at : Package → Text → Option ℕ → Store → Store
  unfolding put_resolution
  stored_at k url none s = s
  stored_at k url (some now) s = put_resolution now k.system k.name url s

  unfoldable pub remember : Package → Text → Option Store → Option Store
  unfolding stored_at
  remember k url store = store >>= (λ s. some (stored_at k url (times.stored k) s))

  abbrev pub apply_if : Package → Option Text → List Resource → List Resource
  apply_if k none resources = resources
  apply_if k (some url) resources = apply k url resources

  -- A package whose first resource is given is resolved from the network.
  unfoldable pub resolve_first : Package → Option Resource → Run → Run
  unfolding resolve_helm deployed_from apply remember
  resolve_first k none run = run
  resolve_first k (some r) run =
      let result = resolve_helm web client (deployed_from web r) run.log in
      record {
        resources = apply_if k result.1 run.resources;
        store = remember k (get_or result.1 []) run.store;
        log = result.0;
        fetched = suc run.fetched;
      }

  -- The body of the loop, by what the cache says
  unfoldable pub visit : Package → Option Text → Run → Run
  unfolding apply resolve_first
  visit k (some url) run =
      if truthy url then record run { resources = apply k url run.resources } else run
  visit k none run =
      if not (ltb run.fetched max_packages_per_scan) || times.late k
      then run
      else resolve_first k (find (in_group k) run.resources) run

  unfoldable pub visit_all : List Package → Run → Run
  unfolding visit cached
  visit_all [] run = run
  visit_all (k ∷ ks) run = visit_all ks (visit k (cached k run.store) run)

  -- `Upstreams`
  unfoldable pub upstreams : List Resource → Option Store → Log → Run
  unfolding visit_all packages_in
  upstreams resources store log =
      visit_all (packages_in [] resources)
        (record { resources = resources; store = store; log = log; fetched = 0 })

module _ (web : Web) (times : Times) where
  -- `resolveUpstreams`
  unfoldable pub resolve_upstreams :
      Option Client → Log → Option Store → List Resource → List Resource × Option Store
  unfolding upstreams
  resolve_upstreams none log store resources = (resources, store)
  resolve_upstreams (some client) log store resources =
      let run = upstreams web client times resources store log in (run.resources, run.store)
