-- ===== src/Resolve/Scanned.antt =====
-- The resolver in `Scan` of internal/server/scan.go: the cache that it leaves, and the references.
use kdelta.Prelude.{
  ℕ, Bool, false, ◌>>=◌, not, ◌||◌, List, [], ◌∷◌, Option, none, some, ◌≡◌, refl, ap, ◌∙◌, ◌⊎◌, inl,
  inr, ltb, find, get_or, Distinct, Bool-cases,
}
use kdelta.Text.{Text, truthy}
use kdelta.Query.{other_error, Codes}
use kdelta.Api.Resource.{Resource}
use kdelta.Api.Service.{ScanRequest, ScanResponse}
use kdelta.Server.{string_of}
use kdelta.Server.Store.{Store, latest_scan}
use kdelta.Server.Store.Invalidation.{Write, resolved, written}
use kdelta.Server.Store.Refused.{refs_of}
use kdelta.Server.Scan.{list_resources}
use kdelta.Server.Scanning.{Detected, Cluster, scan}
use kdelta.Server.Scanning.Listed.{scan-listed}
use kdelta.ResourcesPage.{list_query}
use kdelta.Upstream.Fetch.{Web, Client, Log}
use kdelta.Resolve.Match.{deployed_from}
use kdelta.Resolve.Helm.{resolve_helm}
use kdelta.Resolve.{
  apply_if, Package, Times, Run, in_group, stamp, apply, cached, stored_at, remember, resolve_first,
  visit, visit_all, packages_in, upstreams, resolve_upstreams,
}

refs_of-apply :
    (k : Package) (url : Text) (rs : List Resource) → refs_of (apply k url rs) ≡ refs_of rs
unfolding apply stamp
refs_of-apply k url [] = refl
refs_of-apply k url (r ∷ rs) = elim (Bool-cases (in_group k r)) [
  | inl member ↦ rw member (ap (string_of r.ref ∷◌) (refs_of-apply k url rs))
  | inr other ↦ rw other (ap (string_of r.ref ∷◌) (refs_of-apply k url rs))
]

module _ (web : Web) (client : Client) (times : Times) (refs : List Text)
    (start : Option (ℕ × ScanResponse)) where
  -- The references stay, and the cache is one that writes lead to.
  record Keeps (run : Run) : Type 0 where
    same_refs : refs_of run.resources ≡ refs
    writes : List Write
    left : run.store ≡ some (written writes)
    same_scan : latest_scan (written writes) ≡ start

  remember-written :
      (k : Package) (url : Text) (now : Option ℕ) (store : Option Store) (ws : List Write)
      → store ≡ some (written ws)
      → latest_scan (written ws) ≡ start
      → (more : List Write) × ((store >>= (λ s. some (stored_at web client times k url now s)))
          ≡ some (written more))
        × (latest_scan (written more) ≡ start)
  unfolding stored_at written latest_scan
  remember-written k url none store ws e l = (ws, rw e refl, l)
  remember-written k url (some now) store ws e l =
      (resolved now k.system k.name url ∷ ws, rw e refl, l)

  apply_if-refs :
      (k : Package) (url : Option Text) (rs : List Resource)
      → refs_of (apply_if web client times k url rs) ≡ refs_of rs
  apply_if-refs k none rs = refl
  apply_if-refs k (some url) rs = refs_of-apply k url rs

  resolve_first-Keeps :
      (k : Package) (first : Option Resource) (run : Run)
      → Keeps run
      → Keeps (resolve_first web client times k first run)
  unfolding resolve_first remember
  resolve_first-Keeps k none run h = h
  resolve_first-Keeps k (some r) run h =
      let result = resolve_helm web client (deployed_from web r) run.log in
      let (ws, left, same_scan) =
        remember-written k (get_or result.1 []) (times.stored k) run.store h.writes h.left
          h.same_scan in
      record {
        same_refs = apply_if-refs k result.1 run.resources ∙ h.same_refs;
        writes = ws;
        left = left;
        same_scan = same_scan;
      }

  visit-Keeps :
      (k : Package) (known : Option Text) (run : Run)
      → Keeps run
      → Keeps (visit web client times k known run)
  unfolding visit
  visit-Keeps k (some url) run h = elim (Bool-cases (truthy url)) [
    | inl found ↦ rw found (record {
      same_refs = refs_of-apply k url run.resources ∙ h.same_refs;
      writes = h.writes;
      left = h.left;
      same_scan = h.same_scan;
    })
    | inr failed ↦ rw failed h
  ]
  visit-Keeps k none run h = elim (Bool-cases (not (ltb run.fetched 20) || times.late k)) [
    | inl stopped ↦ rw stopped h
    | inr goes ↦ rw goes (resolve_first-Keeps k (find (in_group k) run.resources) run h)
  ]

  visit_all-Keeps :
      (ks : List Package) (run : Run) → Keeps run → Keeps (visit_all web client times ks run)
  unfolding visit_all
  visit_all-Keeps [] run h = h
  visit_all-Keeps (k ∷ ks) run h =
      visit_all-Keeps ks _ (visit-Keeps k (cached web client times k run.store) run h)

-- Where the configuration of the cluster is read and the detectors answer, with the resolver in its
-- place, and whatever the web answers to it: the scan has a response with resources of the same
-- references in the same order and with the edges as found. If it can be marshalled, the database has
-- no error, and no two of the references are written the same, the scan answers with it, and the
-- listing that the UI fetches next shows just these resources; otherwise the scan fails and leaves the
-- cached scan as it was.
pub scan-resolved :
    (code : Codes) (fails : ScanResponse → Bool) (web : Web) (times : Times) (client : Client)
    (log : Log) (cluster : Cluster) (ws : List Write) (req : ScanRequest) (found : Detected)
    → cluster.rest_config ≡ none
    → cluster.detect req ≡ inr found
    → let r =
        scan code fails
          (resolve_upstreams web times (some client) log)
          (some cluster)
          (some (written ws))
          req in
      (rs : List Resource) × (refs_of rs ≡ refs_of found.resources)
      × ((¬ (
              (fails (record { resources = rs; edges = found.edges }) ≡ false)
              × Distinct (refs_of found.resources))
            × (r.0 ≡ inl (other_error []))
            × ((more : List Write) × (r.1 ≡ some (written more))
                × (latest_scan (written more) ≡ latest_scan (written ws))))
          ⊎ ((fails (record { resources = rs; edges = found.edges }) ≡ false)
              × Distinct (refs_of found.resources)
              × (r.0 ≡ inr (record { resources = rs; edges = found.edges }))
              × (list_resources code r.1 list_query
                  ≡ inr (record { resources = rs; next_page_token = [] }))))
unfolding resolve_upstreams upstreams
scan-resolved code fails web times client log cluster ws req found reached detected =
    let start : Run = record {
      resources = found.resources;
      store = some (written ws);
      log = log;
      fetched = 0;
    } in
    let ks = packages_in [] found.resources in
    let kept =
      visit_all-Keeps web client times (refs_of found.resources) (latest_scan (written ws)) ks start
        (record { same_refs = refl; writes = ws; left = refl; same_scan = refl }) in
    let run = visit_all web client times ks start in
    let resolved_to : (run.resources, run.store) ≡ (run.resources, some (written kept.writes)) =
      ap (λ s. (run.resources, s)) kept.left in
    (
      run.resources,
      kept.same_refs,
      elim (scan-listed code fails (resolve_upstreams web times (some client) log) cluster
          (some (written ws)) kept.writes req found run.resources reached detected resolved_to) [
            | inl (clash, failed, left) ↦
                inl (rw (← kept.same_refs) clash, failed, (kept.writes, left, kept.same_scan))
            | inr (saves, distinct, answered, listed) ↦
                inr (saves, rw (← kept.same_refs) distinct, answered, listed)
          ],
    )
