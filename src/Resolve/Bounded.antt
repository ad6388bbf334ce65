-- ===== src/Resolve/Bounded.antt =====
-- What the resolution of a whole scan connects to.
use kdelta.Prelude.{
  ℕ, zero, suc, ◌+◌, ◌*◌, ◌≤◌, false, not, ◌||◌, List, [], ◌∷◌, Option, none, some, ◌≡◌, ltb,
  length, take, find, All, Bool-cases, inl, inr, arith, refl,
}
use kdelta.Text.{Text, truthy}
use kdelta.Api.Resource.{Resource}
use kdelta.Server.Store.{Store}
use kdelta.Upstream.Fetch.{ArtifactHubPackage, Web, Client, Log}
use kdelta.Upstream.Fetch.Guarded.{IsGuarded, Guards, bind-Guards, get-Guards}
use kdelta.Upstream.Sources.{artifact_hub_search_charts, helm_chart_versions, decoded, mebibyte}
use kdelta.Resolve.Match.{Deployed}
use kdelta.Resolve.Choice.{shortlist}
use kdelta.Resolve.Helm.{verify_all, resolve_among, resolve_helm}
use kdelta.Resolve.{
  Package, Times, Run, packages_in, in_group, cached, visit, visit_all, resolve_first, upstreams,
}

length-take-le : {A : Type 0} (n : ℕ) (xs : List A) → length (take n xs) ≤ n
length-take-le zero xs = omega arith
length-take-le (suc n) [] = omega arith
length-take-le (suc n) (x ∷ xs) = omega (arith, length-take-le n xs)

decoded-log :
    {A : Type 0} (decode : Text → Option A) (r : Log × Option Text) → (decoded decode r).0 ≡ r.0
unfolding decoded
decoded-log decode (log, none) = refl
decoded-log decode (log, some body) = refl

module _ (web : Web) (client : Client) (secure : client.insecure_private_egress ≡ false) where
  search-Guards : (name : Text) → Guards web 5 (artifact_hub_search_charts web client name)
  unfolding artifact_hub_search_charts
  search-Guards name log h = rw decoded-log (get-Guards web client secure (2 * mebibyte) _ log h)

  index-Guards : (url chart : Text) → Guards web 5 (helm_chart_versions web client url chart)
  unfolding helm_chart_versions
  index-Guards url chart log h =
      rw decoded-log (get-Guards web client secure (50 * mebibyte) _ log h)

  verify_all-Guards :
      (d : Deployed) (ps : List ArtifactHubPackage) (log : Log)
      → All (IsGuarded web) log
      → All (IsGuarded web) (verify_all web client d ps log).0
        × (length (verify_all web client d ps log).0 ≤ length log + 5 * length ps)
  unfolding verify_all
  verify_all-Guards d [] log h = (h, omega arith)
  verify_all-Guards d (p ∷ ps) log h =
      let (all, most) = index-Guards p.repository.url d.name log h in
      let (later, more) =
        verify_all-Guards d ps (helm_chart_versions web client p.repository.url d.name log).0 all in
      (later, omega arith)

  resolve_among-Guards :
      (d : Deployed) (packages : List ArtifactHubPackage)
      → Guards web 25 (resolve_among web client d packages)
  unfolding resolve_among shortlist
  resolve_among-Guards d packages log h =
      let (all, most) = verify_all-Guards d (shortlist web client d.name packages) log h in
      (all, omega (arith, length-take-le 5 _))

  -- The resolution of one package: a search, and five repositories.
  pub resolve_helm-Guards : (d : Deployed) → Guards web 30 (resolve_helm web client d)
  unfolding resolve_helm
  resolve_helm-Guards d = elim (Bool-cases (truthy d.chart_version)) [
    | inl versioned ↦ rw versioned (
        bind-Guards web 5 25 (artifact_hub_search_charts web client d.name)
          (resolve_among web client d) (search-Guards d.name) (resolve_among-Guards d))
    | inr bare ↦ rw bare (λ log h. (h, omega arith))
  ]

  module _ (times : Times) (start : ℕ) where
    -- The connections of a run, thirty at most for each package that was fetched.
    record IsBounded (run : Run) : Type 0 where
      guarded : All (IsGuarded web) run.log
      counted : length run.log ≤ start + 30 * run.fetched
      capped : run.fetched ≤ 20

    resolve_first-IsBounded :
        (k : Package) (first : Option Resource) (run : Run)
        → suc run.fetched ≤ 20
        → IsBounded run
        → IsBounded (resolve_first web client times k first run)
    unfolding resolve_first
    resolve_first-IsBounded k none run room h = h
    resolve_first-IsBounded k (some r) run room h =
        let (all, most) = resolve_helm-Guards _ run.log h.guarded in
        record { guarded = all; counted = omega arith; capped = room }

    visit-IsBounded :
        (k : Package) (known : Option Text) (run : Run)
        → IsBounded run
        → IsBounded (visit web client times k known run)
    unfolding visit
    visit-IsBounded k (some url) run h = elim (Bool-cases (truthy url)) [
      | inl resolved ↦
          rw resolved (record { guarded = h.guarded; counted = h.counted; capped = h.capped })
      | inr failed ↦ rw failed h
    ]
    visit-IsBounded k none run h = elim (Bool-cases (not (ltb run.fetched 20) || times.late k)) [
      | inl stopped ↦ rw stopped h
      | inr goes ↦
          rw goes (resolve_first-IsBounded k (find (in_group k) run.resources) run (ground arith) h)
    ]

    visit_all-IsBounded :
        (ks : List Package) (run : Run)
        → IsBounded run
        → IsBounded (visit_all web client times ks run)
    unfolding visit_all
    visit_all-IsBounded [] run h = h
    visit_all-IsBounded (k ∷ ks) run h =
        visit_all-IsBounded ks _ (visit-IsBounded k (cached web client times k run.store) run h)

-- Whatever a cluster reports and the web answers, the resolution of a scan makes at most 600
-- connections, and each of them is for an https URL with a host and no user, whose host is no
-- address outside the public ones, and goes to a public address.
pub upstreams-Guards :
    (web : Web) (client : Client) (times : Times) (resources : List Resource) (store : Option Store)
    → client.insecure_private_egress ≡ false
    → let log = (upstreams web client times resources store []).log in
      All (IsGuarded web) log × (length log ≤ 600)
unfolding upstreams
upstreams-Guards web client times resources store secure =
    let bounded =
      visit_all-IsBounded web client secure times 0 (packages_in [] resources)
        (record { resources = resources; store = store; log = []; fetched = 0 })
        (record { guarded = tt; counted = omega arith; capped = omega arith }) in
    (bounded.guarded, omega (arith, bounded.counted, bounded.capped))
