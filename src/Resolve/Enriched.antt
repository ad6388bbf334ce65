-- ===== src/Resolve/Enriched.antt =====
-- The resolution of all packages, as one outcome for each.
use kdelta.Prelude.{
  true, not, ◌||◌, List, [], ◌∷◌, Option, none, some, ◌≡◌, ◌≢◌, ◌⊎◌, refl, sym, ap, ◌∙◌, inl, inr,
  ltb, map, find, get_or, All, Distinct, IfSome, Bool-cases, Option-cases,
}
use kdelta.Text.{Text, truthy}
use kdelta.Api.Resource.{Resource}
use kdelta.Server.Store.{Store}
use kdelta.Upstream.Fetch.{Web, Client, Log}
use kdelta.Resolve.Match.{deployed_from}
use kdelta.Resolve.Helm.{resolve_helm}
use kdelta.Resolve.{
  Package, Times, Run, packages_in, same_package, in_group, apply, apply_if, cached, remember,
  resolve_first, visit, visit_all, upstreams,
}
use kdelta.Resolve.Group.{
  Outcomes, set, enriched, same_package_iff, other_package, find_group, apply_all, enriched_unset,
}
use kdelta.Resolve.Fresh.{packages_in-Distinct, cached-remember}

module _ (web : Web) (client : Client) (times : Times) (rs : List Resource)
    (store : Option Store) where
  -- The URL that the cache held of a package when the scan began, or one that the package's first
  -- resource was resolved to.
  abbrev pub Earned : Package → Text → Type 0
  Earned k url =
      ((cached web client times k store ≡ some url) × (truthy url ≡ true))
      ⊎ ((r : Resource) × (find (in_group k) rs ≡ some r)
          × ((log : Log) × ((resolve_helm web client (deployed_from web r) log).1 ≡ some url)))

  abbrev IsUnread : Option Store → Package → Type 0
  IsUnread now k = cached web client times k now ≡ cached web client times k store

  record Follows (f : Outcomes) (ks : List Package) (run : Run) : Type 0 where
    shaped : run.resources ≡ map (enriched f) rs
    unset : All (λ k. f k ≡ none) ks
    unread : All (IsUnread run.store) ks
    earned : (k : Package) → IfSome (Earned k) (f k)

  Unset-set :
      (f : Outcomes) (k : Package) (url : Text) (ks : List Package)
      → All (λ j. k ≢ j) ks
      → All (λ j. f j ≡ none) ks
      → All (λ j. set k url f j ≡ none) ks
  Unset-set f k url [] differ h = tt
  Unset-set f k url (j ∷ ks) differ h =
      let other = other_package j k (λ e. differ.0 (sym e)) in
      (rw other (h.0), Unset-set f k url ks differ.1 h.1)

  Earned-set :
      (f : Outcomes) (k : Package) (url : Text) (j : Package)
      → Earned k url
      → IfSome (Earned j) (f j)
      → IfSome (Earned j) (set k url f j)
  Earned-set f k url j new old = elim (Bool-cases (same_package j k)) [
    | inl same ↦ rw (same, (same_package_iff j k).0 same) new
    | inr other ↦ rw other old
  ]

  IsUnread-remember :
      (k : Package) (url : Text) (now : Option Store) (ks : List Package)
      → All (λ j. k ≢ j) ks
      → All (IsUnread now) ks
      → All (IsUnread (remember web client times k url now)) ks
  IsUnread-remember k url now [] differ h = tt
  IsUnread-remember k url now (j ∷ ks) differ h = (
    cached-remember web client times k j url now differ.0 ∙ h.0,
    IsUnread-remember k url now ks differ.1 h.1,
  )

  -- An outcome more, where the resources of the package are changed.
  settle :
      (f : Outcomes) (k : Package) (url : Text) (ks : List Package) (run after : Run)
      → Follows f (k ∷ ks) run
      → All (λ j. k ≢ j) ks
      → Earned k url
      → after.resources ≡ apply k url run.resources
      → All (IsUnread after.store) ks
      → Follows (set k url f) ks after
  settle f k url ks run after h differ new applied unread = record {
    shaped = applied ∙ ap (apply k url) h.shaped ∙ apply_all f k url rs h.unset.0;
    unset = Unset-set f k url ks differ h.unset.1;
    unread = unread;
    earned = λ j. Earned-set f k url j new (h.earned j);
  }

  -- No outcome
  pass :
      (f : Outcomes) (k : Package) (ks : List Package) (run after : Run)
      → Follows f (k ∷ ks) run
      → after.resources ≡ run.resources
      → All (IsUnread after.store) ks
      → Follows f ks after
  pass f k ks run after h same unread = record {
    shaped = same ∙ h.shaped;
    unset = h.unset.1;
    unread = unread;
    earned = h.earned;
  }

  resolve_first-Follows :
      (f : Outcomes) (k : Package) (ks : List Package) (run : Run) (first : Option Resource)
      → find (in_group k) rs ≡ first
      → Follows f (k ∷ ks) run
      → All (λ j. k ≢ j) ks
      → (g : Outcomes) × Follows g ks (resolve_first web client times k first run)
  unfolding resolve_first
  resolve_first-Follows f k ks run none found h differ = (f, pass f k ks run run h refl h.unread.1)
  resolve_first-Follows f k ks run (some r) found h differ =
      let result = resolve_helm web client (deployed_from web r) run.log in
      let unread = IsUnread-remember k (get_or result.1 []) run.store ks differ h.unread.1 in
      elim (Option-cases result.1) [
        | inl failed ↦ (
          f,
          pass f k ks run (resolve_first web client times k (some r) run) h
              (ap (λ o. apply_if web client times k o run.resources) failed) unread,
        )
        | inr (url, won) ↦ (
          set k url f,
          settle f k url ks run (resolve_first web client times k (some r) run) h differ
              (inr (r, found, (run.log, won)))
              (ap (λ o. apply_if web client times k o run.resources) won) unread,
        )
      ]

  visit-Follows :
      (f : Outcomes) (k : Package) (ks : List Package) (run : Run) (known : Option Text)
      → cached web client times k run.store ≡ known
      → Follows f (k ∷ ks) run
      → All (λ j. k ≢ j) ks
      → (g : Outcomes) × Follows g ks (visit web client times k known run)
  unfolding visit
  visit-Follows f k ks run (some url) read h differ = elim (Bool-cases (truthy url)) [
    | inl resolved ↦ rw resolved (
      set k url f,
      settle f k url ks run (record run { resources = apply k url run.resources }) h differ
          (inl (sym (h.unread.0) ∙ read, resolved)) refl h.unread.1,
    )
    | inr failed ↦ rw failed (f, pass f k ks run run h refl h.unread.1)
  ]
  visit-Follows f k ks run none read h differ =
      elim (Bool-cases (not (ltb run.fetched 20) || times.late k)) [
        | inl stopped ↦ rw stopped (f, pass f k ks run run h refl h.unread.1)
        | inr goes ↦
            let group : find (in_group k) rs ≡ find (in_group k) run.resources =
              sym (ap (find (in_group k)) h.shaped ∙ find_group f k rs h.unset.0) in
            rw goes
              (resolve_first-Follows f k ks run (find (in_group k) run.resources) group h differ)
      ]

  visit_all-Follows :
      (f : Outcomes) (ks : List Package) (run : Run)
      → Follows f ks run
      → Distinct ks
      → (g : Outcomes) × Follows g [] (visit_all web client times ks run)
  unfolding visit_all
  visit_all-Follows f [] run h distinct = (f, h)
  visit_all-Follows f (k ∷ ks) run h distinct =
      let (g, next) =
        visit-Follows f k ks run (cached web client times k run.store) refl h distinct.0 in
      visit_all-Follows g ks _ next distinct.1

  Unset_all : (ks : List Package) → All (λ k. ◌≡◌ {A = Option Text} none none) ks
  Unset_all [] = tt
  Unset_all (k ∷ ks) = (refl, Unset_all ks)

  Unread_all : (ks : List Package) → All (IsUnread store) ks
  Unread_all [] = tt
  Unread_all (k ∷ ks) = (refl, Unread_all ks)

  -- The resolution changes nothing of a scan but this: there is one outcome to a package, and each
  -- resource that is eligible gets the URL of its package's outcome, in its key and as the source of
  -- its chart stream, where there is one; every other resource stays as it was found. An outcome is
  -- the URL that the cache held when the scan began, or the one to which the first resource of the
  -- package was resolved.
  pub upstreams-enriched :
      (log : Log)
      → (f : Outcomes) × ((upstreams web client times rs store log).resources ≡ map (enriched f) rs)
        × ((k : Package) → IfSome (Earned k) (f k))
  unfolding upstreams
  upstreams-enriched log =
      let ks = packages_in [] rs in
      let nothing : Outcomes = λ k. none in
      let (f, done) =
        visit_all-Follows nothing ks
          (record { resources = rs; store = store; log = log; fetched = 0 })
          (record {
            shaped = enriched_unset rs;
            unset = Unset_all ks;
            unread = Unread_all ks;
            earned = λ k. tt;
          })
          (packages_in-Distinct rs) in
      (f, done.shaped, done.earned)
