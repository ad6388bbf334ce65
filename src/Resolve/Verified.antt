-- ===== src/Resolve/Verified.antt =====
-- What a repository to which `resolveHelm` resolves a release has to show.
use mathlib.Core.Path.{subst}
use kdelta.Prelude.{
  true, List, [], ◌∷◌, Option, none, some, ◌≡◌, ◌≢◌, ◌⊎◌, refl, sym, ap, ◌∙◌, inl, inr, In,
  Bool-cases, arith,
}
use mathlib.Core.Bool.{and-eq-true_iff}
use kdelta.Text.{Text, truthy}
use kdelta.Url.{trim_slash}
use kdelta.Upstream.Fetch.{
  ArtifactHubPackage, HelmChartVersion, Web, Client, Log, then_with, allowed,
}
use kdelta.Upstream.Sources.{artifact_hub_search_charts, helm_chart_versions}
use kdelta.Resolve.Match.{
  Deployed, MatchLevel, no_match, version_match, strong_match, verify, is_nil, canonical_urls,
}
use kdelta.Resolve.Choice.{shortlist, VerifiedCandidate, is_official, is_strong, decide}
use kdelta.Resolve.Shortlist.{IsCandidate, In-shortlist}
use kdelta.Resolve.Agreement.{Share, Lists, verify-Lists}
use kdelta.Resolve.Choice.Winner.{decide_iff}
use kdelta.Resolve.Helm.{
  verify_all, add_level, add_result, winning_url, resolve_among, resolve_helm,
}

module _ (web : Web) (client : Client) (d : Deployed) where
  -- What was read of a repository's index for the chart
  abbrev Indexes : ArtifactHubPackage → List HelmChartVersion → Type 0
  Indexes p entries =
      (log : Log) × ((helm_chart_versions web client p.repository.url d.name log).1 ≡ some entries)

  -- The result of a candidate among those that are looked at
  abbrev IsResult : List ArtifactHubPackage → VerifiedCandidate → Type 0
  IsResult ps r =
      In r.pkg ps
      × ((entries : List HelmChartVersion) × Indexes r.pkg entries × Lists web d r.level entries)

  In-add_level :
      (p : ArtifactHubPackage) (level : MatchLevel) (rest : List VerifiedCandidate)
      (r : VerifiedCandidate)
      → In r (add_level p level rest)
      → ((r ≡ record { pkg = p; level = level }) × (add_level p level [] ≢ [])) ⊎ In r rest
  In-add_level p no_match rest r h = inr h
  In-add_level p version_match rest r (inl e) = inl (e, λ k. cc)
  In-add_level p version_match rest r (inr h) = inr h
  In-add_level p strong_match rest r (inl e) = inl (e, λ k. cc)
  In-add_level p strong_match rest r (inr h) = inr h

  In-add_result :
      (p : ArtifactHubPackage) (fetched : Option (List HelmChartVersion))
      (rest : List VerifiedCandidate) (r : VerifiedCandidate)
      → In r (add_result web client d p fetched rest)
      → ((r.pkg ≡ p)
          × ((entries : List HelmChartVersion) × (fetched ≡ some entries)
              × Lists web d r.level entries))
        ⊎ In r rest
  In-add_result p none rest r h = inr h
  In-add_result p (some entries) rest r h = elim (In-add_level p (verify web d entries) rest r h) [
    | inl (e, matched) ↦
        let level : verify web d entries ≡ r.level =
          sym (ap (λ (x : VerifiedCandidate). x.level) e) in
        elim (verify-Lists web d entries r.level level) [
          | inl nothing ↦ absurd (matched (ap (λ l. add_level p l []) (level ∙ nothing)))
          | inr lists ↦ inl (ap (λ (x : VerifiedCandidate). x.pkg) e, (entries, refl, lists))
        ]
    | inr later ↦ inr later
  ]

  In-verify_all :
      (ps : List ArtifactHubPackage) (log : Log) (r : VerifiedCandidate)
      → In r (verify_all web client d ps log).1
      → IsResult ps r
  unfolding verify_all
  In-verify_all [] log r h = absurd h
  In-verify_all (p ∷ ps) log r h =
      let fetched = helm_chart_versions web client p.repository.url d.name log in
      elim (In-add_result p fetched.1 (verify_all web client d ps fetched.0).1 r h) [
        | inl (same, (entries, read, lists)) ↦
            (inl same, (entries, subst (λ q. Indexes q entries) (sym same) (log, read), lists))
        | inr later ↦ let (there, lists) = In-verify_all ps fetched.0 r later in (inr there, lists)
      ]

  -- What shows that a repository is the release's: an entry of its index with the deployed version, and
  -- a URL that both declare, or else that the release declares none and the candidate is official.
  abbrev Proves : ArtifactHubPackage → List HelmChartVersion → Type 0
  Proves p entries =
      (entry : HelmChartVersion) × In entry entries
      × (entry.version ≡ d.chart_version)
      × (Share d.identity (canonical_urls web (entry.home ∷ entry.sources))
          ⊎ ((is_nil d.identity ≡ true) × (is_official p ≡ true)))

  strong-Proves :
      (p : ArtifactHubPackage) (level : MatchLevel) (entries : List HelmChartVersion)
      → is_strong (record { pkg = p; level = level }) ≡ true
      → Lists web d level entries
      → Proves p entries
  strong-Proves p strong_match entries h (entry, there, same, shared) =
      (entry, there, same, inl shared)
  strong-Proves p version_match entries h lists = absurd (ground arith)
  strong-Proves p no_match entries h lists = absurd (ground arith)

  winner-Proves :
      (p : ArtifactHubPackage) (ps : List ArtifactHubPackage) (log : Log)
      → decide d (verify_all web client d ps log).1 ≡ some p
      → In p ps × ((entries : List HelmChartVersion) × Indexes p entries × Proves p entries)
  winner-Proves p ps log e = elim ((decide_iff d p (verify_all web client d ps log).1).0 e) [
    | inl (r, member, same, strong, one) ↦
        let (there, (entries, read, lists)) = In-verify_all ps log r member in
        (
          subst (λ q. In q ps) same there,
          (
            entries,
            subst (λ q. Indexes q entries) same read,
            strong-Proves p r.level entries strong lists,
          ),
        )
    | inr (nothing, bare, (r, member, same, official, one)) ↦
        let (there, (entries, read, (entry, listed, version, backs))) =
          In-verify_all ps log r member in
        let trusted : is_official r.pkg ≡ true = ((and-eq-true_iff _ _).0 official).1 in
        (
          subst (λ q. In q ps) same there,
          (
            entries,
            subst (λ q. Indexes q entries) same read,
            (entry, listed, version, inr (bare, subst (λ q. is_official q ≡ true) same trusted)),
          ),
        )
  ]

  -- What a package has to be for its repository to be a release's.
  abbrev pub IsVerified : Text → ArtifactHubPackage → Type 0
  IsVerified url p =
      (url ≡ trim_slash p.repository.url)
      × IsCandidate web client d.name p
      × ((entries : List HelmChartVersion) × Indexes p entries × Proves p entries)

  winning_url-eq :
      (o : Option ArtifactHubPackage) (url : Text)
      → winning_url web client d o ≡ some url
      → (p : ArtifactHubPackage) × (o ≡ some p)
        × (url ≡ trim_slash p.repository.url)
        × (allowed web client url ≡ true)
  unfolding winning_url
  winning_url-eq none url h = absurd (ground arith)
  winning_url-eq (some p) url h =
      elim (Bool-cases (allowed web client (trim_slash p.repository.url))) [
        | inl fine ↦
            let found : some (trim_slash p.repository.url) ≡ some url = rw fine at h in
            let same : trim_slash p.repository.url ≡ url = cc in
            (p, refl, sym same, subst (λ t. allowed web client t ≡ true) same fine)
        | inr refused ↦ let nothing : none ≡ some url = rw refused at h in absurd (ground arith)
      ]

  among-IsVerified :
      (packages : List ArtifactHubPackage) (log : Log) (url : Text)
      → (resolve_among web client d packages log).1 ≡ some url
      → (allowed web client url ≡ true)
        × ((p : ArtifactHubPackage) × In p packages × IsVerified url p)
  unfolding resolve_among
  among-IsVerified packages log url h =
      let (p, won, shape, fine) = winning_url-eq _ url h in
      let (listed, proof) = winner-Proves p (shortlist web client d.name packages) log won in
      let (there, fits) = In-shortlist web client d.name p packages listed in
      (fine, (p, there, (shape, fits, proof)))

  then-IsVerified :
      (r : Log × Option (List ArtifactHubPackage)) (url : Text)
      → (then_with (resolve_among web client d) r).1 ≡ some url
      → (allowed web client url ≡ true)
        × ((packages : List ArtifactHubPackage) × (r.1 ≡ some packages)
            × ((p : ArtifactHubPackage) × In p packages × IsVerified url p))
  then-IsVerified (log, none) url h = absurd (ground arith)
  then-IsVerified (log, some packages) url h =
      let (fine, proof) = among-IsVerified packages log url h in (fine, (packages, refl, proof))

  -- Whatever the web answers, a release is resolved only to a URL that may be fetched: that of a Helm
  -- repository which the search listed for a package of the release's name, and in whose index stands
  -- the deployed version, in an entry that declares a URL which the release declares too; a release
  -- that declares no URL may also be resolved to a repository or package marked official.
  pub resolve_helm-IsVerified :
      (log : Log) (url : Text)
      → (resolve_helm web client d log).1 ≡ some url
      → (allowed web client url ≡ true)
        × ((packages : List ArtifactHubPackage) × ((artifact_hub_search_charts web client d.name
                log).1
              ≡ some packages)
            × ((p : ArtifactHubPackage) × In p packages × IsVerified url p))
  unfolding resolve_helm
  resolve_helm-IsVerified log url h = elim (Bool-cases (truthy d.chart_version)) [
    | inl versioned ↦
        then-IsVerified (artifact_hub_search_charts web client d.name log) url (rw versioned at h)
    | inr bare ↦ let nothing : none ≡ some url = rw bare at h in absurd (ground arith)
  ]
