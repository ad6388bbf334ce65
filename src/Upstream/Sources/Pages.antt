-- ===== src/Upstream/Sources/Pages.antt =====
-- What the client's listings answer.
use kdelta.Prelude.{
  ℕ, zero, suc, Bool, true, List, [], ◌∷◌, ◌++◌, Option, none, some, ◌≡◌, refl, In, ltb, filter,
  length, All, All-append, IfSome, Bool-cases, Option-cases, inl, inr,
}
use kdelta.Text.{Text}
use kdelta.Upstream.Fetch.{GithubRelease, HelmChartVersion, Web, Client, Log, Trip, then_with}
use kdelta.Upstream.Sources.{
  safe_entry, published, turn_page, decoded, entries_of, safe_entries, github_page, github_pages,
  github_releases, helm_chart_versions,
}

All-passing : {A : Type 0} (p : A → Bool) (xs : List A) → All (λ x. p x ≡ true) (filter p xs)
All-passing p [] = tt
All-passing p (x ∷ xs) = elim (Bool-cases (p x)) [
  | inl passes ↦ rw passes (passes, All-passing p xs)
  | inr fails ↦ rw fails (All-passing p xs)
]

IfSome-decoded :
    {A : Type 0} (P : A → Type 0) (decode : Text → Option A) (r : Log × Option Text)
    → ((body : Text) → IfSome P (decode body))
    → IfSome P (decoded decode r).1
unfolding decoded
IfSome-decoded P decode (log, none) h = tt
IfSome-decoded P decode (log, some body) h = h body

-- Versions that are neither empty nor oversized, without control characters
abbrev pub IsSafe : HelmChartVersion → Type 0
IsSafe v = safe_entry v ≡ true

IfSome-safe_entries :
    (chart : Text) (index : Option (List (Text × List HelmChartVersion)))
    → IfSome (All IsSafe) (safe_entries chart index)
unfolding safe_entries
IfSome-safe_entries chart none = tt
IfSome-safe_entries chart (some index) = elim (Option-cases (entries_of chart index)) [
  | inl missing ↦ rw missing tt
  | inr (entries, found) ↦ rw found (All-passing safe_entry entries)
]

IfSome-then_with :
    {A B : Type 0} (P : B → Type 0) (f : A → Trip B) (r : Log × Option A)
    → ((a : A) (log : Log) → r.1 ≡ some a → IfSome P (f a log).1)
    → IfSome P (then_with f r).1
IfSome-then_with P f (log, none) h = tt
IfSome-then_with P f (log, some a) h = h a log refl

module _ (web : Web) (client : Client) where
  -- A release that is no draft, on a page of the repository's releases as the web answered it.
  abbrev pub IsPublished : Text → Text → GithubRelease → Type 0
  IsPublished owner repo r =
      (page : ℕ) × (before : Log) × (listed : List GithubRelease) × ((github_page web client owner
          repo page before).1
        ≡ some listed)
      × In r listed
      × (published r ≡ true)

  All-IsPublished :
      (owner repo : Text) (page : ℕ) (before : Log) (listed rs : List GithubRelease)
      → (github_page web client owner repo page before).1 ≡ some listed
      → ((r : GithubRelease) → In r rs → In r listed)
      → All (IsPublished owner repo) (filter published rs)
  All-IsPublished owner repo page before listed [] answered within = tt
  All-IsPublished owner repo page before listed (r ∷ rs) answered within =
      let rest =
        All-IsPublished owner repo page before listed rs answered
          (λ q there. within q (inr there)) in
      elim (Bool-cases (published r)) [
        | inl fine ↦ rw fine ((page, before, listed, answered, within r (inl refl), fine), rest)
        | inr draft ↦ rw draft rest
      ]

  pub helm_chart_versions-IsSafe :
      (url chart : Text) (log : Log)
      → IfSome (All IsSafe) (helm_chart_versions web client url chart log).1
  unfolding helm_chart_versions
  helm_chart_versions-IsSafe url chart log =
      IfSome-decoded (All IsSafe) _ _ (λ body. IfSome-safe_entries chart (web.decode_index body))

  github_pages-IsPublished :
      (owner repo : Text) (left page : ℕ) (acc : List GithubRelease) (log : Log)
      → All (IsPublished owner repo) acc
      → IfSome
          (All (IsPublished owner repo))
          (github_pages web client owner repo left page acc log).1
  unfolding github_pages
  github_pages-IsPublished owner repo zero page acc log h = h
  github_pages-IsPublished owner repo (suc left) page acc log h =
      IfSome-then_with (All (IsPublished owner repo))
        (λ listed.
          turn_page listed (acc ++ filter published listed)
            (github_pages web client owner repo left (suc page)))
        (github_page web client owner repo page log)
        (λ listed after answered.
          let all =
            All-append (IsPublished owner repo) acc (filter published listed) h
              (All-IsPublished owner repo page log listed listed answered (λ q there. there)) in
          elim (Bool-cases (ltb (length listed) 100)) [
            | inl last ↦ rw last all
            | inr more ↦ rw more (
                github_pages-IsPublished owner repo left (suc page) (acc ++ filter published listed)
                  after all)
          ])

  pub github_releases-IsPublished :
      (owner repo : Text) (log : Log)
      → IfSome (All (IsPublished owner repo)) (github_releases web client owner repo log).1
  unfolding github_releases
  github_releases-IsPublished owner repo log = github_pages-IsPublished owner repo 3 1 [] log tt
