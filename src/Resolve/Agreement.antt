-- ===== src/Resolve/Agreement.antt =====
-- What a level of `verify` says of an index and a release.
use mathlib.Core.Path.{subst}
use kdelta.Prelude.{
  Bool, true, List, [], ◌∷◌, some, ◌≡◌, ◌⊎◌, refl, sym, inl, inr, find, In, Bool-cases,
  Option-cases, arith,
}
use kdelta.Text.{Text, text_eq, text_eq_iff}
use kdelta.Upstream.Fetch.{HelmChartVersion, Web}
use kdelta.Resolve.Match.{
  Deployed, MatchLevel, no_match, version_match, strong_match, verify, contains, overlaps,
  compare_identity, entry_of, grade, canonical_urls,
}

contains-In : (t : Text) (us : List Text) → contains t us ≡ true → In t us
unfolding contains
contains-In t [] h = absurd (ground arith)
contains-In t (u ∷ us) h = elim (Bool-cases (text_eq u t)) [
  | inl same ↦ inl (sym ((text_eq_iff u t).0 same))
  | inr other ↦ inr (contains-In t us (rw other at h))
]

abbrev pub Share : List Text → List Text → Type 0
Share identity remote = (c : Text) × In c identity × In c remote

overlaps-Share :
    (identity remote : List Text) → overlaps identity remote ≡ true → Share identity remote
unfolding overlaps
overlaps-Share identity [] h = absurd (ground arith)
overlaps-Share identity (c ∷ cs) h = elim (Bool-cases (contains c identity)) [
  | inl found ↦ (c, contains-In c identity found, inl refl)
  | inr missing ↦
      let (t, mine, theirs) = overlaps-Share identity cs (rw missing at h) in (t, mine, inr theirs)
]

compare_identity-Share :
    (identity remote : List Text)
    → compare_identity identity remote ≡ strong_match
    → Share identity remote
unfolding compare_identity
compare_identity-Share identity remote h = overlaps-Share identity remote (ground arith)

find-In :
    {A : Type 0} (p : A → Bool) (x : A) (xs : List A) → find p xs ≡ some x → In x xs × (p x ≡ true)
find-In p x [] h = absurd (ground arith)
find-In p x (y ∷ ys) h = elim (Bool-cases (p y)) [
  | inl passes ↦
      let found : some y ≡ some x = rw passes at h in
      let same : y ≡ x = cc in (inl (sym same), subst (λ z. p z ≡ true) same passes)
  | inr fails ↦ let (there, passes) = find-In p x ys (rw fails at h) in (inr there, passes)
]

module _ (web : Web) (d : Deployed) where
  -- An entry of the deployed version; where the match is strong, the deployed release and the entry
  -- have a URL in common.
  abbrev pub Backs : MatchLevel → HelmChartVersion → Type 0
  Backs strong_match entry = Share d.identity (canonical_urls web (entry.home ∷ entry.sources))
  Backs _ entry = Unit

  grade-Backs :
      (entry : HelmChartVersion) (level : MatchLevel)
      → grade web d (some entry) ≡ level
      → Backs level entry
  unfolding grade
  grade-Backs entry no_match h = tt
  grade-Backs entry version_match h = tt
  grade-Backs entry strong_match h = compare_identity-Share d.identity _ (ground arith)

  abbrev pub Lists : MatchLevel → List HelmChartVersion → Type 0
  Lists level entries =
      (entry : HelmChartVersion) × In entry entries
      × (entry.version ≡ d.chart_version)
      × Backs level entry

  pub verify-Lists :
      (entries : List HelmChartVersion) (level : MatchLevel)
      → verify web d entries ≡ level
      → (level ≡ no_match) ⊎ Lists level entries
  unfolding verify entry_of
  verify-Lists entries level h = elim (Option-cases (entry_of web d entries)) [
    | inl missing ↦ inl (sym (rw missing at h))
    | inr (entry, found) ↦
        let (there, same) =
          find-In (λ (e : HelmChartVersion). text_eq e.version d.chart_version) entry entries
            found in
        inr (
          entry,
          there,
          (text_eq_iff entry.version d.chart_version).0 same,
          grade-Backs entry level (rw found at h),
        )
  ]
