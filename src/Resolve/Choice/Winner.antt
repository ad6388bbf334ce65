-- ===== src/Resolve/Choice/Winner.antt =====
-- Which candidate `decide` picks.
use kdelta.Prelude.{
  Bool, true, not, ◌&&◌, List, [], ◌∷◌, some, ◌≡◌, ◌↔◌, ◌⊎◌, inl, inr, refl, sym, ap, ◌∙◌, filter,
  length, In, Bool-cases, arith,
}
use kdelta.Upstream.Fetch.{ArtifactHubPackage}
use kdelta.Server.Vers.Sorted.{In-filter}
use kdelta.Resolve.Match.{Deployed, is_nil}
use kdelta.Resolve.Choice.{
  VerifiedCandidate, is_strong, is_weak, is_official_result, outranks, lone, decide_among, decide,
}
use kdelta.Resolve.Choice.Leading.{filter-filter, outranks_self, Leads, leader_iff}

abbrev IsLone : ArtifactHubPackage → List VerifiedCandidate → Type 0
IsLone p xs = (r : VerifiedCandidate) × In r xs × (r.pkg ≡ p) × (length xs ≡ 1)

lone_iff : (p : ArtifactHubPackage) (xs : List VerifiedCandidate) → (lone xs ≡ some p) ↔ IsLone p xs
unfolding lone
lone_iff p [] = ((λ e. absurd (ground arith)), λ h. absurd h.1)
lone_iff p (a ∷ []) = (
  (λ e. (a, inl refl, cc, refl)),
  λ h.
      let (r, there, found, one) = h in
      elim there [
        | inl e ↦
            ap (λ (x : VerifiedCandidate). some x.pkg) (sym e)
            ∙ ap (λ (q : ArtifactHubPackage). some q) found
        | inr k ↦ absurd k
      ],
)
lone_iff p (a ∷ b ∷ xs) = ((λ e. absurd (ground arith)), λ h. absurd (omega (arith, h.3)))

abbrev DecidesAmong :
    Deployed → ArtifactHubPackage → List VerifiedCandidate → List VerifiedCandidate → Type 0
DecidesAmong d p strong weak =
    Leads p strong
    ⊎ ((length strong ≡ 0) × (is_nil d.identity ≡ true) × IsLone p (filter is_official_result weak))

decide_among_iff :
    (d : Deployed) (p : ArtifactHubPackage) (strong weak : List VerifiedCandidate)
    → (decide_among d strong weak ≡ some p) ↔ DecidesAmong d p strong weak
unfolding decide_among
decide_among_iff d p (a ∷ b ∷ xs) weak =
    let leads = leader_iff p (a ∷ b ∷ xs) (omega arith) in
    (
      (λ e. inl (leads.0 e)),
      λ h. elim h [ inl k ↦ leads.1 k | inr k ↦ absurd (omega (arith, k.0)) ],
    )
decide_among_iff d p (a ∷ []) weak = (
  (λ e. inl (a, inl refl, cc, rw (outranks_self a) refl)),
  λ h. elim h [
    | inl k ↦ (lone_iff p (a ∷ [])).1 (k.0, k.1, k.2, refl)
    | inr k ↦ absurd (omega (arith, k.0))
  ],
)
decide_among_iff d p [] weak = elim (Bool-cases (is_nil d.identity)) [
  | inl bare ↦ rw bare (
    (λ e. inr (refl, refl, (lone_iff p (filter is_official_result weak)).0 e)),
    λ h. elim h [
      | inl k ↦ absurd k.1
      | inr k ↦ (lone_iff p (filter is_official_result weak)).1 k.2
    ],
  )
  | inr declared ↦ rw declared (
    (λ e. absurd (ground arith)),
    λ h. elim h [ inl k ↦ absurd k.1 | inr k ↦ absurd (ground arith) ],
  )
]

abbrev official_match : VerifiedCandidate → Bool
official_match q = is_weak q && is_official_result q

-- The result of a strong match that outranks, in trust, every other strong match.
abbrev pub WinsByMatch : ArtifactHubPackage → List VerifiedCandidate → Type 0
WinsByMatch p results =
    (r : VerifiedCandidate) × In r results
    × (r.pkg ≡ p)
    × (is_strong r ≡ true)
    × (length (filter (λ q. is_strong q && not (outranks r q)) results) ≡ 1)

-- The only official one among the results that match by version.
abbrev pub WinsByVersion : ArtifactHubPackage → List VerifiedCandidate → Type 0
WinsByVersion p results =
    (r : VerifiedCandidate) × In r results
    × (r.pkg ≡ p)
    × (official_match r ≡ true)
    × (length (filter official_match results) ≡ 1)

Leads-iff :
    (p : ArtifactHubPackage) (results : List VerifiedCandidate)
    → Leads p (filter is_strong results) ↔ WinsByMatch p results
Leads-iff p results = (
  (λ h.
      let (r, there, found, one) = h in
      let (member, strong) = (In-filter is_strong r results).0 there in
      (r, member, found, strong, ap length (sym (filter-filter _ is_strong results)) ∙ one)),
  λ h.
      let (r, member, found, strong, one) = h in
      (
        r,
        (In-filter is_strong r results).1 (member, strong),
        found,
        ap length (filter-filter _ is_strong results) ∙ one,
      ),
)

IsLone-official_iff :
    (p : ArtifactHubPackage) (results : List VerifiedCandidate)
    → IsLone p (filter is_official_result (filter is_weak results)) ↔ WinsByVersion p results
IsLone-official_iff p results =
    let both = filter-filter is_official_result is_weak results in
    rw both (
      (λ h.
          let (r, there, found, one) = h in
          let (member, official) = (In-filter official_match r results).0 there in
          (r, member, found, official, one)),
      λ h.
          let (r, member, found, official, one) = h in
          (r, (In-filter official_match r results).1 (member, official), found, one),
    )

-- A repository wins exactly in one of two ways: it is of a candidate that matches strongly and
-- outranks in trust every other strong match; or there is no strong match, the deployed release
-- declares no URL of its own, and it is of the only official candidate that matches by version.
pub decide_iff :
    (d : Deployed) (p : ArtifactHubPackage) (results : List VerifiedCandidate)
    → (decide d results ≡ some p) ↔ (
        WinsByMatch p results
        ⊎ ((length (filter is_strong results) ≡ 0)
            × (is_nil d.identity ≡ true)
            × WinsByVersion p results))
unfolding decide
decide_iff d p results =
    let among = decide_among_iff d p (filter is_strong results) (filter is_weak results) in
    let leads = Leads-iff p results in
    let official = IsLone-official_iff p results in
    (
      (λ e. elim (among.0 e) [
        | inl k ↦ inl (leads.0 k)
        | inr (k, bare, l) ↦ inr (k, bare, official.0 l)
      ]),
      λ h. elim h [
        | inl k ↦ among.1 (inl (leads.1 k))
        | inr (k, bare, l) ↦ among.1 (inr (k, bare, official.1 l))
      ],
    )
