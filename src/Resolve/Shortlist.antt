-- ===== src/Resolve/Shortlist.antt =====
-- Which candidates `shortlist` keeps.
use mathlib.Core.Path.{subst}
use kdelta.Prelude.{
  ℕ, zero, suc, true, List, [], ◌∷◌, some, ◌≡◌, sym, inl, inr, take, In, Option-cases, arith,
}
use kdelta.Text.{Text}
use kdelta.Server.Vers.Sorted.{In-slice_stable}
use kdelta.Upstream.Fetch.{ArtifactHubPackage, Web, Client, allowed}
use kdelta.Upstream.Sources.{helm_chart}
use kdelta.Resolve.Choice.{before, candidate_url, candidates, shortlist}

In-take : {A : Type 0} (n : ℕ) (x : A) (xs : List A) → In x (take n xs) → In x xs
In-take zero x xs h = absurd h
In-take (suc n) x [] h = absurd h
In-take (suc n) x (y ∷ ys) (inl e) = inl e
In-take (suc n) x (y ∷ ys) (inr h) = inr (In-take n x ys h)

module _ (web : Web) (client : Client) where
  -- A candidate that is looked at
  abbrev pub IsCandidate : Text → ArtifactHubPackage → Type 0
  IsCandidate name p =
      (helm_chart p ≡ true)
      × (web.equal_fold p.normalized_name name ≡ true)
      × (allowed web client p.repository.url ≡ true)

  candidate_url-IsCandidate :
      (name : Text) (p : ArtifactHubPackage) (seen : List Text) (c : Text)
      → candidate_url web client name p seen ≡ some c
      → IsCandidate name p
  unfolding candidate_url
  candidate_url-IsCandidate name p seen c e = (ground arith, ground arith, ground arith)

  In-candidates :
      (name : Text) (p : ArtifactHubPackage) (ps : List ArtifactHubPackage) (seen : List Text)
      → In p (candidates web client name ps seen)
      → In p ps × IsCandidate name p
  unfolding candidates
  In-candidates name p [] seen h = absurd h
  In-candidates name p (q ∷ ps) seen h =
      elim (Option-cases (candidate_url web client name q seen)) [
        | inl dropped ↦
            let k : In p (candidates web client name ps seen) = rw dropped at h in
            let (there, fits) = In-candidates name p ps seen k in (inr there, fits)
        | inr (c, kept) ↦
            let k : In p (q ∷ candidates web client name ps (c ∷ seen)) = rw kept at h in
            elim k [
              | inl e ↦ (
                inl e,
                subst (IsCandidate name) (sym e) (candidate_url-IsCandidate name q seen c kept),
              )
              | inr later ↦
                  let (there, fits) = In-candidates name p ps (c ∷ seen) later in (inr there, fits)
            ]
      ]

  pub In-shortlist :
      (name : Text) (p : ArtifactHubPackage) (ps : List ArtifactHubPackage)
      → In p (shortlist web client name ps)
      → In p ps × IsCandidate name p
  unfolding shortlist
  In-shortlist name p ps h =
      In-candidates name p ps []
        ((In-slice_stable before p (candidates web client name ps [])).0 (In-take 5 p _ h))
