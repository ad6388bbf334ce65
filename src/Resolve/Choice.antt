-- ===== src/Resolve/Choice.antt =====
-- internal/resolve/helm.go: which repositories are looked at, and which of them wins.
pub mod Leading
pub mod Winner
use kdelta.Prelude.{
  ℕ, Bool, true, false, not, ◌&&◌, ◌||◌, List, [], ◌∷◌, Option, none, some, ◌>>=◌, ◌==◌, ltb, ℤ,
  int_eq, int_lt, if◌then◌else◌, filter, take,
}
use kdelta.Text.{Text}
use kdelta.Upstream.Fetch.{ArtifactHubPackage, Web, Client, allowed}
use kdelta.Upstream.Sources.{helm_chart}
use kdelta.Server.Vers.{slice_stable}
use kdelta.Resolve.Match.{
  Deployed, MatchLevel, no_match, version_match, strong_match, canonical_url, contains, is_nil,
}

abbrev pub max_candidate_fetches : ℕ
max_candidate_fetches = 5

abbrev pub bit : Bool → ℕ
bit true = 1
bit false = 0

abbrev pub is_official : ArtifactHubPackage → Bool
is_official p = p.official || p.repository.official

-- `trustKey`
unfoldable pub trust_key : ArtifactHubPackage → ℕ × ℕ × ℤ
trust_key p =
    (bit (is_official p), bit p.repository.verified_publisher, p.production_organizations_count)

-- The loop over two keys, with what is returned after it.
unfoldable pub by_trust : ℕ × ℕ × ℤ → ℕ × ℕ × ℤ → Bool → Bool
by_trust (a, b, c) (x, y, z) tie =
    if not (a == x)
    then ltb x a
    else (if not (b == y) then ltb y b else (if not (int_eq c z) then int_lt z c else tie))

abbrev pub same_trust : ℕ × ℕ × ℤ → ℕ × ℕ × ℤ → Bool
same_trust (a, b, c) (x, y, z) = a == x && b == y && int_eq c z

-- `s < t` on the bytes of texts
unfoldable pub text_lt : Text → Text → Bool
text_lt s [] = false
text_lt [] (b ∷ t) = true
text_lt (a ∷ s) (b ∷ t) = if a == b then text_lt s t else ltb a b

-- The order of the shortlist
abbrev pub before : ArtifactHubPackage → ArtifactHubPackage → Bool
before a b = by_trust (trust_key a) (trust_key b) (text_lt a.repository.url b.repository.url)

module _ (web : Web) (client : Client) where
  -- The canonical URL of a candidate that is kept
  unfoldable pub candidate_url : Text → ArtifactHubPackage → List Text → Option Text
  unfolding canonical_url contains allowed
  candidate_url name p seen =
      if not (helm_chart p) || not (web.equal_fold p.normalized_name name)
      then none
      else canonical_url web p.repository.url >>= (λ c.
        if contains c seen || not (allowed web client p.repository.url) then none else some c)

  abbrev keep :
      ArtifactHubPackage
      → Option Text
      → (List Text → List ArtifactHubPackage)
      → List Text
      → List ArtifactHubPackage
  keep p none others seen = others seen
  keep p (some c) others seen = p ∷ others (c ∷ seen)

  unfoldable pub candidates : Text → List ArtifactHubPackage → List Text → List ArtifactHubPackage
  unfolding candidate_url
  candidates name [] seen = []
  candidates name (p ∷ ps) seen = keep p (candidate_url name p seen) (candidates name ps) seen

  -- `shortlist`
  unfoldable pub shortlist : Text → List ArtifactHubPackage → List ArtifactHubPackage
  unfolding candidates slice_stable by_trust trust_key text_lt
  shortlist name packages =
      take max_candidate_fetches (slice_stable before (candidates name packages []))

-- `verifiedCandidate`
pub record VerifiedCandidate : Type 0 where
  pub pkg : ArtifactHubPackage
  pub level : MatchLevel

abbrev is_strong_level : MatchLevel → Bool
is_strong_level strong_match = true
is_strong_level _ = false

abbrev is_version_level : MatchLevel → Bool
is_version_level version_match = true
is_version_level _ = false

abbrev pub is_strong : VerifiedCandidate → Bool
is_strong r = is_strong_level r.level

-- A version match of an official package
abbrev pub is_weak : VerifiedCandidate → Bool
is_weak r = is_version_level r.level

abbrev pub is_official_result : VerifiedCandidate → Bool
is_official_result r = is_official r.pkg

-- The order of the strong matches
abbrev pub outranks : VerifiedCandidate → VerifiedCandidate → Bool
outranks a b = by_trust (trust_key a.pkg) (trust_key b.pkg) false

unfoldable pub leader : List VerifiedCandidate → Option ArtifactHubPackage
unfolding trust_key
leader (a ∷ b ∷ rest) = if same_trust (trust_key a.pkg) (trust_key b.pkg) then none else some a.pkg
leader _ = none

unfoldable pub lone : List VerifiedCandidate → Option ArtifactHubPackage
lone (a ∷ []) = some a.pkg
lone _ = none

unfoldable pub decide_among :
    Deployed → List VerifiedCandidate → List VerifiedCandidate → Option ArtifactHubPackage
unfolding leader lone slice_stable by_trust trust_key
decide_among d (a ∷ []) weak = some a.pkg
decide_among d (a ∷ b ∷ rest) weak = leader (slice_stable outranks (a ∷ b ∷ rest))
decide_among d [] weak = if is_nil d.identity then lone (filter is_official_result weak) else none

-- `decide`
unfoldable pub decide : Deployed → List VerifiedCandidate → Option ArtifactHubPackage
unfolding decide_among
decide d results = decide_among d (filter is_strong results) (filter is_weak results)
