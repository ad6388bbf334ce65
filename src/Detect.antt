-- ===== src/Detect.antt =====
-- internal/detect/detect.go: the registry of detectors. What a detector finds in the cluster is a
-- function of the request; an error of it is either `ErrNotApplicable` or another, and the text of
-- the one that Run makes of the latter is left out.
pub mod Counted
pub mod Chosen
pub mod Helm
use kdelta.Prelude.{
  ℕ, zero, suc, Bool, true, false, not, ◌&&◌, ◌||◌, List, [], ◌∷◌, ◌++◌, ◌⊎◌, inl, inr, ◌==◌, map,
  if◌then◌else◌, length,
}
use kdelta.Text.{Text, text_eq}
use kdelta.Query.{other_error}
use kdelta.Server.{Answer}
use kdelta.Server.Scanning.{Detected}

-- `detect.Request`, without the configuration of the cluster
pub record Scope : Type 0 where
  pub namespaces : List Text
  pub selector : Text

-- The result of a detector, or its error
pub data Outcome : Type 0 where
  found : Detected → Outcome
  not_applicable : Outcome
  failed : Outcome

pub record Detector : Type 0 where
  pub name : Text
  pub detect : Scope → Outcome

abbrev pub nothing_found : Detected
nothing_found = record { resources = []; edges = [] }

abbrev pub both : Detected → Detected → Detected
both a b = record { resources = a.resources ++ b.resources; edges = a.edges ++ b.edges }

abbrev pub is_empty : List Text → Bool
is_empty [] = true
is_empty (t ∷ ts) = false

unfoldable pub names_it : List Text → Text → Bool
unfolding text_eq
names_it [] name = false
names_it (t ∷ ts) name = text_eq t name || names_it ts name

-- Whether a detector is to run
unfoldable pub selected : List Text → Detector → Bool
unfolding names_it
selected only d = is_empty only || names_it only d.name

-- The end of `Run`, after the loop
abbrev pub checked : List Text → ℕ → Detected → Answer Detected
checked only matched result =
    if not (is_empty only) && not (matched == length only) then inl (other_error []) else inr result

-- What the loop does with a detector's outcome, before the rest of it
abbrev pub proceed : Outcome → (ℕ → Detected → Answer Detected) → ℕ → Detected → Answer Detected
proceed (found part) rest matched result = rest (suc matched) (both result part)
proceed not_applicable rest matched result = rest (suc matched) result
proceed failed rest matched result = inl (other_error [])

-- The loop of `Run`, with the result and the count so far
unfoldable pub run_from : Scope → List Text → List Detector → ℕ → Detected → Answer Detected
unfolding selected
run_from scope only [] matched result = checked only matched result
run_from scope only (d ∷ ds) matched result =
    let rest = run_from scope only ds in
    if selected only d then proceed (d.detect scope) rest matched result else rest matched result

-- `Run`
unfoldable pub run : List Detector → Scope → List Text → Answer Detected
unfolding run_from
run detectors scope only = run_from scope only detectors 0 nothing_found
