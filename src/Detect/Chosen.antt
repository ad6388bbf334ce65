-- ===== src/Detect/Chosen.antt =====
-- The answer of `Run` on all branches.
use mathlib.Core.List.{append-nil, append_assoc}
use kdelta.Prelude.{
  ap₂, ℕ, suc, ◌+◌, Bool, true, false, ◌||◌, List, [], ◌∷◌, ◌⊎◌, ◌≡◌, ◌≢◌, refl, sym, ap, ◌∙◌, inl,
  inr, ◌==◌, map, if◌then◌else◌, length, filter, Distinct, Bool-cases, arith,
}
use kdelta.Text.{Text}
use kdelta.Query.{other_error}
use kdelta.Server.{Answer}
use kdelta.Server.Scanning.{Detected}
use kdelta.Detect.Counted.{Names, matches_iff}
use kdelta.Detect.{
  Scope, Outcome, found, not_applicable, failed, Detector, nothing_found, both, names_it, selected,
  checked, proceed, run_from, run,
}

-- What an outcome adds to the result
abbrev part_of : Outcome → Detected
part_of (found part) = part
part_of not_applicable = nothing_found
part_of failed = nothing_found

-- All that some detectors find, in their order
abbrev pub total : Scope → List Detector → Detected
total scope [] = nothing_found
total scope (d ∷ ds) = both (part_of (d.detect scope)) (total scope ds)

-- Whether one of some detectors fails
abbrev is_failed : Outcome → Bool
is_failed failed = true
is_failed _ = false

abbrev pub some_fail : Scope → List Detector → Bool
some_fail scope [] = false
some_fail scope (d ∷ ds) = is_failed (d.detect scope) || some_fail scope ds

both_nothing : (a : Detected) → a ≡ both a nothing_found
both_nothing a i = record {
  resources = sym (append-nil a.resources) i;
  edges = sym (append-nil a.edges) i;
}

both_assoc : (a b c : Detected) → both (both a b) c ≡ both a (both b c)
both_assoc a b c i = record {
  resources = append_assoc a.resources b.resources c.resources i;
  edges = append_assoc a.edges b.edges c.edges i;
}

module _ (scope : Scope) (only : List Text) where
  -- The answer, by the detectors that are selected
  abbrev answer_of : List Detector → ℕ → Detected → Answer Detected
  answer_of chosen n result =
      if some_fail scope chosen
      then inl (other_error [])
      else checked only (n + length chosen) (both result (total scope chosen))

  answer-eq :
      (chosen : List Detector) (n m : ℕ) (a b : Detected)
      → n + length chosen ≡ m
      → a ≡ b
      → (if some_fail scope chosen
          then inl (other_error [])
          else checked only (n + length chosen) a)
        ≡ (if some_fail scope chosen then inl (other_error []) else checked only m b)
  answer-eq chosen n m a b counts results = rw (counts, results) refl

  proceed-answer_of :
      (d : Detector) (chosen : List Detector) (rest : ℕ → Detected → Answer Detected) (o : Outcome)
      (n : ℕ) (result : Detected)
      → d.detect scope ≡ o
      → ((m : ℕ) (more : Detected) → rest m more ≡ answer_of chosen m more)
      → proceed o rest n result ≡ answer_of (d ∷ chosen) n result
  proceed-answer_of d chosen rest (found part) n result e ih = rw e (
      ih (suc n) (both result part)
      ∙ answer-eq chosen (suc n) (n + suc (length chosen)) _ _ (omega arith)
          (both_assoc result part _))
  proceed-answer_of d chosen rest not_applicable n result e ih = rw e (
      ih (suc n) result ∙ answer-eq chosen (suc n) (n + suc (length chosen)) _ _ (omega arith) refl)
  proceed-answer_of d chosen rest failed n result e ih = rw e refl

  run_from-answer_of :
      (ds : List Detector) (n : ℕ) (result : Detected)
      → run_from scope only ds n result ≡ answer_of (filter (selected only) ds) n result
  unfolding run_from
  run_from-answer_of [] n result = ap₂ (checked only) (omega arith) (both_nothing result)
  run_from-answer_of (d ∷ ds) n result = elim (Bool-cases (selected only d)) [
    | inl taken ↦ rw taken (
        proceed-answer_of d (filter (selected only) ds) (run_from scope only ds) (d.detect scope) n
          result refl (run_from-answer_of ds))
    | inr left ↦ rw left (run_from-answer_of ds n result)
  ]

if_true : {A : Type 0} {b : Bool} (x y : A) → b ≡ true → (if b then x else y) ≡ x
if_true x y h = rw h refl

if_false : {A : Type 0} {b : Bool} (x y : A) → b ≡ false → (if b then x else y) ≡ y
if_false x y h = rw h refl

checked_agree :
    (t : Text) (ts : List Text) (n : ℕ) (r : Detected)
    → (n == length (t ∷ ts)) ≡ true
    → checked (t ∷ ts) n r ≡ inr r
checked_agree t ts n r h = rw h refl

checked_differ :
    (t : Text) (ts : List Text) (n : ℕ) (r : Detected)
    → (n == length (t ∷ ts)) ≡ false
    → checked (t ∷ ts) n r ≡ inl (other_error [])
checked_differ t ts n r h = rw h refl

abbrev names_of : List Detector → List Text
names_of ds = map (λ (d : Detector). d.name) ds

filter-names :
    (t : Text) (ts : List Text) (ds : List Detector)
    → length (filter (selected (t ∷ ts)) ds) ≡ length (filter (names_it (t ∷ ts)) (names_of ds))
unfolding selected
filter-names t ts [] = refl
filter-names t ts (d ∷ ds) = elim (Bool-cases (names_it (t ∷ ts) d.name)) [
  | inl taken ↦ rw taken (ap (λ n. suc n) (filter-names t ts ds))
  | inr left ↦ rw left (filter-names t ts ds)
]

-- Where the names of the detectors differ, a run fails if a detector that is selected fails. It fails
-- too if detectors are named and not every name is registered, or one stands twice. Otherwise it
-- answers with all that the selected detectors find, in the order in which they are registered.
pub run_lem :
    (ds : List Detector) (scope : Scope) (only : List Text)
    → Distinct (names_of ds)
    → let chosen = filter (selected only) ds in
      ((some_fail scope chosen ≡ true) × (run ds scope only ≡ inl (other_error [])))
      ⊎ ((only ≢ []) × ¬ Names (names_of ds) only × (run ds scope only ≡ inl (other_error [])))
      ⊎ ((some_fail scope chosen ≡ false)
          × ((only ≡ []) ⊎ Names (names_of ds) only)
          × (run ds scope only ≡ inr (total scope chosen)))
unfolding run
run_lem ds scope [] distinct =
    let chosen = filter (selected []) ds in
    let e = run_from-answer_of scope [] ds 0 nothing_found in
    elim (Bool-cases (some_fail scope chosen)) [
      | inl fails ↦ inl (fails, e ∙ if_true _ _ fails)
      | inr fine ↦ inr (inr (fine, inl refl, e ∙ if_false _ _ fine))
    ]
run_lem ds scope (t ∷ ts) distinct =
    let chosen = filter (selected (t ∷ ts)) ds in
    let e = run_from-answer_of scope (t ∷ ts) ds 0 nothing_found in
    let (most, exact) = matches_iff (t ∷ ts) (names_of ds) distinct in
    let counts = filter-names t ts ds in
    elim (Bool-cases (some_fail scope chosen)) [
      | inl fails ↦ inl (fails, e ∙ if_true _ _ fails)
      | inr fine ↦ elim (Bool-cases (0 + length chosen == length (t ∷ ts))) [
        | inl agree ↦
            let all_named = exact.0 (sym counts ∙ ground arith) in
            inr (inr (fine, inr all_named, e ∙ if_false _ _ fine ∙ checked_agree t ts _ _ agree))
        | inr differ ↦ inr (
            inl (
              (λ k. cc),
              (λ k. let same = counts ∙ exact.1 k in absurd (ground arith)),
              e ∙ if_false _ _ fine ∙ checked_differ t ts _ _ differ,
            ))
      ]
    ]
