-- ===== src/ResourcePage/Requests.antt =====
-- When the resource page starts the two flows that cost an agent's work.
use mathlib.Core.Bool.{and-eq-true_iff}
use kdelta.Prelude.{Bool, true, false, Option, ◌≡◌, ◌⊎◌, inl, inr, ◌↔◌, arith}
use kdelta.Text.{Text}
use kdelta.Streamed.{Method}
use kdelta.Api.Service.{RangeInput}
use kdelta.ResourcePage.{
  PageState, initial, Inputs, Msg, pick_stream, pick_from, pick_to, open_tab, extract, assess,
  update, range_ready, changes_query, impact_query,
}
use kdelta.ResourcePage.Reach.{World, Step, send, Reach, start, next}

-- Whether a message asks for the changelog, or for the assessment.
abbrev Asks : Bool → Msg → Type 0
Asks true extract = Unit
Asks false assess = Unit
Asks _ _ = ⊥

module _ {protocol_of : Text → Option Text} {w : World} where
  abbrev sent : {s t : PageState} → Step protocol_of w s t → Msg
  sent (send i m serves offered e) = m

  -- Along the way to a state the user pressed the button of the changelog (true) or of the
  -- assessment (false).
  abbrev pub Pressed : (changes : Bool) {s : PageState} → Reach protocol_of w s → Type 0
  Pressed changes start = ⊥
  Pressed changes (next r st) = Asks changes (sent st) ⊎ Pressed changes r

abbrev requested : Bool → PageState → Bool
requested true s = s.changes_requested
requested false s = s.impact_requested

kept : {P : Type 0} → P ↔ (⊥ ⊎ P)
kept = (inr, λ h. elim h [ inl k ↦ absurd k | inr e ↦ e ])

-- One message: what is requested stays so, and becomes so by its button.
update-requested :
    (changes : Bool) (s : PageState) (m : Msg)
    → (requested changes (update s m).0 ≡ true) ↔ (Asks changes m ⊎ (requested changes s ≡ true))
unfolding update
update-requested true s (pick_stream v) = kept
update-requested true s (pick_from v) = kept
update-requested true s (pick_to v) = kept
update-requested true s (open_tab v) = kept
update-requested true s extract = ((λ e. inl tt), λ h. ground arith)
update-requested true s assess =
    ((λ e. inr (ground arith)), λ h. elim h [ inl k ↦ absurd k | inr e ↦ ground arith ])
update-requested false s (pick_stream v) = kept
update-requested false s (pick_from v) = kept
update-requested false s (pick_to v) = kept
update-requested false s (open_tab v) = kept
update-requested false s assess = ((λ e. inl tt), λ h. ground arith)
update-requested false s extract =
    ((λ e. inr (ground arith)), λ h. elim h [ inl k ↦ absurd k | inr e ↦ ground arith ])

module _ {protocol_of : Text → Option Text} {w : World} where
  requested-Pressed :
      (changes : Bool) {s : PageState} (r : Reach protocol_of w s)
      → requested changes s ≡ true
      → Pressed changes r
  unfolding initial
  requested-Pressed true start e = absurd (ground arith)
  requested-Pressed false start e = absurd (ground arith)
  requested-Pressed changes (next {s} r (send i m serves offered q)) e =
      elim ((update-requested changes s m).0 (rw q at e)) [
        | inl asks ↦ inl asks
        | inr before ↦ inr (requested-Pressed changes r before)
      ]

  Pressed-requested :
      (changes : Bool) {s : PageState} (r : Reach protocol_of w s)
      → Pressed changes r
      → requested changes s ≡ true
  Pressed-requested changes start h = absurd h
  Pressed-requested changes (next {s} r (send i m serves offered q)) (inl asks) =
      rw q ((update-requested changes s m).1 (inl asks))
  Pressed-requested changes (next {s} r (send i m serves offered q)) (inr before) =
      rw q ((update-requested changes s m).1 (inr (Pressed-requested changes r before)))

  -- On every way to a state of the page, the changelog is streamed exactly if the user pressed its
  -- button on the way and both ends of the range are chosen, and so is the assessment: nothing else
  -- starts either, and no other message stops it.
  pub Reach-enabled_iff :
      {Key : Type 0} (create_query_key : Method → RangeInput → Key) {s : PageState} (i : Inputs)
      (r : Reach protocol_of w s)
      → (((changes_query i create_query_key s).enabled ≡ true)
          ↔ (Pressed true r × (range_ready i s ≡ true)))
        × (((impact_query i create_query_key s).enabled ≡ true)
            ↔ (Pressed false r × (range_ready i s ≡ true)))
  unfolding changes_query impact_query
  Reach-enabled_iff create_query_key {s} i r = (
    (
      (λ e.
          let (pressed, ready) = (and-eq-true_iff _ _).0 e in
          (requested-Pressed true r pressed, ready)),
      λ h. (and-eq-true_iff _ _).1 (Pressed-requested true r h.0, h.1),
    ),
    (
      (λ e.
          let (pressed, ready) = (and-eq-true_iff _ _).0 e in
          (requested-Pressed false r pressed, ready)),
      λ h. (and-eq-true_iff _ _).1 (Pressed-requested false r h.0, h.1),
    ),
  )
