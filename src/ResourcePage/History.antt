-- ===== src/ResourcePage/History.antt =====
-- The resource page's state, described by the messages that the user sent, the latest first.
use kdelta.Prelude.{
  Bool, true, false, List, [], ◌∷◌, Option, none, some, ◌≡◌, refl, ap, ◌∙◌, if◌then◌else◌, arith,
}
use kdelta.Text.{Text, js}
use kdelta.ResourcePage.{
  PageState, initial, Msg, pick_stream, pick_from, pick_to, open_tab, extract, assess, Command,
  refetch_changes, refetch_impact, update,
}

unfoldable pub run : List Msg → PageState
unfolding update initial
run [] = initial
run (m ∷ ms) = (update (run ms) m).0

-- The stream picked last.
abbrev pub stream_of : List Msg → Option Text
stream_of [] = none
stream_of (pick_stream v ∷ ms) = some v
stream_of (_ ∷ ms) = stream_of ms

-- The ends of the range picked last since then.
abbrev pub from_of : List Msg → Option Text
from_of [] = none
from_of (pick_stream v ∷ ms) = none
from_of (pick_from v ∷ ms) = some v
from_of (_ ∷ ms) = from_of ms

abbrev pub to_of : List Msg → Option Text
to_of [] = none
to_of (pick_stream v ∷ ms) = none
to_of (pick_to v ∷ ms) = some v
to_of (_ ∷ ms) = to_of ms

-- Whether a button was ever pressed.
abbrev pub extracted : List Msg → Bool
extracted [] = false
extracted (extract ∷ ms) = true
extracted (_ ∷ ms) = extracted ms

abbrev pub assessed : List Msg → Bool
assessed [] = false
assessed (assess ∷ ms) = true
assessed (_ ∷ ms) = assessed ms

-- The tab that was opened last, by a click or by a button.
abbrev pub tab_of : List Msg → Text
tab_of [] = js "changelog"
tab_of (open_tab v ∷ ms) = v
tab_of (extract ∷ ms) = js "changelog"
tab_of (assess ∷ ms) = js "impact"
tab_of (_ ∷ ms) = tab_of ms

abbrev pub history_of : List Msg → PageState
history_of ms = record {
  selected_stream = stream_of ms;
  selected_from = from_of ms;
  selected_to = to_of ms;
  changes_requested = extracted ms;
  impact_requested = assessed ms;
  active_tab = tab_of ms;
}

-- A button that was pressed before streams again.
abbrev pub called : Msg → List Msg → List Command
called extract ms = if extracted ms then refetch_changes ∷ [] else []
called assess ms = if assessed ms then refetch_impact ∷ [] else []
called _ ms = []

update-history_of :
    (m : Msg) (ms : List Msg) → update (history_of ms) m ≡ (history_of (m ∷ ms), called m ms)
unfolding update
update-history_of (pick_stream v) ms = refl
update-history_of (pick_from v) ms = refl
update-history_of (pick_to v) ms = refl
update-history_of (open_tab v) ms = refl
update-history_of extract ms = ground arith
update-history_of assess ms = ground arith

run-history_of : (ms : List Msg) → run ms ≡ history_of ms
unfolding run initial
run-history_of [] = refl
run-history_of (m ∷ ms) =
    ap (λ s. (update s m).0) (run-history_of ms) ∙ ap (λ p. p.0) (update-history_of m ms)

-- After any messages the page's state is: the stream that was picked last, at each end of the range
-- the version that was picked last since then, the tab that was opened last, by a click or with a
-- button, and for each button whether it was ever pressed; and the next message starts a stream
-- again exactly if it presses a button that was pressed before.
pub update-run : (m : Msg) (ms : List Msg) → update (run ms) m ≡ (history_of (m ∷ ms), called m ms)
update-run m ms = rw (run-history_of ms) (update-history_of m ms)
