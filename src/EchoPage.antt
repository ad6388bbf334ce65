-- ===== src/EchoPage.antt =====
-- apps/app-ui/app/echo/page.tsx: a form that sends one message to the server. The mutation of the
-- query library is an input.
pub mod Submit
use kdelta.Prelude.{Bool, List, [], ◌∷◌, Option, none, some, ◌||◌, ◌==◌, length, if◌then◌else◌}
use kdelta.Text.{Text, js}
use kdelta.View.{
  class_name, attr, value, disabled, on_submit, on_change, Node, empty, text, ◌<>◌, element,
  show_some,
}
use kdelta.Query.{RpcError, shown, Mutation}
use kdelta.Api.Service.{EchoRequest, EchoResponse}

-- the `useState` cell
pub record EchoState : Type 0 where
  pub message : Text

unfoldable pub initial : EchoState
unfolding js
initial = record { message = js "hello, cluster" }

pub data Msg : Type 0 where
  -- `event.target.value` of the input
  set_message : Text → Msg
  submit : Msg

-- What a handler does beside setting state.
pub data Command : Type 0 where
  prevent_default : Command
  mutate : EchoRequest → Command

unfoldable pub update : EchoState → Msg → EchoState × List Command
update s (set_message t) = (record s { message = t }, [])
update s submit = (s, prevent_default ∷ mutate (record { message = s.message }) ∷ [])

unfoldable pub answer_box : EchoResponse → Node Msg
answer_box r =
    element "p"
      (class_name
          "mt-4 rounded-lg border border-primary/30 bg-primary/10 px-3 py-2 font-mono text-sm text-primary"
        ∷ [])
      (text r.message)

unfoldable pub error_box : RpcError → Node Msg
error_box e =
    element "p"
      (class_name
          "mt-4 rounded-lg border border-destructive/40 bg-destructive/10 px-3 py-2 font-mono text-sm text-destructive"
        ∷ [])
      (text (shown e))

unfoldable pub echo_form : Mutation EchoResponse → EchoState → Node Msg
unfolding js
echo_form echo s = element "form" (on_submit submit ∷ class_name "flex gap-2" ∷ []) (
    element "input"
      (value s.message
        ∷ on_change set_message
        ∷ attr "placeholder" "say something"
        ∷ class_name
            "min-w-0 flex-1 rounded-lg border border-input bg-background px-3 py-2 text-sm outline-none focus:border-ring"
        ∷ [])
      empty
    <> element "Button"
        (attr "type" "submit" ∷ disabled (echo.under_way || length s.message == 0) ∷ [])
        (text (if echo.under_way then js "Sending…" else js "Echo")))

unfoldable pub echo_page : Mutation EchoResponse → EchoState → Node Msg
unfolding js echo_form answer_box error_box
echo_page echo s = element "div" (class_name "mx-auto max-w-xl space-y-6" ∷ []) (
    element "header" [] (
      element "h1" (class_name "text-2xl font-semibold tracking-tight" ∷ []) (text (js "Echo"))
      <> element "p" (class_name "mt-1 text-sm text-muted-foreground" ∷ []) (
          text (
            js
              "Round-trips a message through the ConnectRPC placeholder service — the API pipeline liveness check.")))
    <> element "section" (class_name "rounded-xl border border-border bg-card/60 p-6" ∷ []) (
        echo_form echo s
        <> show_some echo.answer answer_box empty
        <> show_some echo.failure error_box empty))
