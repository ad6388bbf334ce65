-- ===== src/EchoPage/Submit.antt =====
-- What the form of the echo page sends.
use kdelta.Prelude.{
  Bool, true, false, not, List, [], ◌∷◌, ◌++◌, Option, none, ◌≡◌, refl, ap, ap₂, ◌∙◌, ◌||◌,
  if◌then◌else◌, arith,
}
use kdelta.Text.{Text, truthy}
use kdelta.View.{Attr, on_submit, Node, empty, text, number, ◌<>◌, element}
use kdelta.View.Offers.{is_disabled}
use kdelta.Query.{Mutation, RpcError}
use kdelta.Api.Service.{EchoRequest, EchoResponse}
use kdelta.EchoPage.{
  EchoState, Msg, set_message, submit, Command, prevent_default, mutate, update, echo_page,
}

-- By the HTML standard a form is submitted by its submit button or by a key in one of its inputs, and
-- neither submits it while that button is disabled; in this form nothing else can be disabled.
module _ {Msg : Type 0} where
  abbrev pub blocked : Node Msg → Bool
  blocked empty = false
  blocked (text t) = false
  blocked (number n) = false
  blocked (a <> b) = blocked a || blocked b
  blocked (element tag attrs children) = is_disabled attrs || blocked children

  abbrev pub own_submits : List (Attr Msg) → List Msg
  own_submits [] = []
  own_submits (on_submit m ∷ attrs) = m ∷ own_submits attrs
  own_submits (a ∷ attrs) = own_submits attrs

  abbrev pub submits : Node Msg → List Msg
  submits empty = []
  submits (text t) = []
  submits (number n) = []
  submits (a <> b) = submits a ++ submits b
  submits (element tag attrs children) =
      (if blocked children then [] else own_submits attrs) ++ submits children

-- What happens on the page: the input gets a text, or the user tries to submit the form, with the
-- mutation as it is at that time.
pub data Event : Type 0 where
  typed : Text → Event
  tried : Mutation EchoResponse → Event

abbrev requests_of : List Command → List EchoRequest
requests_of [] = []
requests_of (prevent_default ∷ cs) = requests_of cs
requests_of (mutate r ∷ cs) = r ∷ requests_of cs

-- The requests of the messages that the form sends in one state; submitting leaves the state alone.
abbrev sent_by : EchoState → List Msg → List EchoRequest
sent_by s [] = []
sent_by s (m ∷ ms) = requests_of (update s m).1 ++ sent_by s ms

-- The requests of a session, by the page's tree and its handlers.
unfoldable pub requests : EchoState → List Event → List EchoRequest
unfolding update
requests s [] = []
requests s (typed t ∷ es) = requests (update s (set_message t)).0 es
requests s (tried echo ∷ es) = sent_by s (submits (echo_page echo s)) ++ requests s es

-- The same, described: at each try while no call is under way, the text that was typed last, unless
-- it is empty.
unfoldable pub described : Text → List Event → List EchoRequest
described m [] = []
described m (typed t ∷ es) = described t es
described m (tried echo ∷ es) =
    (if echo.under_way || not (truthy m) then [] else record { message = m } ∷ []) ++ described m es

submits_on :
    (busy : Bool) (e : Option RpcError) (a : Option EchoResponse) (m : Text)
    → submits
        (echo_page (record { under_way = busy; failure = e; answer = a }) (record { message = m }))
      ≡ (if busy || not (truthy m) then [] else submit ∷ [])
unfolding echo_page
submits_on true none none [] = refl
submits_on _ _ _ _ = ground arith

echo_page-submits :
    (echo : Mutation EchoResponse) (s : EchoState)
    → submits (echo_page echo s)
      ≡ (if echo.under_way || not (truthy s.message) then [] else submit ∷ [])
echo_page-submits echo s = submits_on echo.under_way echo.failure echo.answer s.message

sent_lem :
    (s : EchoState) (b : Bool)
    → sent_by s (if b then [] else submit ∷ [])
      ≡ (if b then [] else record { message = s.message } ∷ [])
unfolding update
sent_lem s true = refl
sent_lem s false = refl

-- In every session the server is sent exactly the following: at each try to submit while no call is
-- under way, the text that was typed last, or the one that the page began with, unless it is empty.
pub requests-described : (s : EchoState) (es : List Event) → requests s es ≡ described s.message es
unfolding requests described
requests-described s [] = refl
requests-described s (typed t ∷ es) = requests-described (record { message = t }) es
requests-described s (tried echo ∷ es) =
    ap₂ ◌++◌
      (ap (sent_by s) (echo_page-submits echo s)
        ∙ sent_lem s (echo.under_way || not (truthy s.message)))
      (requests-described s es)
