-- ===== src/ResourcePage/Reach.antt =====
-- The resource page over time: renders with whatever the queries return for one resource, and the
-- user's steps between them.
use kdelta.Prelude.{
  or_some, Bool, true, false, List, [], ◌∷◌, map, Option, none, some, ◌≡◌, refl, ◌⊎◌, inl, inr,
  if◌then◌else◌, All-In, In, get_or, IfSome, ◌>>=◌, ◌∙◌, Option-cases,
}
use mathlib.Core.Bool.{and-eq-true_iff}
use kdelta.Streamed.{Method}
use kdelta.Text.{Text, js, truthy}
use kdelta.View.Offers.{offers}
use kdelta.Query.{payload}
use kdelta.Ref.{parse_ref}
use kdelta.Api.Resource.{VersionStream}
use kdelta.Api.Version.{Version}
use kdelta.Api.Service.{ListVersionsResponse, RangeInput}
use kdelta.ResourcePage.{
  PageState, initial, Inputs, Msg, pick_stream, pick_from, pick_to, open_tab, extract, assess,
  streams, chosen_stream, stream_id, from_version, to_version, range_ready, version_values,
  range_input, detail_query, versions_query, changes_query, impact_query, update, Command,
}
use kdelta.ResourcePage.Page.{resource_detail, guarded}
use kdelta.ResourcePage.Offers.{Allowed, resource_detail-Allowed}

-- What the server sends while the page is open: the details of the resource, each with its streams,
-- and the listings of a stream. Both are fetched again at any time, and may have changed.
pub record World : Type 0 where
  pub canonical : Text
  pub details : List (List VersionStream)
  pub listings : Text → List ListVersionsResponse

-- The queries of a render in that world: the detail is one that the server sent or not there yet, and
-- so is the version list of the stream that the page shows.
pub record Serves (w : World) (i : Inputs) (s : PageState) : Type 0 where
  pub same_ref : i.canonical ≡ w.canonical
  pub detailed : In (streams i) ([] ∷ w.details)
  pub listed :
      (payload i.versions ≡ none)
      ⊎ ((l : ListVersionsResponse) × In l (w.listings (stream_id i s))
          × (payload i.versions ≡ some l))

-- One step: the user sends a message that the rendered page offers.
pub data Step (protocol_of : Text → Option Text) (w : World) (s t : PageState) : Type 0 where
  send :
      (i : Inputs) (m : Msg)
      → Serves w i s
      → In m (offers (resource_detail protocol_of i s))
      → t ≡ (update s m).0
      → Step protocol_of w s t

pub data Reach (protocol_of : Text → Option Text) (w : World) : PageState → Type 0 where
  start : Reach protocol_of w initial
  next : {s t : PageState} → Reach protocol_of w s → Step protocol_of w s t → Reach protocol_of w t

-- One of the server's listings for a stream has the version.
abbrev pub IsListed : World → Text → Text → Type 0
IsListed w id v =
    (l : ListVersionsResponse) × In l (w.listings id)
    × In v (map (λ (x : Version). x.value) l.versions)

-- A stream that the page shows in a state, with one of the details that the server sent.
abbrev pub IsShown : World → PageState → Text → Type 0
IsShown w s id = (ss : List VersionStream) × In ss ([] ∷ w.details) × (id ≡ chosen_stream ss s)

-- What is selected was listed for a stream that the page showed in this state, and one of the two
-- tabs is active.
pub record IsCoherent (w : World) (s : PageState) : Type 0 where
  pub from_listed : IfSome (λ v. (id : Text) × IsShown w s id × IsListed w id v) s.selected_from
  pub to_listed : IfSome (λ v. (id : Text) × IsShown w s id × IsListed w id v) s.selected_to
  pub tab_known : (s.active_tab ≡ js "changelog") ⊎ (s.active_tab ≡ js "impact")

initial-IsCoherent : (w : World) → IsCoherent w initial
unfolding initial
initial-IsCoherent w = record { from_listed = tt; to_listed = tt; tab_known = inl refl }

-- A version that a render lists is one of the shown stream.
version_values-IsListed :
    {w : World} {i : Inputs} {s : PageState}
    → Serves w i s
    → (v : Text) → In v (version_values i)
    → (id : Text) × IsShown w s id × IsListed w id v
unfolding version_values stream_id
version_values-IsListed {w} {i} {s} serves v h = elim serves.listed [
  | inl missing ↦ absurd (rw missing at h)
  | inr (l, sent, there) ↦
      (chosen_stream (streams i) s, (streams i, serves.detailed, refl), (l, sent, rw there at h))
]

if_state :
    (P : PageState → Type 0) (b : Bool) (x y : PageState × List Command)
    → P x.0
    → P y.0
    → P (if b then x else y).0
if_state P true x y h k = h
if_state P false x y h k = k

update-IsCoherent :
    {w : World} {i : Inputs} {s : PageState} (m : Msg)
    → Serves w i s
    → Allowed i s m
    → IsCoherent w s
    → IsCoherent w (update s m).0
unfolding update chosen_stream
update-IsCoherent (pick_stream value) serves a c = record {
  from_listed = tt;
  to_listed = tt;
  tab_known = c.tab_known;
}
update-IsCoherent {w} {i} {s} (pick_from value) serves a c = record {
  from_listed = version_values-IsListed serves value a;
  to_listed = c.to_listed;
  tab_known = c.tab_known;
}
update-IsCoherent {w} {i} {s} (pick_to value) serves a c = record {
  from_listed = c.from_listed;
  to_listed = version_values-IsListed serves value a;
  tab_known = c.tab_known;
}
update-IsCoherent (open_tab value) serves a c = record {
  from_listed = c.from_listed;
  to_listed = c.to_listed;
  tab_known = a;
}
update-IsCoherent {w} {s} extract serves a c =
    if_state (IsCoherent w) s.changes_requested _ _
      (record { from_listed = c.from_listed; to_listed = c.to_listed; tab_known = inl refl })
      (record { from_listed = c.from_listed; to_listed = c.to_listed; tab_known = inl refl })
update-IsCoherent {w} {s} assess serves a c =
    if_state (IsCoherent w) s.impact_requested _ _
      (record { from_listed = c.from_listed; to_listed = c.to_listed; tab_known = inr refl })
      (record { from_listed = c.from_listed; to_listed = c.to_listed; tab_known = inr refl })

Step-IsCoherent :
    {protocol_of : Text → Option Text} {w : World} {s t : PageState}
    → Step protocol_of w s t
    → IsCoherent w s
    → IsCoherent w t
Step-IsCoherent {protocol_of} {w} {s} (send i m serves offered e) c = rw e (
    update-IsCoherent m serves
      (All-In (Allowed i s) (offers (resource_detail protocol_of i s)) m
        (resource_detail-Allowed protocol_of i s) offered)
      c)

Reach-IsCoherent :
    {protocol_of : Text → Option Text} {w : World} {s : PageState}
    → Reach protocol_of w s
    → IsCoherent w s
Reach-IsCoherent {w} start = initial-IsCoherent w
Reach-IsCoherent (next r st) = Step-IsCoherent st (Reach-IsCoherent r)

-- A stream that was shown in the state is the one of this render, or else the user picked none, and it
-- was the default of another detail.
abbrev pub IsOwn : World → Inputs → PageState → Text → Type 0
IsOwn w i s id = (id ≡ (range_input i s).stream_id) ⊎ ((s.selected_stream ≡ none) × IsShown w s id)

-- Where an end of the range comes from: it is the listing's own on this render, or a listed version.
abbrev pub Known : World → Inputs → PageState → (ListVersionsResponse → Text) → Text → Type 0
Known w i s own v =
    ((l : ListVersionsResponse) × In l (w.listings (range_input i s).stream_id)
      × (payload i.versions ≡ some l)
      × (v ≡ own l))
    ⊎ ((id : Text) × IsOwn w i s id × IsListed w id v)

IsShown-IsOwn :
    (w : World) (i : Inputs) (s : PageState) (id : Text) → IsShown w s id → IsOwn w i s id
unfolding range_input stream_id chosen_stream
IsShown-IsOwn w i s id (ss, sent, e) = elim (Option-cases s.selected_stream) [
  | inl none_picked ↦ inr (none_picked, (ss, sent, e))
  | inr (k, picked) ↦ inl (e ∙ rw picked refl)
]

module _ {w : World} {i : Inputs} {s : PageState} (c : IsCoherent w s) (serves : Serves w i s) where
  -- With nothing selected the end of the range is the listing's own, once that is there.
  end_of_range :
      (selected : Option Text) (own : ListVersionsResponse → Text)
      → IfSome (λ v. (id : Text) × IsShown w s id × IsListed w id v) selected
      → truthy (get_or (or_some selected (payload i.versions >>= (λ v. some (own v)))) []) ≡ true
      → Known w i s own (get_or (or_some selected (payload i.versions >>= (λ v. some (own v)))) [])
  unfolding range_input
  end_of_range (some v) own (id, shown, listed) t = inr (id, IsShown-IsOwn w i s id shown, listed)
  end_of_range none own h t = elim serves.listed [
    | inl missing ↦ absurd (let q : truthy [] ≡ true = rw missing at t in cc)
    | inr (l, sent, there) ↦ inl (l, sent, there, rw there refl)
  ]

  range-Known :
      range_ready i s ≡ true
      → Known w i s (λ v. v.current) (from_version i s)
        × Known w i s (λ v. v.latest) (to_version i s)
  unfolding range_ready from_version to_version
  range-Known ready =
      let (f, t) = (and-eq-true_iff _ _).0 ready in
      (
        end_of_range s.selected_from (λ v. v.current) c.from_listed f,
        end_of_range s.selected_to (λ v. v.latest) c.to_listed t,
      )

-- In every state that the page can reach, however often the resource and the listings are fetched
-- again and whatever has changed then: when a changelog or an assessment may be asked for, each end
-- of the range is taken from the listing on the page, its current version at the lower end and its
-- latest at the upper, or else it is a version that the server listed, while the page was open, for a
-- stream. That stream is the one which the request names; only where the user picked no stream may it
-- instead be the default stream of another detail that the server sent.
pub Reach-range-Known :
    {protocol_of : Text → Option Text} {w : World} {s : PageState} (i : Inputs)
    → Reach protocol_of w s
    → Serves w i s
    → range_ready i s ≡ true
    → Known w i s (λ v. v.current) (range_input i s).from_version
      × Known w i s (λ v. v.latest) (range_input i s).to_version
unfolding range_input
Reach-range-Known i r serves ready = range-Known (Reach-IsCoherent r) serves ready

-- Without a valid reference the page offers nothing, so that its state stays as it began.
invalid-offers :
    (protocol_of : Text → Option Text) (i : Inputs) (s : PageState)
    → parse_ref i.canonical ≡ none
    → offers (resource_detail protocol_of i s) ≡ []
unfolding resource_detail
invalid-offers protocol_of i s e = rw e (unfold guarded in refl)

Reach-invalid :
    {protocol_of : Text → Option Text} {w : World} {s : PageState}
    → parse_ref w.canonical ≡ none
    → Reach protocol_of w s
    → s ≡ initial
Reach-invalid e start = refl
Reach-invalid {protocol_of} e (next {s} r (send i m serves offered q)) =
    absurd (rw (invalid-offers protocol_of i s (rw serves.same_ref e)) at offered)

-- A page opened with a missing or invalid reference asks the server for nothing, whatever happens:
-- all its four queries stay disabled.
pub Reach-invalid-disabled :
    {Key : Type 0} (create_query_key : Method → RangeInput → Key) {protocol_of : Text → Option Text}
    {w : World} {s : PageState} (i : Inputs)
    → parse_ref w.canonical ≡ none
    → Reach protocol_of w s
    → Serves w i s
    → ((detail_query i).1 ≡ false)
      × ((versions_query i s).1 ≡ false)
      × ((changes_query i create_query_key s).enabled ≡ false)
      × ((impact_query i create_query_key s).enabled ≡ false)
unfolding detail_query versions_query changes_query impact_query initial
Reach-invalid-disabled create_query_key {s} i e r serves =
    let invalid : parse_ref i.canonical ≡ none = rw serves.same_ref e in
    let begun : s ≡ initial = Reach-invalid e r in
    (rw invalid refl, rw invalid refl, rw begun refl, rw begun refl)
