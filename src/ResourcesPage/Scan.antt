-- ===== src/ResourcesPage/Scan.antt =====
-- The list of resources over time: the user's scans, their answers, and the listing that is fetched
-- again.
use kdelta.Prelude.{
  ℕ, suc, ◌≤◌, Bool, true, false, List, [], ◌∷◌, Option, none, some, ◌≡◌, refl, ◌⊎◌, inl, inr, In,
  if◌then◌else◌, arith,
}
use kdelta.Text.{Text}
use kdelta.View.Offers.{offers}
use kdelta.Query.{Codes, RpcError, Query, pending, failed, success, Mutation, payload, error}
use kdelta.Api.Resource.{Resource}
use kdelta.Api.Service.{ListVersionsResponse, ListResourcesResponse, ScanResponse}
use kdelta.ResourcesPage.{
  Msg, scan, RefetchType, all, Command, mutate, invalidate_queries, update, on_success,
  resources_page,
}
use kdelta.ResourcesPage.Offers.{resources_page-offers}

-- The listing's query, and how many scans had succeeded when its latest request was sent.
pub record Listing : Type 0 where
  pub query : Query ListResourcesResponse
  pub asked : ℕ

pub record World : Type 0 where
  pub listing : Listing
  pub mutation : Mutation ScanResponse
  -- scans that were sent and are not answered
  pub calls : ℕ
  -- answers that said the scan succeeded
  pub scanned : ℕ

-- The page when it opens: the listing is asked for.
abbrev pub opened : World
opened = record {
  listing = record { query = record { status = pending; is_fetching = true }; asked = 0 };
  mutation = record { under_way = false; failure = none; answer = none };
  calls = 0;
  scanned = 0;
}

-- What the query library makes of a listing when it is told to invalidate all queries, after a
-- number of scans. By its documentation the type "all" cancels a fetch that is under way and sends
-- a new request.
abbrev pub Refetches : (RefetchType → ℕ → Listing → Listing) → Type 0
Refetches invalidate =
    (n : ℕ) (l : Listing)
    → ((invalidate all n l).asked ≡ n) × ((invalidate all n l).query.is_fetching ≡ true)

module _ (invalidate : RefetchType → ℕ → Listing → Listing) where
  abbrev pub run : Command → World → World
  run (mutate r) w = record w {
    mutation = record { under_way = true; failure = none; answer = none };
    calls = suc w.calls;
  }
  run (invalidate_queries t) w = record w { listing = invalidate t w.scanned w.listing }

  abbrev pub run_all : List Command → World → World
  run_all [] w = w
  run_all (c ∷ cs) w = run_all cs (run c w)

-- How a request for the listing ends: with what the server has to say after that many scans, or
-- with an error on the way, which keeps the data that was there.
abbrev pub settled :
    RpcError ⊎ ListResourcesResponse → Query ListResourcesResponse → Query ListResourcesResponse
settled (inl e) q = record { status = failed e (payload q); is_fetching = false }
settled (inr d) q = record { status = success d; is_fetching = false }

module _ (protocol_of : Text → Option Text) (encode : Text → Text) (code : Codes)
    (invalidate : RefetchType → ℕ → Listing → Listing)
    (server : ℕ → RpcError ⊎ ListResourcesResponse) where
  pub data Step (w : World) : World → Type 0 where
    -- The user sends what the page offers.
    send :
        (versions_of : Resource → Query ListVersionsResponse) (m : Msg)
        → In m
            (offers (resources_page protocol_of encode versions_of code w.listing.query w.mutation))
        → Step w (run_all invalidate (update m) w)
    -- A scan succeeds: `onSuccess` runs, and the mutation is under way till its promise resolves.
    scan_succeeds :
        (n : ℕ)
        → w.calls ≡ suc n
        → Step w (run_all invalidate on_success (record w { calls = n; scanned = suc w.scanned }))
    scan_resolves :
        (a : ScanResponse)
        → w.mutation.under_way ≡ true
        → w.calls ≡ 0
        → Step w
            (record w { mutation = record { under_way = false; failure = none; answer = some a } })
    scan_fails :
        (n : ℕ) (e : RpcError)
        → w.calls ≡ suc n
        → Step w (record w {
          mutation = record { under_way = false; failure = some e; answer = none };
          calls = n;
        })
    -- The library asks for the listing by itself, as when the window gets the focus.
    ask :
        (q : Query ListResourcesResponse)
        → q.is_fetching ≡ true
        → w.listing.query.is_fetching ≡ false
        → Step w (record w { listing = record { query = q; asked = w.scanned } })
    answer :
        w.listing.query.is_fetching ≡ true
        → Step w (record w {
          listing = record w.listing { query = settled (server w.listing.asked) w.listing.query };
        })
    lose :
        (e : RpcError)
        → w.listing.query.is_fetching ≡ true
        → Step w
            (record w { listing = record w.listing { query = settled (inl e) w.listing.query } })

  pub data Reach : World → Type 0 where
    start : Reach opened
    next : {v w : World} → Reach v → Step v w → Reach w

  -- What is shown once nothing is fetched: an error, or what the server has to say after the scans
  -- that have succeeded.
  abbrev pub IsShown : ℕ → Query ListResourcesResponse → Type 0
  IsShown n q =
      ((e : RpcError) × (error q ≡ some e))
      ⊎ ((d : ListResourcesResponse) × (payload q ≡ some d) × (server n ≡ inr d))

  -- The scans that may be out: one while the mutation is under way, else none.
  abbrev pub allowed : World → ℕ
  allowed w = if w.mutation.under_way then 1 else 0

  not_under_way : (b : Bool) (m : Msg) → In m (if b then [] else scan ∷ []) → b ≡ false
  not_under_way true m h = absurd h
  not_under_way false m h = refl

  allowed_le : (b : Bool) → (if b then 1 else 0) ≤ 1
  allowed_le true = omega arith
  allowed_le false = omega arith

  send-calls :
      (m : Msg) (w : World)
      → w.calls ≤ allowed w
      → w.mutation.under_way ≡ false
      → (run_all invalidate (update m) w).calls ≤ allowed (run_all invalidate (update m) w)
  unfolding update
  send-calls scan w h idle = let none_out : w.calls ≤ 0 = rw idle at h in omega arith

  Step-calls : {v w : World} → v.calls ≤ allowed v → Step v w → w.calls ≤ allowed w
  unfolding on_success
  Step-calls {v} h (send versions_of m offered) = send-calls m v h (
      not_under_way v.mutation.under_way m (
        rw (resources_page-offers protocol_of encode versions_of code v.listing.query v.mutation) at
          offered))
  Step-calls {v} h (scan_succeeds n out) = let one = allowed_le v.mutation.under_way in omega arith
  Step-calls h (scan_resolves a busy out) = omega arith
  Step-calls {v} h (scan_fails n e out) = let one = allowed_le v.mutation.under_way in omega arith
  Step-calls h (ask q fetching idle) = h
  Step-calls h (answer fetching) = h
  Step-calls h (lose e fetching) = h

  -- However scans, their answers and the fetches of the listing interleave, scans never overlap: one
  -- is out at most, and none while the button can be pressed.
  pub Reach-calls : {w : World} → Reach w → w.calls ≤ (if w.mutation.under_way then 1 else 0)
  Reach-calls start = omega arith
  Reach-calls (next r st) = Step-calls (Reach-calls r) st

  -- The listing's latest request is as new as the last scan, and shown once it is answered.
  record IsFresh (w : World) : Type 0 where
    asked_last : w.listing.asked ≡ w.scanned
    quiet : w.listing.query.is_fetching ≡ false → IsShown w.scanned w.listing.query

  settled-IsShown :
      (n : ℕ) (q : Query ListResourcesResponse) (r : RpcError ⊎ ListResourcesResponse)
      → server n ≡ r
      → IsShown n (settled r q)
  settled-IsShown n q (inl e) h = inl (e, refl)
  settled-IsShown n q (inr d) h = inr (d, refl, h)

  send-IsFresh : (m : Msg) (w : World) → IsFresh w → IsFresh (run_all invalidate (update m) w)
  unfolding update
  send-IsFresh scan w f = record { asked_last = f.asked_last; quiet = f.quiet }

  module _ (refetches : Refetches invalidate) where
    Step-IsFresh : {v w : World} → IsFresh v → Step v w → IsFresh w
    unfolding on_success
    Step-IsFresh {v} f (send versions_of m offered) = send-IsFresh m v f
    Step-IsFresh {v} f (scan_succeeds n out) =
        let (asked, fetching) = refetches (suc v.scanned) v.listing in
        record { asked_last = asked; quiet = λ h. ground arith }
    Step-IsFresh f (scan_resolves a busy out) = record {
      asked_last = f.asked_last;
      quiet = f.quiet;
    }
    Step-IsFresh f (scan_fails n e out) = record { asked_last = f.asked_last; quiet = f.quiet }
    Step-IsFresh f (ask q fetching idle) = record { asked_last = refl; quiet = λ h. ground arith }
    Step-IsFresh {v} f (answer fetching) = record {
      asked_last = f.asked_last;
      quiet = λ h.
          settled-IsShown v.scanned v.listing.query (server v.listing.asked) (rw f.asked_last refl);
    }
    Step-IsFresh f (lose e fetching) = record {
      asked_last = f.asked_last;
      quiet = λ h. inl (e, refl);
    }

    Reach-IsFresh : {w : World} → Reach w → IsFresh w
    Reach-IsFresh start = record { asked_last = refl; quiet = λ h. ground arith }
    Reach-IsFresh (next r st) = Step-IsFresh (Reach-IsFresh r) st

    -- However scans, their answers and the fetches of the listing interleave: once nothing is
    -- fetched the page has an error to show, beside which an older listing may stay, or the listing
    -- that the server has after the last scan that succeeded.
    pub Reach-IsShown :
        {w : World}
        → Reach w
        → w.listing.query.is_fetching ≡ false
        → IsShown w.scanned w.listing.query
    Reach-IsShown r idle = (Reach-IsFresh r).quiet idle
