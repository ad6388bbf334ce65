-- ===== src/Tests/Scans.antt =====
-- The list of resources on a cold server: no scan yet, a first scan, and the listing after it.
use kdelta.Prelude.{
  ℕ, zero, suc, ◌≤◌, true, false, [], Option, none, ◌≡◌, refl, ◌⊎◌, inl, inr, In, if◌then◌else◌,
}
use kdelta.Text.{Text}
use kdelta.View.Offers.{offers}
use kdelta.Query.{Codes, RpcError, connect_error, Query, pending}
use kdelta.Api.Resource.{Resource}
use kdelta.Api.Service.{ListVersionsResponse, ListResourcesResponse}
use kdelta.ResourcesPage.{
  scan, RefetchType, active, inactive, all, never, update, on_success, resources_page,
}
use kdelta.ResourcesPage.Offers.{resources_page-offers}
use kdelta.ResourcesPage.Scan.{
  Listing, World, opened, Refetches, run_all, Reach, start, next, send, scan_succeeds, answer,
  settled, IsShown, Reach-calls, Reach-IsShown,
}

abbrev protocol_of : Text → Option Text
protocol_of t = none

abbrev encode : Text → Text
encode t = t

abbrev codes : Codes
codes = record {
  failed_precondition = 9;
  invalid_argument = 3;
  not_found = 5;
  unimplemented = 12;
  permission_denied = 7;
  unauthenticated = 16;
}

abbrev versions_of : Resource → Query ListVersionsResponse
versions_of r = record { status = pending; is_fetching = true }

abbrev listed : ListResourcesResponse
listed = record { resources = []; next_page_token = [] }

abbrev server : ℕ → RpcError ⊎ ListResourcesResponse
server zero = inl (connect_error 9 [])
server (suc n) = inr listed

-- A library that fetches again on "all" alone.
abbrev invalidate : RefetchType → ℕ → Listing → Listing
invalidate active n l = l
invalidate inactive n l = l
invalidate all n l = record {
  query = record { status = l.query.status; is_fetching = true };
  asked = n;
}
invalidate never n l = l

invalidate-Refetches : Refetches invalidate
invalidate-Refetches n l = (refl, refl)

abbrev R : World → Type 0
R = Reach protocol_of encode codes invalidate server

-- The first listing fails, a scan is sent, it succeeds, and the listing is answered.
abbrev cold : World
cold = record opened {
  listing = record { query = settled (server 0) opened.listing.query; asked = 0 };
}

abbrev busy : World
busy = run_all invalidate (update scan) cold

abbrev invalidated : World
invalidated = run_all invalidate on_success (record busy { calls = 0; scanned = 1 })

abbrev fresh : World
fresh = record invalidated {
  listing = record { query = settled (server 1) invalidated.listing.query; asked = 1 };
}

offered :
    In scan (
      offers (resources_page protocol_of encode versions_of codes cold.listing.query cold.mutation))
offered =
    rw (resources_page-offers protocol_of encode versions_of codes cold.listing.query cold.mutation)
      (inl refl)

busy-Reach : R busy
busy-Reach = next (next start (answer refl)) (send versions_of scan offered)

fresh-Reach : R fresh
unfolding update on_success
fresh-Reach = next (next busy-Reach (scan_succeeds 0 refl)) (answer refl)

fresh_idle : fresh.listing.query.is_fetching ≡ false
unfolding update on_success
fresh_idle = refl

Reach-calls_example : busy.calls ≤ (if busy.mutation.under_way then 1 else 0)
Reach-calls_example = Reach-calls protocol_of encode codes invalidate server busy-Reach

Reach-IsShown_example :
    IsShown protocol_of encode codes invalidate server fresh.scanned fresh.listing.query
Reach-IsShown_example =
    Reach-IsShown protocol_of encode codes invalidate server invalidate-Refetches fresh-Reach
      fresh_idle
