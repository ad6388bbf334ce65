-- ===== src/ResourcesPage/Rows.antt =====
-- A row of the list: where its link leads, its key, its badges.
use kdelta.Prelude.{
  true, List, [], ◌∷◌, ◌++◌, map, Option, some, ◌≡◌, ◌≢◌, refl, sym, ap, ◌∙◌, All, Distinct,
}
use mathlib.Core.Option.{some-injective}
use kdelta.Text.{Text, js}
use kdelta.Ref.{ResourceRef, ref_to_string, parse_ref}
use kdelta.Ref.RoundTrip.{IsCanonical, print-parse_iff}
use kdelta.Query.{Query}
use kdelta.Api.Resource.{Resource}
use kdelta.Api.Service.{ListVersionsResponse}
use kdelta.ResourcePage.{Inputs, detail_query}
use kdelta.ResourcesPage.{detail_href}

module _ (protocol_of : Text → Option Text) (encode : Text → Text)
    (versions_of : Resource → Query ListVersionsResponse) (search_ref : Text → Text) where
  -- The resource page that a row's link opens asks the server for the resource of that row, for
  -- every canonical reference; the router hands the page the component that the link encoded.
  pub row_opens_resource :
      (decoded : (t : Text) → search_ref (js "/resource?ref=" ++ encode t) ≡ t)
      → (r : Resource) (q : ResourceRef) (i : Inputs) → r.ref ≡ some q
      → IsCanonical q
      → i.canonical ≡ search_ref (detail_href protocol_of encode versions_of r)
      → detail_query i ≡ (record { ref = some q }, true)
  unfolding detail_href detail_query
  row_opens_resource decoded r q i e c opened =
      let shown : i.canonical ≡ ref_to_string (some q) =
        opened ∙ decoded (ref_to_string r.ref) ∙ ap ref_to_string e in
      rw (shown, (print-parse_iff q).1 c) refl

pub ref_to_string-injective :
    (r q : ResourceRef)
    → IsCanonical r
    → IsCanonical q
    → ref_to_string (some r) ≡ ref_to_string (some q)
    → r ≡ q
ref_to_string-injective r q c d e =
    some-injective r q (sym ((print-parse_iff r).1 c) ∙ (ap parse_ref e ∙ (print-parse_iff q).1 d))

key_ne :
    (r : ResourceRef) (qs : List ResourceRef)
    → IsCanonical r
    → All IsCanonical qs
    → All (λ q. r ≢ q) qs
    → All (λ k. ref_to_string (some r) ≢ k) (map (λ q. ref_to_string (some q)) qs)
key_ne r [] c cs h = tt
key_ne r (q ∷ qs) c cs h =
    ((λ e. h.0 (ref_to_string-injective r q c cs.0 e)), key_ne r qs c cs.1 h.1)

-- The rows of different canonical references have different keys.
row_keys-Distinct :
    (rs : List ResourceRef)
    → All IsCanonical rs
    → Distinct rs
    → Distinct (map (λ r. ref_to_string (some r)) rs)
row_keys-Distinct [] cs h = tt
row_keys-Distinct (r ∷ rs) cs h = (key_ne r rs cs.0 cs.1 h.0, row_keys-Distinct rs cs.1 h.1)
