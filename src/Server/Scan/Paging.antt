-- ===== src/Server/Scan/Paging.antt =====
-- A client that follows the page tokens of `ListResources`.
use kdelta.Prelude.{
  ℕ, zero, suc, ◌+◌, ◌-◌, ◌≤◌, ◌<◌, true, false, ◌&&◌, List, [], ◌++◌, Option, none, some, ◌≡◌,
  refl, sym, ap, ◌∙◌, inl, inr, ◌>>=◌, ltb, if◌then◌else◌, length, take, drop, take-append-drop,
  drop-drop, take_whole, length-drop, Bool-cases, arith,
}
use kdelta.Text.{Text, truthy, decimal}
use kdelta.Query.{Codes}
use kdelta.Api.Resource.{Resource}
use kdelta.Api.Service.{ScanResponse, ListResourcesRequest, ListResourcesResponse}
use kdelta.Server.{Answer}
use kdelta.Server.Store.{Store}
use kdelta.Server.Scan.{max_int, offset_of, page_from, cached_scan, list_resources}
use kdelta.Server.Scan.Token.{offset_of-decimal, decimal_full}

module _ (resources : List Resource) (size : ℕ) where
  -- The last page, and a page before it.
  pub last_page :
      (offset : ℕ)
      → (ltb 0 size && ltb (offset + size) (length resources)) ≡ false
      → page_from resources size offset
        ≡ record { resources = drop offset resources; next_page_token = [] }
  unfolding page_from
  last_page offset last =
      let total = length resources in
      let no_more : ltb total total ≡ false = ground arith in
      rw (last, no_more)
        (ap (λ rs. record { resources = rs; next_page_token = [] })
          (take_whole (total - offset) (drop offset resources)
            (omega (arith, length-drop offset resources))))

  next_page :
      (offset : ℕ)
      → (ltb 0 size && ltb (offset + size) (length resources)) ≡ true
      → page_from resources size offset ≡ record {
        resources = take size (drop offset resources);
        next_page_token = decimal (offset + size);
      }
  unfolding page_from
  next_page offset more =
      let rest : ltb (offset + size) (length resources) ≡ true = ground arith in
      let width : offset + size - offset ≡ size = omega arith in rw (more, rest, width) refl

module _ (code : Codes) (store : Option Store) (size : ℕ) (selector : Text) where
  abbrev request : Text → ListResourcesRequest
  request token = record { page_size = size; page_token = token; selector = selector }

  -- A client that asks for a page and then for the next one while there is a token: all that it
  -- gets, within a number of requests; `none` where a request fails or the requests run out.
  unfoldable pub after :
      Answer ListResourcesResponse → (Text → Option (List Resource)) → Option (List Resource)
  after (inl e) go_on = none
  after (inr page) go_on =
      if truthy page.next_page_token
      then go_on page.next_page_token >>= (λ rest. some (page.resources ++ rest))
      else some page.resources

  unfoldable pub follow : (requests : ℕ) → Text → Option (List Resource)
  unfolding after
  follow zero token = none
  follow (suc requests) token = after (list_resources code store (request token)) (follow requests)

  module _ (scan : ScanResponse) (cached : cached_scan code store ≡ inr scan) where
    pub list_resources_lem :
        (token : Text) (offset : ℕ)
        → offset_of code token (length scan.resources) ≡ inr offset
        → list_resources code store (request token) ≡ inr (page_from scan.resources size offset)
    unfolding list_resources
    list_resources_lem token offset e = rw (cached, e) refl

    module _ (fits : length scan.resources ≤ max_int) where
      follow_from :
          (requests offset : ℕ) (token : Text)
          → offset_of code token (length scan.resources) ≡ inr offset
          → length scan.resources < requests + offset
          → offset ≤ length scan.resources
          → follow requests token ≡ some (drop offset scan.resources)
      unfolding follow
      follow_from zero offset token at_offset enough inside = absurd (omega arith)
      follow_from (suc requests) offset token at_offset enough inside =
          let total = length scan.resources in
          elim (Bool-cases (ltb 0 size && ltb (offset + size) total)) [
            | inl more ↦
                let positive : 0 < size = ground arith in
                let rest : offset + size < total = ground arith in
                rw
                  (
                    list_resources_lem token offset at_offset,
                    next_page scan.resources size offset more,
                    decimal_full (offset + size),
                    follow_from requests (offset + size) (decimal (offset + size))
                        (offset_of-decimal code total (offset + size) fits (omega arith))
                        (omega arith) (omega arith),
                  )
                  (ap some (
                    ap (take size (drop offset scan.resources) ++◌)
                      (sym (drop-drop offset size scan.resources))
                    ∙ take-append-drop size (drop offset scan.resources)))
            | inr last ↦
                rw
                  (
                    list_resources_lem token offset at_offset,
                    last_page scan.resources size offset last,
                  )
                  refl
          ]

      -- On a cached scan of less than 2 ^ 63 resources, a client that follows the page tokens from
      -- the first page on gets every resource once and in order, whatever the size of a page and
      -- whatever the label selector that it sends, and needs at most one request more than there
      -- are resources.
      pub follow-resources : follow (suc (length scan.resources)) [] ≡ some scan.resources
      follow-resources =
          follow_from (suc (length scan.resources)) 0 [] (unfold offset_of in refl) (omega arith)
            (omega arith)
