-- ===== src/Server/Scan/Bounds.antt =====
-- The slice that `ListResources` of internal/server/scan.go takes of the resources.
use mathlib.Core.Sum.{inr-injective, inl-ne-inr}
use kdelta.Prelude.{
  ℕ, Bool, ◌+◌, ◌≤◌, ◌<◌, false, ◌&&◌, List, [], ◌∷◌, Option, none, some, ◌≡◌, inl, inr, ltb,
  length, Bool-cases, arith,
}
use kdelta.Text.{Text}
use kdelta.Query.{Codes, connect_error}
use kdelta.Api.Resource.{Resource}
use kdelta.Server.Scan.{max_int, atoi, out_of_range, offset_at, offset_of, page_end}

offset_at-inside :
    (code : Codes) (parsed : Option (Bool × ℕ)) (total offset : ℕ)
    → offset_at code parsed total ≡ inr offset
    → offset ≤ total
unfolding offset_at
offset_at-inside code none total offset e = absurd (inl-ne-inr e)
offset_at-inside code (some (negative, n)) total offset e =
    elim (Bool-cases (out_of_range (negative, n) total)) [
      | inl out ↦
          let refused : inl (connect_error code.invalid_argument []) ≡ inr offset = rw out at e in
          absurd (inl-ne-inr refused)
      | inr inside ↦
          let taken : inr n ≡ inr offset = rw inside at e in
          let same : n ≡ offset = inr-injective n offset taken in
          let within : ltb total n ≡ false = ground arith in ground arith
    ]

offset_of-inside :
    (code : Codes) (token : Text) (total offset : ℕ)
    → offset_of code token total ≡ inr offset
    → offset ≤ total
unfolding offset_of
offset_of-inside code [] total offset e =
    let same : 0 ≡ offset = inr-injective 0 offset e in omega arith
offset_of-inside code (c ∷ t) total offset e = offset_at-inside code (atoi (c ∷ t)) total offset e

-- Whatever the page token that is accepted and whatever the size of a page, the page begins and ends
-- within the resources; for fewer than 2 ^ 62 resources and a size of 32 bits, no sum on the way
-- leaves the integers of 64 bits.
page_bounds :
    (code : Codes) (token : Text) (resources : List Resource) (size offset : ℕ)
    → length resources < 4_611_686_018_427_387_904
    → size < 2_147_483_648
    → offset_of code token (length resources) ≡ inr offset
    → (offset ≤ page_end (length resources) size offset)
      × (page_end (length resources) size offset ≤ length resources)
      × (offset + size ≤ max_int)
unfolding page_end
page_bounds code token resources size offset few small accepted =
    let inside = offset_of-inside code token (length resources) offset accepted in
    elim (Bool-cases (ltb 0 size && ltb (offset + size) (length resources))) [
      | inl more ↦
          let before : offset + size < length resources = ground arith in
          rw more (omega arith, omega arith, omega arith)
      | inr last ↦ rw last (inside, omega arith, omega arith)
    ]
