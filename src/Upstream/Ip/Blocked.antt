-- ===== src/Upstream/Ip/Blocked.antt =====
-- `isPublicIP` against the blocks of addresses that it is to refuse.
use kdelta.Prelude.{
  ℕ, ◌+◌, ◌*◌, ◌/◌, ◌<◌, true, List, [], ◌∷◌, ◌≡◌, ◌≢◌, ◌↔◌, arith, All, refl, false,
}
use kdelta.Text.{text_eq}
use kdelta.Upstream.Ip.{
  is_public_ip, is_loopback, is_private, is_link_local_unicast, is_link_local_multicast,
  is_multicast, is_unspecified, is_shared_or_broadcast,
}

-- A block of addresses: those that start with the same bits as the first, whose number is given, and
-- the power of two of the others.
abbrev pub blocks : List (ℕ × ℕ)
blocks =
    (127 * 0x1000000, 0x1000000)
    ∷ (10 * 0x1000000, 0x1000000)
    ∷ (172 * 0x1000000 + 16 * 0x10000, 0x100000)
    ∷ (192 * 0x1000000 + 168 * 0x10000, 0x10000)
    ∷ (169 * 0x1000000 + 254 * 0x10000, 0x10000)
    ∷ (224 * 0x1000000, 0x10000000)
    ∷ (100 * 0x1000000 + 64 * 0x10000, 0x400000)
    ∷ (0, 1)
    ∷ (0xffffffff, 1)
    ∷ []

abbrev pub number : ℕ → ℕ → ℕ → ℕ → ℕ
number a b c d = a * 0x1000000 + b * 0x10000 + c * 0x100 + d

abbrev pub Outside : ℕ → ℕ × ℕ → Type 0
Outside n k = n / k.1 ≢ k.0 / k.1

module _ (a b c d : ℕ) (ha : a < 256) (hb : b < 256) (hc : c < 256) (hd : d < 256) where
  loopback :
      Outside (number a b c d) (127 * 0x1000000, 0x1000000)
      → is_loopback (a ∷ b ∷ c ∷ d ∷ []) ≡ false
  unfolding is_loopback
  loopback h = ground arith

  private_ranges :
      Outside (number a b c d) (10 * 0x1000000, 0x1000000)
      → Outside (number a b c d) (172 * 0x1000000 + 16 * 0x10000, 0x100000)
      → Outside (number a b c d) (192 * 0x1000000 + 168 * 0x10000, 0x10000)
      → is_private (a ∷ b ∷ c ∷ d ∷ []) ≡ false
  unfolding is_private
  private_ranges h k l = ground arith

  link_local :
      Outside (number a b c d) (169 * 0x1000000 + 254 * 0x10000, 0x10000)
      → is_link_local_unicast (a ∷ b ∷ c ∷ d ∷ []) ≡ false
  unfolding is_link_local_unicast
  link_local h = ground arith

  multicast :
      Outside (number a b c d) (224 * 0x1000000, 0x10000000)
      → (is_link_local_multicast (a ∷ b ∷ c ∷ d ∷ []) ≡ false)
        × (is_multicast (a ∷ b ∷ c ∷ d ∷ []) ≡ false)
  unfolding is_link_local_multicast is_multicast
  multicast h = (ground arith, ground arith)

  unspecified : Outside (number a b c d) (0, 1) → is_unspecified (a ∷ b ∷ c ∷ d ∷ []) ≡ false
  unfolding is_unspecified
  unspecified h = ground arith

  shared_or_broadcast :
      Outside (number a b c d) (100 * 0x1000000 + 64 * 0x10000, 0x400000)
      → Outside (number a b c d) (0xffffffff, 1)
      → is_shared_or_broadcast (a ∷ b ∷ c ∷ d ∷ []) ≡ false
  unfolding is_shared_or_broadcast
  shared_or_broadcast h k = ground arith

  all-Outside : All (Outside (number a b c d)) blocks → is_public_ip (a ∷ b ∷ c ∷ d ∷ []) ≡ true
  unfolding is_public_ip
  all-Outside (h0, (h1, (h2, (h3, (h4, (h5, (h6, (h7, (h8, _))))))))) =
      let m = multicast h5 in
      rw
        (
          loopback h0,
          private_ranges h1 h2 h3,
          link_local h4,
          m.0,
          m.1,
          unspecified h7,
          shared_or_broadcast h6 h8,
        )
        refl

-- An address of four bytes counts as public exactly if it lies in none of the blocks of loopback,
-- private, link-local, multicast and shared addresses, and is neither the unspecified nor the
-- broadcast address; and the same address written in 16 bytes counts as it does.
pub is_public_ip_iff :
    (a b c d : ℕ)
    → a < 256
    → b < 256
    → c < 256
    → d < 256
    → ((is_public_ip (a ∷ b ∷ c ∷ d ∷ []) ≡ true) ↔ All (Outside (number a b c d)) blocks)
      × (is_public_ip (0 ∷ 0 ∷ 0 ∷ 0 ∷ 0 ∷ 0 ∷ 0 ∷ 0 ∷ 0 ∷ 0 ∷ 255 ∷ 255 ∷ a ∷ b ∷ c ∷ d ∷ [])
          ≡ is_public_ip (a ∷ b ∷ c ∷ d ∷ []))
unfolding is_public_ip text_eq
is_public_ip_iff a b c d ha hb hc hd =
    (((λ h. ground arith), all-Outside a b c d ha hb hc hd), refl)
