-- ===== src/Upstream/Ip.antt =====
-- `isPublicIP`, with the methods of `net.IP` that it calls. An address is the list of its bytes, 4 or
-- 16 of them. On a byte, `b & 0xc0` is `b / 64 * 64`, and the like.
pub mod Blocked
use kdelta.Prelude.{
  ℕ, zero, suc, ◌/◌, ◌%◌, Bool, true, false, not, ◌&&◌, ◌||◌, List, [], ◌∷◌, Option, none, some,
  ◌==◌, if◌then◌else◌, length, take, drop, is_some, get_or,
}
use kdelta.Text.{text_eq}

abbrev pub Ip : Type 0
Ip = List ℕ

abbrev pub byte : ℕ → Ip → ℕ
byte i [] = 0
byte zero (b ∷ bs) = b
byte (suc i) (b ∷ bs) = byte i bs

abbrev zeros : ℕ → Ip
zeros zero = []
zeros (suc n) = 0 ∷ zeros n

-- `To4`
unfoldable pub to_4 : Ip → Option Ip
unfolding text_eq
to_4 ip =
    if length ip == 4
    then some ip
    else if length ip == 16
        && text_eq (take 10 ip) (zeros 10)
        && byte 10 ip == 0xff
        && byte 11 ip == 0xff
    then some (drop 12 ip)
    else none

-- A test of an address with four bytes, and one of the others.
abbrev by_family : (Ip → Bool) → (Ip → Bool) → Ip → Bool
by_family v4 v6 ip = elim (to_4 ip) [ none ↦ v6 ip | some q ↦ v4 q ]

unfoldable pub is_loopback : Ip → Bool
unfolding to_4
is_loopback =
    by_family (λ q. byte 0 q == 127)
      (λ ip.
        length ip == 16
        && text_eq ip (0 ∷ 0 ∷ 0 ∷ 0 ∷ 0 ∷ 0 ∷ 0 ∷ 0 ∷ 0 ∷ 0 ∷ 0 ∷ 0 ∷ 0 ∷ 0 ∷ 0 ∷ 1 ∷ []))

unfoldable pub is_private : Ip → Bool
unfolding to_4
is_private =
    by_family
      (λ q.
        byte 0 q == 10
        || (byte 0 q == 172 && byte 1 q / 16 == 1)
        || (byte 0 q == 192 && byte 1 q == 168))
      (λ ip. length ip == 16 && byte 0 ip / 2 == 126)

unfoldable pub is_link_local_unicast : Ip → Bool
unfolding to_4
is_link_local_unicast =
    by_family (λ q. byte 0 q == 169 && byte 1 q == 254)
      (λ ip. length ip == 16 && byte 0 ip == 0xfe && byte 1 ip / 64 == 2)

unfoldable pub is_link_local_multicast : Ip → Bool
unfolding to_4
is_link_local_multicast =
    by_family (λ q. byte 0 q == 224 && byte 1 q == 0 && byte 2 q == 0)
      (λ ip. length ip == 16 && byte 0 ip == 0xff && byte 1 ip % 16 == 2)

unfoldable pub is_multicast : Ip → Bool
unfolding to_4
is_multicast = by_family (λ q. byte 0 q / 16 == 14) (λ ip. length ip == 16 && byte 0 ip == 0xff)

unfoldable pub is_unspecified : Ip → Bool
unfolding to_4 text_eq
is_unspecified = by_family (λ q. text_eq q (zeros 4)) (λ ip. text_eq ip (zeros 16))

-- The two tests at the end: 100.64.0.0/10, and the broadcast address.
unfoldable pub is_shared_or_broadcast : Ip → Bool
unfolding to_4 text_eq
is_shared_or_broadcast =
    by_family
      (λ q. (byte 0 q == 100 && byte 1 q / 64 == 1) || text_eq q (255 ∷ 255 ∷ 255 ∷ 255 ∷ []))
      (λ ip. false)

-- `isPublicIP`
unfoldable pub is_public_ip : Ip → Bool
unfolding to_4 is_loopback is_private is_link_local_unicast is_link_local_multicast is_multicast
    is_unspecified is_shared_or_broadcast
is_public_ip address =
    let ip = get_or (to_4 address) address in
    not (
      is_loopback ip
      || is_private ip
      || is_link_local_unicast ip
      || is_link_local_multicast ip
      || is_multicast ip
      || is_unspecified ip)
    && not (is_shared_or_broadcast ip)
