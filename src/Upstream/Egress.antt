-- ===== src/Upstream/Egress.antt =====
-- `checkEgressURL`: whether the client may fetch a URL.
use kdelta.Prelude.{
  Bool, true, false, not, ◌&&◌, ◌||◌, Option, none, some, ◌≡◌, inl, inr, IfSome, Option-cases,
  arith,
}
use kdelta.Text.{Text, js, text_eq, text_eq_iff, truthy}
use kdelta.Url.{Url}
use kdelta.Upstream.Ip.{Ip, is_public_ip}

-- A host that is no address written out is let through: its address is checked when it is dialed.
unfoldable pub host_allowed : Option Ip → Bool
host_allowed none = true
host_allowed (some ip) = is_public_ip ip

module _ (parse_url : Text → Option Url) (parse_ip : Text → Option Ip)
    (insecure_private_egress : Bool) where
  unfoldable pub url_allowed : Option Url → Bool
  unfolding text_eq js host_allowed
  url_allowed none = false
  url_allowed (some u) =
      (text_eq u.scheme (js "http") || text_eq u.scheme (js "https"))
      && truthy u.host
      && not u.has_user
      && (insecure_private_egress
          || (text_eq u.scheme (js "https") && host_allowed (parse_ip u.hostname)))

  -- `checkEgressURL` and `CheckEgressURL`; `false` is an error.
  unfoldable pub check_egress_url : Text → Bool
  unfolding url_allowed
  check_egress_url url = url_allowed (parse_url url)

module _ (parse_url : Text → Option Url) (parse_ip : Text → Option Ip) where
  -- An https URL of a host, with no user, and with no address written out that is not public.
  pub record IsEgress (url : Text) : Type 0 where
    pub parsed : Url
    pub parses : parse_url url ≡ some parsed
    pub https : parsed.scheme ≡ js "https"
    pub hosted : truthy parsed.host ≡ true
    pub userless : parsed.has_user ≡ false
    pub public : IfSome (λ ip. is_public_ip ip ≡ true) (parse_ip parsed.hostname)

  host_allowed-public :
      (host : Option Ip) → host_allowed host ≡ true → IfSome (λ ip. is_public_ip ip ≡ true) host
  unfolding host_allowed
  host_allowed-public none h = tt
  host_allowed-public (some ip) h = h

  pub check_egress_url-IsEgress :
      (url : Text) → check_egress_url parse_url parse_ip false url ≡ true → IsEgress url
  unfolding check_egress_url
  check_egress_url-IsEgress url h = elim (Option-cases (parse_url url)) [
    | inl broken ↦ absurd (ground arith)
    | inr (u, parses) ↦ record {
      parsed = u;
      parses = parses;
      https = ground (arith, text_eq_iff u.scheme (js "https"));
      hosted = ground arith;
      userless = ground arith;
      public = host_allowed-public (parse_ip u.hostname) (ground arith);
    }
  ]
