-- ===== src/Upstream/Fetch.antt =====
-- `get` and the client below it: a request, its redirects and the check of every address that is
-- dialed. What the network answers may depend on all that was requested before. A proxy, headers,
-- pooled connections and timeouts are left out; a reply that fails in any way is `broken`.
pub mod Guarded
use kdelta.Prelude.{
  ℕ, zero, suc, Bool, true, false, not, ◌&&◌, ◌||◌, List, [], ◌∷◌, Option, none, some, ◌==◌,
  if◌then◌else◌, take, or_some, ℤ,
}
use kdelta.Text.{Text}
use kdelta.Url.{Url}
use kdelta.Upstream.Ip.{Ip, is_public_ip}
use kdelta.Upstream.Egress.{check_egress_url}

pub record GithubRelease : Type 0 where
  pub tag : Text
  pub name : Text
  pub body : Text
  pub html_url : Text
  pub prerelease : Bool
  pub draft : Bool

pub record ArtifactHubRepository : Type 0 where
  pub url : Text
  pub name : Text
  pub kind : ℤ
  pub verified_publisher : Bool
  pub official : Bool

pub record ArtifactHubPackage : Type 0 where
  pub name : Text
  pub normalized_name : Text
  pub official : Bool
  pub production_organizations_count : ℤ
  pub repository : ArtifactHubRepository

pub record HelmChartVersion : Type 0 where
  pub version : Text
  pub app_version : Text
  pub deprecated : Bool
  pub home : Text
  pub sources : List Text

-- A connection that was made: the URL that it is for, and the address that was dialed.
pub record Connection : Type 0 where
  pub url : Text
  pub ip : Ip

-- The connections so far, the latest first.
abbrev pub Log : Type 0
Log = List Connection

pub data Reply : Type 0 where
  broken : Reply
  redirect : Text → Reply
  response : ℕ → Text → Reply

-- The Go library, the web and the decoders of what it sends.
pub record Web : Type 0 where
  pub parse_url : Text → Option Url
  pub parse_ip : Text → Option Ip
  -- `strings.ToLower` and `strings.EqualFold`
  pub to_lower : Text → Text
  pub equal_fold : Text → Text → Bool
  pub path_escape : Text → Text
  pub query_escape : Text → Text
  -- the addresses of the host of a URL, in the order in which they are tried, and what is answered
  -- at one of them, where a connection is made
  pub addresses : Log → Text → List Ip
  pub network : Log → Text → Ip → Option Reply
  pub decode_releases : Text → Option (List GithubRelease)
  pub decode_search : Text → Option (List ArtifactHubPackage)
  pub decode_index : Text → Option (List (Text × List HelmChartVersion))

-- The fields of `Client` that a fetch reads, without the token.
pub record Client : Type 0 where
  pub github_base_url : Text
  pub artifact_hub_base_url : Text
  pub insecure_private_egress : Bool

-- A fetch: from the connections so far to those after it, with its result, if there is one.
abbrev pub Trip : Type 0 → Type 0
Trip A = Log → Log × Option A

abbrev pub then_with : {A B : Type 0} → (A → Trip B) → Log × Option A → Log × Option B
then_with f (log, none) = (log, none)
then_with f (log, some a) = f a log

infixl 5 ◌>>=◌
abbrev pub ◌>>=◌ : {A B : Type 0} → Trip A → (A → Trip B) → Trip B
◌>>=◌ m f log = then_with f (m log)

abbrev pub give : {A : Type 0} → Option A → Trip A
give a log = (log, a)

abbrev pub max_redirects : ℕ
max_redirects = 5

module _ (web : Web) (client : Client) where
  unfoldable pub allowed : Text → Bool
  unfolding check_egress_url
  allowed = check_egress_url web.parse_url web.parse_ip client.insecure_private_egress

  -- `dialer.Control`
  unfoldable pub dial_allowed : Ip → Bool
  dial_allowed ip = client.insecure_private_egress || is_public_ip ip

  -- The body, up to the limit, where the status is 200.
  unfoldable pub answered : ℕ → (Text → Trip Text) → Reply → Trip Text
  unfolding allowed
  answered limit again broken = give none
  answered limit again (response status body) =
      give (if status == 200 then some (take limit body) else none)
  answered limit again (redirect url) = if allowed url then again url else give none

  abbrev pub tried : Ip → Option Reply → Option (Ip × Reply)
  tried ip none = none
  tried ip (some reply) = some (ip, reply)

  -- The first address that may be dialed and at which a connection is made
  unfoldable pub dial : (Ip → Option Reply) → List Ip → Option (Ip × Reply)
  unfolding dial_allowed
  dial connect [] = none
  dial connect (ip ∷ ips) =
      or_some (if dial_allowed ip then tried ip (connect ip) else none) (dial connect ips)

  unfoldable pub request_at : ℕ → (Text → Trip Text) → Text → Option (Ip × Reply) → Trip Text
  unfolding answered
  request_at limit again url none log = (log, none)
  request_at limit again url (some (ip, reply)) log =
      answered limit again reply (record { url = url; ip = ip } ∷ log)

  -- A request where `suc left` more may be sent, this one counted: `CheckRedirect` stops the chain
  -- that has as many requests behind it as `maxRedirects`.
  unfoldable pub request : ℕ → ℕ → Text → Trip Text
  unfolding request_at dial
  request zero limit url log = (log, none)
  request (suc left) limit url log =
      request_at limit (request left limit) url (dial (web.network log url) (web.addresses log url))
        log

  -- `get`
  unfoldable pub get : ℕ → Text → Trip Text
  unfolding allowed request
  get limit url = if allowed url then request max_redirects limit url else give none
