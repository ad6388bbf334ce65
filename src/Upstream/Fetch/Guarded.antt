-- ===== src/Upstream/Fetch/Guarded.antt =====
-- What a fetch connects to.
use kdelta.Prelude.{
  ℕ, zero, suc, ◌+◌, ◌≤◌, true, false, List, [], ◌∷◌, IfSome, Option-cases, Option, none, some, ◌≡◌,
  length, All, Bool-cases, inl, inr, arith,
}
use kdelta.Text.{Text}
use kdelta.Upstream.Ip.{Ip, is_public_ip}
use kdelta.Upstream.Egress.{IsEgress, check_egress_url-IsEgress}
use kdelta.Upstream.Fetch.{
  Web, Client, Connection, Log, Trip, ◌>>=◌, then_with, give, Reply, broken, redirect, response,
  allowed, dial_allowed, dial, answered, request_at, request, get, max_redirects,
}

module _ (web : Web) where
  -- A connection for a URL that the guard lets through, at a public address.
  pub record IsGuarded (c : Connection) : Type 0 where
    pub egress : IsEgress web.parse_url web.parse_ip c.url
    pub public_address : is_public_ip c.ip ≡ true

  -- A fetch adds at most `n` connections to a log, and only guarded ones.
  abbrev pub Guards : {A : Type 0} → ℕ → Trip A → Type 0
  Guards n m =
      (log : Log)
      → All IsGuarded log
      → All IsGuarded (m log).0 × (length (m log).0 ≤ length log + n)

  pub give-Guards : {A : Type 0} (a : Option A) → Guards 0 (give a)
  give-Guards a log h = (h, omega arith)

  then_with-Guards :
      {A B : Type 0} (k n : ℕ) (f : A → Trip B) (log : Log) (r : Log × Option A)
      → All IsGuarded r.0
      → length r.0 ≤ length log + k
      → ((a : A) → Guards n (f a))
      → All IsGuarded (then_with f r).0 × (length (then_with f r).0 ≤ length log + (k + n))
  then_with-Guards k n f log (after, none) h l later = (h, omega arith)
  then_with-Guards k n f log (after, some a) h l later =
      let (all, most) = later a after h in (all, omega arith)

  pub bind-Guards :
      {A B : Type 0} (k n : ℕ) (m : Trip A) (f : A → Trip B)
      → Guards k m
      → ((a : A) → Guards n (f a))
      → Guards (k + n) (m >>= f)
  bind-Guards k n m f first later log h =
      let (all, most) = first log h in then_with-Guards k n f log (m log) all most later

module _ (web : Web) (client : Client) (secure : client.insecure_private_egress ≡ false) where
  allowed-IsEgress :
      (url : Text) → allowed web client url ≡ true → IsEgress web.parse_url web.parse_ip url
  unfolding allowed
  allowed-IsEgress url h = check_egress_url-IsEgress web.parse_url web.parse_ip url (rw secure at h)

  dial_allowed-public : (ip : Ip) → dial_allowed web client ip ≡ true → is_public_ip ip ≡ true
  unfolding dial_allowed
  dial_allowed-public ip h = ground arith

  answered-Guards :
      (n limit : ℕ) (again : Text → Trip Text) (reply : Reply)
      → ((url : Text) → IsEgress web.parse_url web.parse_ip url → Guards web n (again url))
      → Guards web n (answered web client limit again reply)
  unfolding answered
  answered-Guards n limit again broken h log k = (k, omega arith)
  answered-Guards n limit again (response status body) h log k = (k, omega arith)
  answered-Guards n limit again (redirect url) h log k =
      elim (Bool-cases (allowed web client url)) [
        | inl yes_allowed ↦ rw yes_allowed (h url (allowed-IsEgress url yes_allowed) log k)
        | inr refused ↦ rw refused (k, omega arith)
      ]

  dial-public :
      (connect : Ip → Option Reply) (ips : List Ip)
      → IfSome (λ (at : Ip × Reply). is_public_ip at.0 ≡ true) (dial web client connect ips)
  unfolding dial
  dial-public connect [] = tt
  dial-public connect (ip ∷ ips) = elim (Bool-cases (dial_allowed web client ip)) [
    | inl may ↦ elim (Option-cases (connect ip)) [
      | inl silent ↦ rw (may, silent) (dial-public connect ips)
      | inr (reply, there) ↦ rw (may, there) (dial_allowed-public ip may)
    ]
    | inr refused ↦ rw refused (dial-public connect ips)
  ]

  request_at-Guards :
      (n limit : ℕ) (again : Text → Trip Text) (url : Text) (at : Option (Ip × Reply))
      → IfSome (λ (x : Ip × Reply). is_public_ip x.0 ≡ true) at
      → IsEgress web.parse_url web.parse_ip url
      → ((to : Text) → IsEgress web.parse_url web.parse_ip to → Guards web n (again to))
      → Guards web (suc n) (request_at web client limit again url at)
  unfolding request_at
  request_at-Guards n limit again url none public egress h log k = (k, omega arith)
  request_at-Guards n limit again url (some (ip, reply)) public egress h log k =
      let guarded : IsGuarded web (record { url = url; ip = ip }) = record {
        egress = egress;
        public_address = public;
      } in
      let (all, most) =
        answered-Guards n limit again reply h (record { url = url; ip = ip } ∷ log) (guarded, k) in
      (all, omega arith)

  request-Guards :
      (left limit : ℕ) (url : Text)
      → IsEgress web.parse_url web.parse_ip url
      → Guards web left (request web client left limit url)
  unfolding request
  request-Guards zero limit url egress log k = (k, omega arith)
  request-Guards (suc left) limit url egress log k =
      request_at-Guards left limit (request web client left limit) url
        (dial web client (web.network log url) (web.addresses log url))
        (dial-public (web.network log url) (web.addresses log url)) egress
        (request-Guards left limit) log k

  -- Whatever the network answers, a fetch of any URL makes at most five connections, redirects
  -- included, and each of them is for an https URL with a host and no user, whose host is no
  -- address outside the public ones, and goes to a public address.
  pub get-Guards : (limit : ℕ) (url : Text) → Guards web max_redirects (get web client limit url)
  unfolding get
  get-Guards limit url log k = elim (Bool-cases (allowed web client url)) [
    | inl open_url ↦ rw open_url (request-Guards 5 limit url (allowed-IsEgress url open_url) log k)
    | inr refused ↦ rw refused (k, omega arith)
  ]
