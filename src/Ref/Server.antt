-- ===== src/Ref/Server.antt =====
-- The server's parser of the string form (internal/ref/ref.go) against the UI's.
use kdelta.Prelude.{
  suc, [], ◌∷◌, ◌++◌, Option, none, some, ◌≡◌, ◌&&◌, if◌then◌else◌, take, drop, arith, Option-cases,
  inl, inr, ap, All-append, true, ◌↔◌, ◌>>=◌, refl, ◌⊎◌, ℕ, ◌≢◌,
}
use kdelta.Text.{Text, truthy, index_of}
use kdelta.Text.Split.{
  Lacks, index_of_found, index_of-append, index_of_whole, take-append, drop-append,
}
use kdelta.Ref.{ResourceRef, ref_to_string, parse_ref, parse_parts, parse_rest}
use kdelta.Ref.RoundTrip.{parse_ref_parts, parse_ref-IsPlain, IsCanonical}

-- strings.Cut of the Go library at a separator of one byte; `none` where it is not found.
unfoldable pub cut : ℕ → Text → Option (Text × Text)
cut sep s = elim (index_of sep s) [ none ↦ none | some i ↦ some (take i s, drop (suc i) s) ]

unfoldable pub server_rest : Text → Text → Option ResourceRef
unfolding cut
server_rest detector rest = elim (cut b'/' rest) [
  | none ↦ some (record { detector = detector; namespace = []; name = rest })
  | some (namespace, name) ↦
      if truthy namespace && truthy name
      then some (record { detector = detector; namespace = namespace; name = name })
      else none
]

-- `ref.Parse`; `none` is an error.
unfoldable pub server_parse : Text → Option ResourceRef
unfolding server_rest cut
server_parse s = do
  (detector, rest) ← cut b':' s
  if truthy detector && truthy rest then server_rest detector rest else none

server_rest_agrees :
    (d rest : Text) (r : ResourceRef) → server_rest d rest ≡ some r → parse_rest d rest ≡ r
unfolding server_rest parse_rest cut
server_rest_agrees d rest r e = ground arith

parse_parts_agrees :
    (d rest : Text) (r : ResourceRef)
    → truthy d ≡ true
    → truthy rest ≡ true
    → server_rest d rest ≡ some r
    → parse_parts (d ∷ rest ∷ []) ≡ some r
unfolding parse_parts
parse_parts_agrees d rest r td tr k = rw (td, tr) (ap some (server_rest_agrees d rest r k))

-- What the rest holds is what the namespace and the name hold, and the slash.
server_rest-Lacks :
    (d rest : Text) (r : ResourceRef)
    → server_rest d rest ≡ some r
    → Lacks b':' r.namespace
    → Lacks b':' r.name
    → Lacks b':' rest
unfolding server_rest cut
server_rest-Lacks d rest r e hs hn = elim (Option-cases (index_of b'/' rest)) [
  | inl missing ↦ let same : r.name ≡ rest = ground arith in rw (← same) hn
  | inr (i, found) ↦
      let ns : r.namespace ≡ take i rest = ground arith in
      let name : r.name ≡ drop (suc i) rest = ground arith in
      rw (index_of_found b'/' rest i found).1 (
        All-append _ (take i rest) (b'/' ∷ drop (suc i) rest) (rw (← ns) hs)
          ((λ q. omega arith), rw (← name) hn))
]

server_parse_inv :
    (s : Text) (r : ResourceRef)
    → server_parse s ≡ some r
    → (d : Text) × (rest : Text) × Lacks b':' d
      × (s ≡ d ++ (b':' ∷ rest))
      × (truthy d ≡ true)
      × (truthy rest ≡ true)
      × (server_rest d rest ≡ some r)
unfolding server_parse cut
server_parse_inv s r e = elim (Option-cases (index_of b':' s)) [
  | inl missing ↦ absurd (ground arith)
  | inr (i, found) ↦ (
    take i s,
    drop (suc i) s,
    (index_of_found b':' s i found).0,
    (index_of_found b':' s i found).1,
    ground arith,
    ground arith,
    ground arith,
  )
]

-- On every text that the server accepts, the UI reads the same reference exactly when neither the
-- namespace nor the name holds a colon.
pub parse_ref-server_parse_iff :
    (s : Text) (r : ResourceRef)
    → server_parse s ≡ some r
    → (parse_ref s ≡ some r) ↔ (Lacks b':' r.namespace × Lacks b':' r.name)
parse_ref-server_parse_iff s r e = (
  (λ p. let plain = parse_ref-IsPlain s r p in (plain.namespace_colon, plain.name_colon)),
  λ h.
      let (d, rest, hd, shape, td, tr, k) = server_parse_inv s r e in
      rw (shape, parse_ref_parts d rest hd (server_rest-Lacks d rest r k h.0 h.1))
        (parse_parts_agrees d rest r td tr k),
)

cut-append : (sep : ℕ) (s t : Text) → Lacks sep s → cut sep (s ++ (sep ∷ t)) ≡ some (s, t)
unfolding cut
cut-append sep s t h = rw (index_of-append sep s t h, take-append s, drop-append s t sep, cut) refl

cut_whole : (sep : ℕ) (s : Text) → Lacks sep s → cut sep s ≡ none
unfolding cut
cut_whole sep s h = rw (index_of_whole sep s h, cut) refl

truthy_of_ne : (s : Text) → s ≢ [] → truthy s ≡ true
truthy_of_ne [] h = absurd (h refl)
truthy_of_ne (a ∷ s) h = refl

server_parse-print_parts :
    (d ns name : Text)
    → d ≢ []
    → name ≢ []
    → Lacks b':' d
    → Lacks b'/' ns
    → (ns ≢ []) ⊎ ((name ≢ []) × Lacks b'/' name)
    → server_parse (ref_to_string (some (record { detector = d; namespace = ns; name = name })))
      ≡ some (record { detector = d; namespace = ns; name = name })
unfolding server_parse ref_to_string
server_parse-print_parts d [] name hd hn colon slash (inl k) = absurd (k refl)
server_parse-print_parts d [] name hd hn colon slash (inr k) =
    rw
      (
        cut-append b':' d name colon,
        truthy_of_ne d hd,
        truthy_of_ne name hn,
        cut_whole b'/' name k.1,
        server_rest,
      )
      refl
server_parse-print_parts d (b ∷ ns) name hd hn colon slash k =
    rw
      (
        cut-append b':' d ((b ∷ ns) ++ (b'/' ∷ name)) colon,
        truthy_of_ne d hd,
        cut-append b'/' (b ∷ ns) name slash,
        server_rest,
        truthy_of_ne name hn,
      )
      refl

-- The server reads back what is printed of a canonical reference with a name.
pub server_parse-print :
    (r : ResourceRef) → IsCanonical r → r.name ≢ [] → server_parse (ref_to_string (some r)) ≡ some r
server_parse-print r c named =
    server_parse-print_parts r.detector r.namespace r.name c.plain.detected named
      c.plain.detector_colon c.plain.namespace_slash c.scoped
