-- ===== src/Ref/RoundTrip.antt =====
-- The two directions of ref.ts against each other.
use mathlib.Core.Path.{subst}
use kdelta.Prelude.{
  ◌∙◌, length, ℕ, zero, suc, List, [], ◌∷◌, ◌++◌, some, length-drop-le, head?, ap, sym, take, drop,
  ◌≡◌, ◌≢◌, ◌⊎◌, refl, ◌↔◌, arith, Option-cases, inl, inr, All, All-append,
}
use kdelta.Text.{Text, index_of, split}
use kdelta.Text.Split.{
  Lacks, split_off_whole, split_off-append, index_of_whole, index_of-append, take-append,
  drop-append, split_off-Lacks, index_of_found, index_of_missing, All-take, All-drop,
}
use kdelta.Ref.{ResourceRef, ref_to_string, parse_ref, parse_parts, parse_rest}

-- No separator stands where the string form would be cut at it.
pub record IsPlain (r : ResourceRef) : Type 0 where
  pub detected : r.detector ≢ []
  pub detector_colon : Lacks b':' r.detector
  pub namespace_colon : Lacks b':' r.namespace
  pub namespace_slash : Lacks b'/' r.namespace
  pub name_colon : Lacks b':' r.name

-- Without a namespace the name is not empty and holds no slash.
pub record IsCanonical (r : ResourceRef) : Type 0 where
  pub plain : IsPlain r
  pub scoped : (r.namespace ≢ []) ⊎ ((r.name ≢ []) × Lacks b'/' r.name)

-- One colon: the parts are those around it.
pub parse_ref_parts :
    (d t : Text)
    → Lacks b':' d
    → Lacks b':' t
    → parse_ref (d ++ (b':' ∷ t)) ≡ parse_parts (d ∷ t ∷ [])
unfolding parse_ref split
parse_ref_parts d t hd ht = rw (split_off-append b':' d t hd, split_off_whole b':' t ht) refl

parse_parts-scoped :
    (d ns name : Text)
    → d ≢ []
    → ns ≢ []
    → Lacks b'/' ns
    → parse_parts (d ∷ (ns ++ (b'/' ∷ name)) ∷ [])
      ≡ some (record { detector = d; namespace = ns; name = name })
unfolding parse_parts parse_rest
parse_parts-scoped [] ns name hd hn h = absurd (hd refl)
parse_parts-scoped (a ∷ d) [] name hd hn h = absurd (hn refl)
parse_parts-scoped (a ∷ d) (b ∷ ns) name hd hn h =
    rw
      (
        index_of-append b'/' (b ∷ ns) name h,
        take-append (b ∷ ns),
        drop-append (b ∷ ns) name b'/',
        parse_rest,
      )
      refl

parse_parts-unscoped :
    (d name : Text)
    → d ≢ []
    → name ≢ []
    → Lacks b'/' name
    → parse_parts (d ∷ name ∷ []) ≡ some (record { detector = d; namespace = []; name = name })
unfolding parse_parts parse_rest
parse_parts-unscoped [] name hd hn h = absurd (hd refl)
parse_parts-unscoped (a ∷ d) [] hd hn h = absurd (hn refl)
parse_parts-unscoped (a ∷ d) (b ∷ name) hd hn h =
    rw (index_of_whole b'/' (b ∷ name) h, parse_rest) refl

print-parse_canonical :
    (d ns name : Text)
    → IsCanonical (record { detector = d; namespace = ns; name = name })
    → parse_ref (ref_to_string (some (record { detector = d; namespace = ns; name = name })))
      ≡ some (record { detector = d; namespace = ns; name = name })
unfolding ref_to_string
print-parse_canonical d [] name c = elim c.scoped [
  | inl ne ↦ absurd (ne refl)
  | inr (named, slash) ↦
      parse_ref_parts d name c.plain.detector_colon c.plain.name_colon
      ∙ parse_parts-unscoped d name c.plain.detected named slash
]
print-parse_canonical d (a ∷ ns) name c =
    parse_ref_parts d ((a ∷ ns) ++ (b'/' ∷ name)) c.plain.detector_colon (
      All-append _ (a ∷ ns) (b'/' ∷ name) c.plain.namespace_colon
        ((λ e. omega arith), c.plain.name_colon))
    ∙ parse_parts-scoped d (a ∷ ns) name c.plain.detected (λ e. cc) c.plain.namespace_slash

-- What `parse_rest` makes of a rest without a colon.
parse_rest-IsPlain :
    (d rest : Text) → d ≢ [] → Lacks b':' d → Lacks b':' rest → IsPlain (parse_rest d rest)
unfolding parse_rest
parse_rest-IsPlain d rest hd hc hr = elim (Option-cases (index_of b'/' rest)) [
  | inl missing ↦
      rw (missing, parse_rest)
        (record {
          detected = hd;
          detector_colon = hc;
          namespace_colon = tt;
          namespace_slash = tt;
          name_colon = hr;
        })
  | inr (i, found) ↦
      rw (found, parse_rest)
        (record {
          detected = hd;
          detector_colon = hc;
          namespace_colon = All-take _ i rest hr;
          namespace_slash = (index_of_found b'/' rest i found).0;
          name_colon = All-drop _ (suc i) rest hr;
        })
]

parse_parts-IsPlain :
    (ps : List Text) (r : ResourceRef) → All (Lacks b':') ps → parse_parts ps ≡ some r → IsPlain r
unfolding parse_parts
parse_parts-IsPlain ((a ∷ d) ∷ (b ∷ rest) ∷ ps) r h e =
    let same : parse_rest (a ∷ d) (b ∷ rest) ≡ r = cc in
    subst IsPlain same (parse_rest-IsPlain (a ∷ d) (b ∷ rest) (λ q. cc) h.0 h.1.0)
parse_parts-IsPlain [] r h e = cc
parse_parts-IsPlain (d ∷ []) r h e = cc
parse_parts-IsPlain ([] ∷ t ∷ ps) r h e = cc
parse_parts-IsPlain ((a ∷ d) ∷ [] ∷ ps) r h e = cc

-- Whatever the text, a parsed reference has a detector, no colon in any part, and no slash in the
-- namespace.
pub parse_ref-IsPlain : (s : Text) (r : ResourceRef) → parse_ref s ≡ some r → IsPlain r
unfolding parse_ref split
parse_ref-IsPlain s r e =
    parse_parts-IsPlain (take 2 (split b':' s)) r
      (All-take _ 2 (split b':' s) (split_off-Lacks b':' s)) e

drop-ne : (i : ℕ) {b : ℕ} (s : Text) → drop i s ≡ b ∷ s → ⊥
drop-ne i s e = omega (arith, length-drop-le i s, ap length e)

-- A cluster-scoped reference that is parsed back has a name without a slash.
parse_parts-unscoped_inv :
    (d name : Text)
    → parse_parts (d ∷ name ∷ []) ≡ some (record { detector = d; namespace = []; name = name })
    → (name ≢ []) × Lacks b'/' name
unfolding parse_parts parse_rest
parse_parts-unscoped_inv [] name e = cc
parse_parts-unscoped_inv (a ∷ d) [] e = cc
parse_parts-unscoped_inv (a ∷ d) (b ∷ name) e = elim (Option-cases (index_of b'/' (b ∷ name))) [
  | inl missing ↦ ((λ q. cc), index_of_missing b'/' (b ∷ name) missing)
  | inr (i, found) ↦ absurd (drop-ne i {b = b} name (ground arith))
]

IsCanonical-of_print-parse :
    (d ns name : Text)
    → parse_ref (ref_to_string (some (record { detector = d; namespace = ns; name = name })))
      ≡ some (record { detector = d; namespace = ns; name = name })
    → IsCanonical (record { detector = d; namespace = ns; name = name })
unfolding ref_to_string
IsCanonical-of_print-parse d [] name e =
    let plain = parse_ref-IsPlain _ _ e in
    let inv =
      parse_parts-unscoped_inv d name
        (sym (parse_ref_parts d name plain.detector_colon plain.name_colon) ∙ e) in
    record { plain = plain; scoped = inr inv }
IsCanonical-of_print-parse d (a ∷ ns) name e = record {
  plain = parse_ref-IsPlain _ _ e;
  scoped = inl (λ q. cc);
}

-- Printing a reference and parsing the result gives the reference back exactly when it is
-- canonical: a detector that is not empty, no colon in any part, no slash in the namespace, and
-- without a namespace a name that is not empty and holds no slash.
pub print-parse_iff :
    (r : ResourceRef) → (parse_ref (ref_to_string (some r)) ≡ some r) ↔ IsCanonical r
print-parse_iff r = (
  IsCanonical-of_print-parse r.detector r.namespace r.name,
  print-parse_canonical r.detector r.namespace r.name,
)

print-parse_found :
    (d : Text) (b : ℕ) (rest : Text) (i : ℕ)
    → b ≢ b'/'
    → (b ∷ rest) ≡ take i (b ∷ rest) ++ (b'/' ∷ drop (suc i) (b ∷ rest))
    → ref_to_string (
        some
          (record { detector = d; namespace = take i (b ∷ rest); name = drop (suc i) (b ∷ rest) }))
      ≡ d ++ (b':' ∷ b ∷ rest)
unfolding ref_to_string
print-parse_found d b rest zero h e = absurd (h (cc))
print-parse_found d b rest (suc i) h e = ap (λ t. d ++ (b':' ∷ t)) (sym e)

print-parse_rest :
    (d : Text) (b : ℕ) (rest : Text)
    → b ≢ b'/'
    → ref_to_string (some (parse_rest d (b ∷ rest))) ≡ d ++ (b':' ∷ b ∷ rest)
unfolding parse_rest
print-parse_rest d b rest h = elim (Option-cases (index_of b'/' (b ∷ rest))) [
  | inl missing ↦ rw (missing, parse_rest) (unfold ref_to_string in refl)
  | inr (i, found) ↦
      rw (found, parse_rest)
        (print-parse_found d b rest i h (index_of_found b'/' (b ∷ rest) i found).1)
]

parts-print :
    (d rest : Text) (r : ResourceRef)
    → head? rest ≢ some b'/'
    → parse_parts (d ∷ rest ∷ []) ≡ some r
    → ref_to_string (some r) ≡ d ++ (b':' ∷ rest)
unfolding parse_parts
parts-print [] rest r h e = cc
parts-print (a ∷ d) [] r h e = cc
parts-print (a ∷ d) (b ∷ rest) r h e =
    let same : parse_rest (a ∷ d) (b ∷ rest) ≡ r = cc in
    rw (← same) (print-parse_rest (a ∷ d) b rest (λ q. h (ap some q)))

-- A text of two parts around its only colon, the second without a slash in front, is what the
-- reference that is parsed from it prints, if one is.
parse-print :
    (d rest : Text) (r : ResourceRef)
    → Lacks b':' d
    → Lacks b':' rest
    → head? rest ≢ some b'/'
    → parse_ref (d ++ (b':' ∷ rest)) ≡ some r
    → ref_to_string (some r) ≡ d ++ (b':' ∷ rest)
parse-print d rest r hd hr hs e = parts-print d rest r hs (sym (parse_ref_parts d rest hd hr) ∙ e)
