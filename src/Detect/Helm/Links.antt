-- ===== src/Detect/Helm/Links.antt =====
-- The links of a resource, which come from a chart that any tenant may install.
use mathlib.Core.Path.{subst}
use kdelta.Prelude.{
  ℕ, none, true, List, [], ◌∷◌, Option, some, ◌≡◌, ◌⊎◌, ◌↔◌, sym, ap, ◌∙◌, inl, inr, In, Bool-cases,
  Option-cases, arith,
}
use kdelta.Text.{Text, js, text_eq_iff, truthy}
use kdelta.Url.{Url}
use kdelta.Api.LinkKind
use kdelta.Api.Common.{Link}
use kdelta.Api.Resource.{Resource}
use kdelta.Detect.Helm.FromRelease.{
  Release, ChartMetadata, resource_of, is_safe_http_url, links_of, link_to, resource_from_release,
}

module _ (parse_url : Text → Option Url) where
  -- A URL that parses as an http or https one of some host
  pub record IsWeb (raw : Text) : Type 0 where
    pub parsed : Url
    pub parses : parse_url raw ≡ some parsed
    pub scheme : (parsed.scheme ≡ js "http") ⊎ (parsed.scheme ≡ js "https")
    pub hosted : truthy parsed.host ≡ true

  is_safe_http_url-IsWeb : (raw : Text) → is_safe_http_url parse_url raw ≡ true → IsWeb raw
  unfolding is_safe_http_url
  is_safe_http_url-IsWeb raw h = elim (Option-cases (parse_url raw)) [
    | inl broken ↦ absurd (ground arith)
    | inr (u, parses) ↦ record {
      parsed = u;
      parses = parses;
      scheme = ground (arith, text_eq_iff u.scheme (js "http"), text_eq_iff u.scheme (js "https"));
      hosted = ground arith;
    }
  ]

  IsWeb-is_safe_http_url : (raw : Text) → IsWeb raw → is_safe_http_url parse_url raw ≡ true
  unfolding is_safe_http_url
  IsWeb-is_safe_http_url raw web =
      let u = web.parsed in
      rw web.parses (
        ground (
          arith,
          web.scheme,
          web.hosted,
          text_eq_iff u.scheme (js "http"),
          text_eq_iff u.scheme (js "https"),
        ))

  -- A link of a chart with these sources and this home
  abbrev pub IsOf : Text → List Text → Link → Type 0
  IsOf home sources l =
      IsWeb l.url
      × ((In l.url sources × (l ≡ link_to LinkKind.source l.url))
          ⊎ (l ≡ link_to LinkKind.homepage home))

  url_of : (l : Link) (kind : ℕ) (url : Text) → l ≡ link_to kind url → l.url ≡ url
  url_of l kind url e = ap (λ (x : Link). x.url) e

  links_of-to :
      (home : Text) (sources : List Text) (l : Link)
      → In l (links_of parse_url home sources)
      → IsOf home sources l
  unfolding links_of
  links_of-to home [] l h = elim (Bool-cases (is_safe_http_url parse_url home)) [
    | inl safe ↦
        let k : In l (link_to LinkKind.homepage home ∷ []) = rw safe at h in
        elim k [
          | inl e ↦
              let same = url_of l LinkKind.homepage home e in
              (subst IsWeb (sym same) (is_safe_http_url-IsWeb home safe), inr e)
          | inr nothing ↦ absurd nothing
        ]
    | inr unsafe ↦ let k : In l [] = rw unsafe at h in absurd k
  ]
  links_of-to home (source ∷ sources) l h =
      let later = λ (k : In l (links_of parse_url home sources)).
        let (web, origin) = links_of-to home sources l k in
        let result : IsOf home (source ∷ sources) l =
          (web, elim origin [ inl o ↦ inl (inr (o.0), o.1) | inr o ↦ inr o ]) in
        result in
      elim (Bool-cases (is_safe_http_url parse_url source)) [
        | inl safe ↦
            let k : In l (link_to LinkKind.source source ∷ links_of parse_url home sources) =
              rw safe at h in
            elim k [
              | inl e ↦
                  let same = url_of l LinkKind.source source e in
                  (
                    subst IsWeb (sym same) (is_safe_http_url-IsWeb source safe),
                    inl (inl same, e ∙ ap (link_to LinkKind.source) (sym same)),
                  )
              | inr rest ↦ later rest
            ]
        | inr unsafe ↦ later (rw unsafe at h)
      ]

  links_of-home :
      (home : Text) (sources : List Text) (l : Link)
      → is_safe_http_url parse_url home ≡ true
      → l ≡ link_to LinkKind.homepage home
      → In l (links_of parse_url home sources)
  unfolding links_of
  links_of-home home [] l safe e = rw safe (inl e)
  links_of-home home (source ∷ sources) l safe e =
      elim (Bool-cases (is_safe_http_url parse_url source)) [
        | inl kept ↦ rw kept (inr (links_of-home home sources l safe e))
        | inr dropped ↦ rw dropped (links_of-home home sources l safe e)
      ]

  links_of-source :
      (home : Text) (sources : List Text) (l : Link)
      → is_safe_http_url parse_url l.url ≡ true
      → In l.url sources
      → l ≡ link_to LinkKind.source l.url
      → In l (links_of parse_url home sources)
  unfolding links_of
  links_of-source home [] l safe there e = absurd there
  links_of-source home (source ∷ sources) l safe (inl same) e =
      let fine : is_safe_http_url parse_url source ≡ true =
        subst (λ t. is_safe_http_url parse_url t ≡ true) same safe in
      rw fine (inl (e ∙ ap (link_to LinkKind.source) same))
  links_of-source home (source ∷ sources) l safe (inr later) e =
      elim (Bool-cases (is_safe_http_url parse_url source)) [
        | inl kept ↦ rw kept (inr (links_of-source home sources l safe later e))
        | inr dropped ↦ rw dropped (links_of-source home sources l safe later e)
      ]

  resource_of-links :
      (rel : Release) (meta : ChartMetadata) (status : Text) (l : Link)
      → In l (resource_of parse_url rel meta status).links ↔ IsOf meta.home meta.sources l
  unfolding resource_of
  resource_of-links rel meta status l = (
    links_of-to meta.home meta.sources l,
    λ h. elim h.1 [
      | inl origin ↦
          links_of-source meta.home meta.sources l (IsWeb-is_safe_http_url l.url h.0) origin.0
            origin.1
      | inr home ↦
          let same = url_of l LinkKind.homepage meta.home home in
          links_of-home meta.home meta.sources l
            (subst (λ t. is_safe_http_url parse_url t ≡ true) same
              (IsWeb-is_safe_http_url l.url h.0))
            home
    ],
  )

  -- Whatever a chart declares, where its release becomes a resource the links of that are exactly
  -- these: to each of the chart's sources and to its home, where that text parses as an http or https
  -- URL with a host.
  pub links_iff :
      (rel : Release) (r : Resource) (l : Link)
      → resource_from_release parse_url rel ≡ some r
      → (meta : ChartMetadata) × (rel.metadata ≡ some meta)
        × (In l r.links ↔ IsOf meta.home meta.sources l)
  unfolding resource_from_release
  links_iff rel r l made = elim (Option-cases rel.metadata) [
    | inl missing ↦ let nothing : none ≡ some r = rw missing at made in absurd (ground arith)
    | inr (meta, there) ↦ elim (Option-cases rel.status) [
      | inl missing ↦
          let nothing : none ≡ some r = rw (there, missing) at made in absurd (ground arith)
      | inr (status, known) ↦
          let given : some (resource_of parse_url rel meta status) ≡ some r =
            rw (there, known) at made in
          let same : resource_of parse_url rel meta status ≡ r = cc in
          (
            meta,
            there,
            subst (λ x. In l x.links ↔ IsOf meta.home meta.sources l) same
                (resource_of-links rel meta status l),
          )
    ]
  ]
