-- ===== src/Links/Safe.antt =====
-- What `safeHref` lets through.
use kdelta.Prelude.{Option, some, ◌≡◌, ◌⊎◌, inl, inr, ◌↔◌, arith, Option-cases}
use kdelta.Text.{Text, js, text_eq_iff}
use kdelta.Links.{safe_href}

module _ (protocol_of : Text → Option Text) where
  -- The browser reads the URL, and as an http or https one.
  abbrev pub IsWebUrl : Text → Type 0
  IsWebUrl url = (protocol_of url ≡ some (js "http:")) ⊎ (protocol_of url ≡ some (js "https:"))

  -- `safeHref` gives the URL itself where that holds, and undefined for every other text.
  pub safe_href_iff :
      (url safe : Text) → (safe_href protocol_of url ≡ some safe) ↔ ((url ≡ safe) × IsWebUrl url)
  unfolding safe_href
  safe_href_iff url safe = elim (Option-cases (protocol_of url)) [
    | inl thrown ↦ (λ e. absurd (ground arith), λ h. absurd (ground arith))
    | inr (p, parsed) ↦ (
      (λ e. ground (arith, text_eq_iff p (js "http:"), text_eq_iff p (js "https:"))),
      λ h. ground (arith, text_eq_iff p (js "http:"), text_eq_iff p (js "https:")),
    )
  ]
