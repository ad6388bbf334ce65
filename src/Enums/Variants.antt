-- ===== src/Enums/Variants.antt =====
-- The variants of the badges.
use kdelta.Prelude.{ℕ, ◌≤◌, ◌≡◌, ◌⊎◌, ◌↔◌, arith}
use kdelta.View.{Variant, default, secondary, destructive, outline}
use kdelta.Api.ChangeType
use kdelta.Api.ImpactSeverity
use kdelta.Enums.{change_badge_variant, severity_variant}

-- How strongly a variant stands out.
unfoldable pub emphasis : Variant → ℕ
emphasis outline = 0
emphasis secondary = 1
emphasis default = 2
emphasis destructive = 3

-- Up to the highest severity, a higher one never has a weaker badge.
severity_variant_mono :
    (a b : ℕ)
    → a ≤ b
    → b ≤ ImpactSeverity.critical
    → emphasis (severity_variant a) ≤ emphasis (severity_variant b)
unfolding severity_variant emphasis
severity_variant_mono a b h k = ground arith

-- The badge of a change is destructive exactly for the four types that can break an upgrade.
change_badge_variant_iff :
    (type : ℕ)
    → (change_badge_variant type ≡ destructive) ↔ (
        (type ≡ ChangeType.breaking)
        ⊎ (type ≡ ChangeType.security)
        ⊎ (type ≡ ChangeType.removed)
        ⊎ (type ≡ ChangeType.default_changed))
unfolding change_badge_variant
change_badge_variant_iff type = (λ e. ground arith, λ e. ground arith)
