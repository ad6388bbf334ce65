-- ===== src/Tests/Labels.antt =====
-- Labels and badges.
use kdelta.Prelude.{◌≡◌, refl}
use kdelta.Text.{js}
use kdelta.Api.ChangeType
use kdelta.Enums.{enum_label}
use kdelta.Links.{link_label}

label_tests :
    (enum_label ChangeType.names 8 ≡ js "default changed")
    × (enum_label ChangeType.names 11 ≡ js "unknown")
    × (link_label 6 ≡ js "migration guide")
    × (link_label 0 ≡ js "link")
    × (link_label 9 ≡ js "link")
unfolding enum_label ChangeType.names link_label js
label_tests = (refl, refl, refl, refl, refl)
