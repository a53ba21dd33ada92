-- ===== src/Roles/Tests.antt =====
-- Concrete role bindings for the theorems on grants.
use vantric.Prelude.{some, List, [], ◌∷◌, ◌≡◌, refl, ◌↔◌, true, false}
use vantric.Prelude.Text.{Text, text, same, among}
use vantric.Roles.{Tier, viewer, editor, admin, tier_of, grants_by_section, use_permissions}
use vantric.Roles.Grants.{strongest, tier_of-grants_by_section, tier_of-grants_outside}
use vantric.Roles.Allowed.{SomeGrants, use_permissions_iff}

abbrev bound : List Text
bound = text "viewer" ∷ text "compute.admin" ∷ []

abbrev sections : List Text
sections = text "compute" ∷ text "network" ∷ []

tier_of-grants_by_section_example :
    tier_of (grants_by_section bound sections) (text "compute")
    ≡ strongest sections (text "compute") bound
tier_of-grants_by_section_example = tier_of-grants_by_section bound sections (text "compute")

storage_outside : among (text "storage") sections ≡ false
unfolding among same text
storage_outside = refl

tier_of-grants_outside_example :
    tier_of (grants_by_section bound sections) (text "storage") ≡ Tier.none
tier_of-grants_outside_example =
    tier_of-grants_outside bound sections (text "storage") storage_outside

use_permissions_iff_example :
    (((use_permissions bound sections (some (text "compute"))).can_view ≡ true)
      ↔ SomeGrants sections (text "compute") viewer bound)
    × (((use_permissions bound sections (some (text "compute"))).can_edit ≡ true)
        ↔ SomeGrants sections (text "compute") editor bound)
    × (((use_permissions bound sections (some (text "compute"))).can_admin ≡ true)
        ↔ SomeGrants sections (text "compute") admin bound)
use_permissions_iff_example = use_permissions_iff bound sections (text "compute")
