-- ===== src/Roles.antt =====
-- frontend/src/roles.ts, and the permissions that frontend/src/user.ts derives from it: what the
-- role bindings of an account grant on each section of the console.
pub mod Allowed
pub mod Grants
pub mod Held
pub mod Tests
use vantric.Prelude.{
  ℕ, Bool, true, false, not, ◌&&◌, ◌||◌, Option, some, List, [], ◌∷◌, ◌++◌, ◌-◌, map, ltb, leb,
  ◌==◌, if◌then◌else◌,
}
use vantric.Prelude.Text.{Text, text, same, among}

pub data Tier : Type 0 where
  none viewer editor admin : Tier

abbrev pub rank : Tier → ℕ
rank none = 0
rank viewer = 1
rank editor = 2
rank admin = 3

unfoldable pub at_least : Tier → Tier → Bool
at_least held need = leb (rank need) (rank held)

-- `basic[role]`
unfoldable pub basic : Text → Option Tier
unfolding same text
basic role =
    if same role (text "owner")
    then some admin
    else if same role (text "editor")
    then some editor
    else if same role (text "viewer")
    then some viewer
    else Option.none

-- `tier in rank && tier !== 'none'`, with the tier that the word names
unfoldable pub named_tier : Text → Option Tier
unfolding same text
named_tier word =
    if same word (text "viewer")
    then some viewer
    else if same word (text "editor")
    then some editor
    else if same word (text "admin")
    then some admin
    else Option.none

-- `role.slice(0, dot)` and `role.slice(dot + 1)` for the first dot, if there is one
unfoldable pub cut_dot : Text → Option (Text × Text)
cut_dot [] = Option.none
cut_dot (c ∷ s) =
    let rest = cut_dot s in
    if c == b'.'
    then some ([], s)
    else elim rest [ Option.none ↦ Option.none | some (before, after) ↦ some (c ∷ before, after) ]

-- A section role as the section and the tier that it raises.
unfoldable pub section_role : Text → List Text → Option (Text × Tier)
unfolding cut_dot named_tier among
section_role role section_ids = elim (cut_dot role) [
  | Option.none ↦ Option.none
  | some (id, word) ↦ elim (named_tier word) [
    | Option.none ↦ Option.none
    | some tier ↦ if among id section_ids then some (id, tier) else Option.none
  ]
]

-- `held`: the tiers by section id, the latest first. A section that is missing holds `none`.
abbrev pub Held : Type 0
Held = List (Text × Tier)

unfoldable pub tier_of : Held → Text → Tier
unfolding same
tier_of [] id = none
tier_of ((i, t) ∷ held) id = if same i id then t else tier_of held id

unfoldable pub raise : Held → Text → Tier → Held
unfolding tier_of
raise held id tier = if ltb (rank (tier_of held id)) (rank tier) then (id, tier) ∷ held else held

-- `for (const id of sectionIds) raise(id, tier)`
unfoldable pub raise_all : Held → List Text → Tier → Held
unfolding raise
raise_all held [] tier = held
raise_all held (id ∷ ids) tier = raise_all (raise held id tier) ids tier

-- The raise of a section role, if the word is one.
unfoldable pub raise_named : Held → Option (Text × Tier) → Held
unfolding raise
raise_named held Option.none = held
raise_named held (some (id, tier)) = raise held id tier

-- One round of the loop over the roles; `as_basic` is `basic[role]`.
unfoldable pub bind_as : List Text → Held → Text → Option Tier → Held
unfolding section_role raise_named raise_all
bind_as section_ids held role (some as_basic) = raise_all held section_ids as_basic
bind_as section_ids held role Option.none = raise_named held (section_role role section_ids)

unfoldable pub bind_role : List Text → Held → Text → Held
unfolding basic bind_as
bind_role section_ids held role = bind_as section_ids held role (basic role)

unfoldable pub bind_roles : List Text → Held → List Text → Held
unfolding bind_role
bind_roles section_ids held [] = held
bind_roles section_ids held (role ∷ roles) =
    bind_roles section_ids (bind_role section_ids held role) roles

unfoldable pub grants_by_section : List Text → List Text → Held
unfolding bind_roles
grants_by_section roles section_ids = bind_roles section_ids [] roles

-- What `usePermissions` returns; `here` is the section of the page, if it belongs to one.
pub record Permissions : Type 0 where
  pub tier : Tier
  pub held : Held
  pub can_view : Bool
  pub can_edit : Bool
  pub can_admin : Bool

pub tier_here : Held → Option Text → Tier
unfolding tier_of
tier_here held Option.none = none
tier_here held (some here) = tier_of held here

pub use_permissions : List Text → List Text → Option Text → Permissions
unfolding at_least grants_by_section tier_here
use_permissions roles section_ids here =
    let held = grants_by_section roles section_ids in
    let tier = tier_here held here in
    record {
      tier = tier;
      held = held;
      can_view = at_least tier viewer;
      can_edit = at_least tier editor;
      can_admin = at_least tier admin;
    }
