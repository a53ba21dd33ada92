-- ===== src/Roles/Held.antt =====
-- What `held` keeps by section: never the tier `none`, so an entry is there exactly if a tier is held.
use vantric.Prelude.{
  Bool, true, false, Option, some, List, [], ◌∷◌, ◌≡◌, refl, arith, if◌then◌else◌, Bool-cases, inl,
  inr, ◌<◌,
}
use vantric.Prelude.Text.{Text, same}
use vantric.Roles.{
  Tier, viewer, rank, at_least, basic, section_role, Held, tier_of, raise, raise_all, raise_named,
  bind_as, bind_role, bind_roles, grants_by_section,
}

-- `Boolean(held[id])`: no tier is an empty word
unfoldable pub has_entry : Held → Text → Bool
unfolding same
has_entry [] id = false
has_entry ((i, t) ∷ held) id = if same i id then true else has_entry held id

abbrev Real : Held → Type 0
Real [] = Unit
Real ((i, t) ∷ held) = (0 < rank t) × Real held

raise-Real : (held : Held) (id : Text) (t : Tier) → Real held → Real (raise held id t)
unfolding raise
raise-Real held id t h = ground arith

raise_all-Real :
    (held : Held) (ids : List Text) (t : Tier) → Real held → Real (raise_all held ids t)
unfolding raise_all
raise_all-Real held [] t h = h
raise_all-Real held (id ∷ ids) t h = raise_all-Real (raise held id t) ids t (raise-Real held id t h)

raise_named-Real :
    (held : Held) (named : Option (Text × Tier)) → Real held → Real (raise_named held named)
unfolding raise_named
raise_named-Real held Option.none h = h
raise_named-Real held (some (id, t)) h = raise-Real held id t h

bind_as-Real :
    (ids : List Text) (held : Held) (role : Text) (o : Option Tier)
    → Real held
    → Real (bind_as ids held role o)
unfolding bind_as
bind_as-Real ids held role (some t) h = raise_all-Real held ids t h
bind_as-Real ids held role Option.none h = raise_named-Real held (section_role role ids) h

bind_roles-Real :
    (ids : List Text) (held : Held) (roles : List Text)
    → Real held
    → Real (bind_roles ids held roles)
unfolding bind_roles bind_role
bind_roles-Real ids held [] h = h
bind_roles-Real ids held (role ∷ roles) h =
    bind_roles-Real ids (bind_role ids held role) roles (bind_as-Real ids held role (basic role) h)

has_entry_of_Real :
    (held : Held) (id : Text) → Real held → has_entry held id ≡ at_least (tier_of held id) viewer
unfolding has_entry tier_of at_least
has_entry_of_Real [] id h = refl
has_entry_of_Real ((i, t) ∷ held) id (real, h) = elim (Bool-cases (same i id)) [
  | inl e ↦ rw e (ground arith)
  | inr e ↦ rw e (has_entry_of_Real held id h)
]

-- A section has an entry exactly if the account may view it.
pub has_entry-grants_by_section :
    (roles ids : List Text) (id : Text)
    → has_entry (grants_by_section roles ids) id
      ≡ at_least (tier_of (grants_by_section roles ids) id) viewer
unfolding grants_by_section
has_entry-grants_by_section roles ids id =
    has_entry_of_Real (bind_roles ids [] roles) id (bind_roles-Real ids [] roles tt)
