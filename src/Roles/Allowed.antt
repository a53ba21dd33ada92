-- ===== src/Roles/Allowed.antt =====
-- Who is allowed what: a permission is offered exactly if some role of the account grants its tier.
use vantric.Prelude.{
  ◌≤◌, true, false, some, List, [], ◌∷◌, ◌≡◌, ◌↔◌, inl, inr, arith, leb, leb→le, ◌⊎◌, Bool-cases,
}
use vantric.Prelude.Text.{Text}
use vantric.Roles.{
  Tier, viewer, editor, admin, rank, at_least, tier_of, grants_by_section, tier_here,
  use_permissions,
}
use vantric.Roles.Grants.{higher, granted, strongest, tier_of-grants_by_section}

-- Some role of the list grants the tier `need`, or a stronger one, on the section.
abbrev pub SomeGrants : List Text → Text → Tier → List Text → Type 0
SomeGrants ids id need [] = ⊥
SomeGrants ids id need (role ∷ roles) =
    (rank need ≤ rank (granted ids id role)) ⊎ SomeGrants ids id need roles

strongest_sound :
    (ids : List Text) (id : Text) (need : Tier) (roles : List Text)
    → 1 ≤ rank need
    → rank need ≤ rank (strongest ids id roles)
    → SomeGrants ids id need roles
strongest_sound ids id need [] some_need h = omega arith
strongest_sound ids id need (role ∷ roles) some_need h =
    elim (Bool-cases (leb (rank need) (rank (granted ids id role)))) [
      | inl here ↦ inl (leb→le _ _ here)
      | inr later ↦ inr (
          strongest_sound ids id need roles some_need
            (unless_first (granted ids id role) (strongest ids id roles) need later h))
    ]
  where
    unless_first :
        (a b need : Tier)
        → leb (rank need) (rank a) ≡ false
        → rank need ≤ rank (higher a b)
        → rank need ≤ rank b
    unless_first a b need later h = ground arith

higher_left : (a b : Tier) → rank a ≤ rank (higher a b)
higher_left a b = ground arith

higher_right : (a b : Tier) → rank b ≤ rank (higher a b)
higher_right a b = ground arith

strongest_complete :
    (ids : List Text) (id : Text) (need : Tier) (roles : List Text)
    → SomeGrants ids id need roles
    → rank need ≤ rank (strongest ids id roles)
strongest_complete ids id need [] h = absurd h
strongest_complete ids id need (role ∷ roles) (inl h) =
    omega (arith, higher_left (granted ids id role) (strongest ids id roles))
strongest_complete ids id need (role ∷ roles) (inr h) = omega (
  arith,
  strongest_complete ids id need roles h,
  higher_right (granted ids id role) (strongest ids id roles),
)

at_least_iff : (held need : Tier) → (at_least held need ≡ true) ↔ (rank need ≤ rank held)
unfolding at_least
at_least_iff held need = ground arith

pub allowed_iff :
    (roles ids : List Text) (here : Text) (need : Tier)
    → 1 ≤ rank need
    → (at_least (tier_of (grants_by_section roles ids) here) need ≡ true)
      ↔ SomeGrants ids here need roles
allowed_iff roles ids here need some_need =
    let e = tier_of-grants_by_section roles ids here in
    (
      λ h. strongest_sound ids here need roles some_need (rw e at ((at_least_iff _ _).0 h)),
      λ h. (at_least_iff _ _).1 (rw e (strongest_complete ids here need roles h)),
    )

-- On a page of a section, each permission is offered exactly if some role grants its tier there.
pub use_permissions_iff :
    (roles section_ids : List Text) (here : Text)
    → (((use_permissions roles section_ids (some here)).can_view ≡ true)
        ↔ SomeGrants section_ids here viewer roles)
      × (((use_permissions roles section_ids (some here)).can_edit ≡ true)
          ↔ SomeGrants section_ids here editor roles)
      × (((use_permissions roles section_ids (some here)).can_admin ≡ true)
          ↔ SomeGrants section_ids here admin roles)
unfolding use_permissions tier_here
use_permissions_iff roles ids here = (
  allowed_iff roles ids here viewer (omega arith),
  allowed_iff roles ids here editor (omega arith),
  allowed_iff roles ids here admin (omega arith),
)
