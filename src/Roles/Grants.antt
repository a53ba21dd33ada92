-- ===== src/Roles/Grants.antt =====
-- What the loop over the roles computes: on each section, the strongest tier that some role grants.
use vantric.Prelude.{
  true, false, Option, some, List, [], ◌∷◌, ◌++◌, ◌≡◌, refl, sym, ap, ◌∙◌, arith, ltb,
  if◌then◌else◌,
}
use vantric.Prelude.Text.{Text, same, same_iff, among}
use vantric.Roles.{
  Tier, none, rank, basic, section_role, Held, tier_of, raise, raise_all, raise_named, bind_as,
  bind_role, bind_roles, grants_by_section,
}

-- The stronger of two tiers.
abbrev pub higher : Tier → Tier → Tier
higher a b = if ltb (rank a) (rank b) then b else a

-- What a section role grants on the section `id`.
abbrev granted_named : Text → Option (Text × Tier) → Tier
granted_named id Option.none = none
granted_named id (some (section, tier)) = if same section id then tier else none

abbrev granted_as : List Text → Text → Text → Option Tier → Tier
granted_as section_ids id role (some tier) = if among id section_ids then tier else none
granted_as section_ids id role Option.none = granted_named id (section_role role section_ids)

-- What one role grants on a section, on its own: a basic role grants its tier on every section of
-- the console, and a section role on the one that it names.
abbrev pub granted : List Text → Text → Text → Tier
granted section_ids id role = granted_as section_ids id role (basic role)

-- The strongest tier that some role of the account grants on a section.
abbrev pub strongest : List Text → Text → List Text → Tier
strongest section_ids id [] = none
strongest section_ids id (role ∷ roles) =
    higher (granted section_ids id role) (strongest section_ids id roles)

tier_of-raise :
    (held : Held) (id j : Text) (t : Tier)
    → tier_of (raise held id t) j
      ≡ (if same id j then higher (tier_of held j) t else tier_of held j)
unfolding raise tier_of
tier_of-raise held id j t = ground (arith, same_iff id j)

higher_self : (a t : Tier) → higher (higher a t) t ≡ higher a t
higher_self a t = ground arith

higher_assoc : (a b c : Tier) → higher (higher a b) c ≡ higher a (higher b c)
higher_assoc a b c = ground arith

tier_of-raise_all :
    (held : Held) (ids : List Text) (j : Text) (t : Tier)
    → tier_of (raise_all held ids t) j
      ≡ (if among j ids then higher (tier_of held j) t else tier_of held j)
unfolding raise_all among
tier_of-raise_all held [] j t = refl
tier_of-raise_all held (id ∷ ids) j t = ground (
  arith,
  tier_of-raise_all (raise held id t) ids j t,
  tier_of-raise held id j t,
  same_iff id j,
  same_iff j id,
  higher_self (tier_of held j) t,
)

higher_none : (a : Tier) → higher a none ≡ a
higher_none a = ground arith

tier_of-raise_named :
    (held : Held) (o : Option (Text × Tier)) (j : Text)
    → tier_of (raise_named held o) j ≡ higher (tier_of held j) (granted_named j o)
unfolding raise_named
tier_of-raise_named held Option.none j = sym (higher_none (tier_of held j))
tier_of-raise_named held (some (id, t)) j =
    ground (arith, tier_of-raise held id j t, higher_none (tier_of held j))

tier_of-bind_as :
    (ids : List Text) (held : Held) (role : Text) (o : Option Tier) (j : Text)
    → tier_of (bind_as ids held role o) j ≡ higher (tier_of held j) (granted_as ids j role o)
unfolding bind_as
tier_of-bind_as ids held role (some t) j =
    ground (arith, tier_of-raise_all held ids j t, higher_none (tier_of held j))
tier_of-bind_as ids held role Option.none j = tier_of-raise_named held (section_role role ids) j

tier_of-bind_roles :
    (ids : List Text) (held : Held) (roles : List Text) (j : Text)
    → tier_of (bind_roles ids held roles) j ≡ higher (tier_of held j) (strongest ids j roles)
unfolding bind_roles bind_role
tier_of-bind_roles ids held [] j = sym (higher_none (tier_of held j))
tier_of-bind_roles ids held (role ∷ roles) j =
    tier_of-bind_roles ids (bind_role ids held role) roles j
    ∙ ap (λ t. higher t (strongest ids j roles)) (tier_of-bind_as ids held role (basic role) j)
    ∙ higher_assoc (tier_of held j) (granted ids j role) (strongest ids j roles)

higher_none_left : (t : Tier) → higher none t ≡ t
higher_none_left t = ground arith

-- On each section an account holds the strongest tier that any of its roles grants there.
pub tier_of-grants_by_section :
    (roles section_ids : List Text) (id : Text)
    → tier_of (grants_by_section roles section_ids) id ≡ strongest section_ids id roles
unfolding grants_by_section tier_of
tier_of-grants_by_section roles section_ids id =
    tier_of-bind_roles section_ids [] roles id ∙ higher_none_left (strongest section_ids id roles)

section_role-among :
    (role : Text) (ids : List Text) (id : Text) (t : Tier)
    → section_role role ids ≡ some (id, t)
    → among id ids ≡ true
unfolding section_role
section_role-among role ids id t h = ground arith

granted_named_outside :
    (ids : List Text) (id role : Text) (o : Option (Text × Tier))
    → among id ids ≡ false
    → section_role role ids ≡ o
    → granted_named id o ≡ none
granted_named_outside ids id role Option.none h e = refl
granted_named_outside ids id role (some (section, t)) h e =
    ground (arith, section_role-among role ids section t e, same_iff section id)

granted_as_outside :
    (ids : List Text) (id role : Text) (o : Option Tier)
    → among id ids ≡ false
    → granted_as ids id role o ≡ none
granted_as_outside ids id role (some t) h = rw h
granted_as_outside ids id role Option.none h =
    granted_named_outside ids id role (section_role role ids) h refl

strongest_outside :
    (ids : List Text) (id : Text) (roles : List Text)
    → among id ids ≡ false
    → strongest ids id roles ≡ none
strongest_outside ids id [] h = refl
strongest_outside ids id (role ∷ roles) h =
    rw (granted_as_outside ids id role (basic role) h, strongest_outside ids id roles h)

-- Nothing is held on a section that the console does not have, whatever the role names say.
pub tier_of-grants_outside :
    (roles section_ids : List Text) (id : Text)
    → among id section_ids ≡ false
    → tier_of (grants_by_section roles section_ids) id ≡ none
tier_of-grants_outside roles section_ids id h =
    tier_of-grants_by_section roles section_ids id ∙ strongest_outside section_ids id roles h

higher_comm : (a b : Tier) → higher a b ≡ higher b a
higher_comm a b = ground arith

strongest-append :
    (ids : List Text) (id : Text) (qs rs : List Text)
    → strongest ids id (qs ++ rs) ≡ higher (strongest ids id qs) (strongest ids id rs)
strongest-append ids id [] rs = sym (higher_none_left (strongest ids id rs))
strongest-append ids id (q ∷ qs) rs =
    ap (higher (granted ids id q)) (strongest-append ids id qs rs)
    ∙ sym (higher_assoc (granted ids id q) (strongest ids id qs) (strongest ids id rs))

-- The order of the role bindings does not matter: two runs of them can be swapped.
pub grants_by_section-append_comm :
    (qs rs section_ids : List Text) (id : Text)
    → tier_of (grants_by_section (qs ++ rs) section_ids) id
      ≡ tier_of (grants_by_section (rs ++ qs) section_ids) id
grants_by_section-append_comm qs rs ids id =
    tier_of-grants_by_section (qs ++ rs) ids id
    ∙ strongest-append ids id qs rs
    ∙ higher_comm (strongest ids id qs) (strongest ids id rs)
    ∙ sym (strongest-append ids id rs qs)
    ∙ sym (tier_of-grants_by_section (rs ++ qs) ids id)
