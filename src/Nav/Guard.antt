-- ===== src/Nav/Guard.antt =====
-- frontend/src/components/RequireRole.tsx on the sections of the nav: which accounts a guarded page is
-- shown to, and the role that a refusal names.
use vantric.Prelude.{
  ◌≡◌, refl, sym, Bool, true, false, ◌&&◌, Option, none, some, List, [], ◌∷◌, ◌++◌, ◌≤◌, leb,
  leb→le, every, In, every-In, and_iff, if◌then◌else◌, inl, inr, ◌↔◌,
}
use vantric.Prelude.Text.{Text, text, same, among, starts}
use vantric.Roles.{
  Tier, editor, admin, rank, use_permissions, basic, section_role, named_tier, cut_dot,
}
use vantric.Roles.Grants.{granted}
use vantric.Roles.Allowed.{SomeGrants, use_permissions_iff}
use vantric.Nav.{Section}
use vantric.Nav.Table.{sections, section_ids, section_for}
use vantric.Nav.Find.{section_for_unique}

-- `sectionFor(location.pathname)?.id`
unfoldable pub section_id : Option Section → Option Text
section_id none = none
section_id (some s) = some s.id

-- `allowed`: what `usePermissions` says of the page's own section
unfoldable pub is_allowed : (owner_only : Bool) → (pathname : Text) → List Text → Bool
unfolding section_for section_id
is_allowed owner_only pathname roles =
    let permissions = use_permissions roles section_ids (section_id (section_for pathname)) in
    if owner_only then permissions.can_admin else permissions.can_edit

unfoldable pub section_name : Option Section → Text
unfolding text
section_name none = text "this section"
section_name (some s) = s.id

-- `need`
unfoldable pub needed_role : (owner_only : Bool) → (pathname : Text) → Text
unfolding section_for section_name text
needed_role owner_only pathname =
    section_name (section_for pathname)
    ++ (text "." ++ (if owner_only then text "admin" else text "editor"))

abbrev needed_tier : Bool → Tier
needed_tier owner_only = if owner_only then admin else editor

-- A guarded page of a section is shown exactly if some role grants the tier of the guard there.
pub is_allowed_iff :
    (owner_only : Bool) (pathname : Text) (s : Section) (roles : List Text)
    → In s sections
    → starts s.prefix pathname ≡ true
    → (is_allowed owner_only pathname roles ≡ true)
      ↔ SomeGrants section_ids s.id (needed_tier owner_only) roles
unfolding is_allowed section_id
is_allowed_iff true pathname s roles member h =
    rw (section_for_unique pathname s member h) (use_permissions_iff roles section_ids s.id).2
is_allowed_iff false pathname s roles member h =
    rw (section_for_unique pathname s member h) (use_permissions_iff roles section_ids s.id).1

SomeGrants-of_In :
    (ids : List Text) (id : Text) (need : Tier) (role : Text) (roles : List Text)
    → In role roles
    → rank need ≤ rank (granted ids id role)
    → SomeGrants ids id need roles
SomeGrants-of_In ids id need role [] member h = absurd member
SomeGrants-of_In ids id need role (r ∷ roles) (inl e) h = inl (rw (sym e) h)
SomeGrants-of_In ids id need role (r ∷ roles) (inr member) h =
    inr (SomeGrants-of_In ids id need role roles member h)

-- The role of a tier on a section, spelt as the guard spells it, grants that tier there.
abbrev names_work : Section → Bool
names_work s =
    leb (rank admin) (rank (granted section_ids s.id (s.id ++ (text "." ++ text "admin"))))
    && leb (rank editor) (rank (granted section_ids s.id (s.id ++ (text "." ++ text "editor"))))

sections-names_work : every names_work sections ≡ true
unfolding basic section_role named_tier cut_dot among same text
sections-names_work = refl

needed-granted :
    (owner_only : Bool) (s : Section)
    → In s sections
    → rank (needed_tier owner_only)
      ≤ rank (
          granted section_ids s.id
            (s.id ++ (text "." ++ (if owner_only then text "admin" else text "editor"))))
needed-granted true s member =
    leb→le _ _ (((and_iff _ _).0 (every-In names_work s sections sections-names_work member)).0)
needed-granted false s member =
    leb→le _ _ (((and_iff _ _).0 (every-In names_work s sections sections-names_work member)).1)

-- A refusal names a role that works: an account that holds the role which the guard of a page asks for
-- is shown that page, on every address of every section.
pub needed_role_opens :
    (owner_only : Bool) (pathname : Text) (s : Section) (roles : List Text)
    → In s sections
    → starts s.prefix pathname ≡ true
    → In (needed_role owner_only pathname) roles
    → is_allowed owner_only pathname roles ≡ true
unfolding needed_role section_name
needed_role_opens owner_only pathname s roles member h holds =
    (is_allowed_iff owner_only pathname s roles member h).1 (
      SomeGrants-of_In section_ids s.id (needed_tier owner_only)
        (s.id ++ (text "." ++ (if owner_only then text "admin" else text "editor"))) roles
        (rw (section_for_unique pathname s member h) at holds) (needed-granted owner_only s member))
