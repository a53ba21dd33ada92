-- ===== src/OsIdentity/Named.antt =====
-- What a derived identity says: a codename is never a wrong one, and there is always something to show.
use vantric.Prelude.{
  ◌≡◌, refl, ap, sym, ◌∙◌, subst, Bool, true, false, not, ◌&&◌, Option, none, some, List, [], ◌∷◌,
  ◌⊎◌, inl, inr, In, every, every-In, Bool-cases, and_iff, arith, filter_by,
}
use vantric.Prelude.Pattern.{Place, search_in, seq, boundary, word}
use vantric.Prelude.Text.{Text, text, same, same_sound, is_empty, join, trim, split}
use vantric.OsIdentity.Matchers.{Matcher, matchers, version_of}
use vantric.OsIdentity.{
  OsIdentity, Release, release, releases, ubuntu_releases, codename_of, proper_name, label_parts,
  identity_known, identity, if_found, or_other, ubuntu_from_codename, identified, first_identity,
  os_identity, os_tag, identity_of_tag, or_else, os_from_tags, title_of, template_identity,
  first_line,
}

-- The table has the codename for that version of that family.
abbrev pub KnownCodename : OsIdentity → Type 0
KnownCodename id = (id.codename ≡ []) ⊎ In (release id.family id.version id.codename) releases

abbrev pub Good : OsIdentity → Type 0
Good id = (is_empty id.label ≡ false) × KnownCodename id

abbrev GoodIfAny : Option OsIdentity → Type 0
GoodIfAny none = Unit
GoodIfAny (some id) = Good id

abbrev pub Found : Text → Text → List Release → Text → Type 0
Found family version rs codename = (codename ≡ []) ⊎ In (release family version codename) rs

Found-later :
    (family version : Text) (r : Release) (rs : List Release) (codename : Text)
    → Found family version rs codename
    → Found family version (r ∷ rs) codename
Found-later family version r rs codename (inl e) = inl e
Found-later family version r rs codename (inr member) = inr (inr member)

Found-here :
    (family version : Text) (r : Release) (rs : List Release)
    → r.family ≡ family
    → r.version ≡ version
    → Found family version (r ∷ rs) r.codename
Found-here family version r rs e k = inr (
    inl (
      ap (λ f. release f version r.codename) (sym e)
      ∙ ap (λ v. release r.family v r.codename) (sym k)))

codename_of_here :
    (family version : Text) (r : Release) (rs : List Release)
    → (same r.family family && same r.version version) ≡ true
    → codename_of family version (r ∷ rs) ≡ r.codename
unfolding codename_of
codename_of_here family version r rs e = rw e refl

codename_of_later :
    (family version : Text) (r : Release) (rs : List Release)
    → (same r.family family && same r.version version) ≡ false
    → codename_of family version (r ∷ rs) ≡ codename_of family version rs
unfolding codename_of
codename_of_later family version r rs e = rw e refl

codename_of_nil : (family version : Text) → codename_of family version [] ≡ []
unfolding codename_of
codename_of_nil family version = refl

codename_of-Found :
    (family version : Text) (rs : List Release)
    → Found family version rs (codename_of family version rs)
codename_of-Found family version [] = inl (codename_of_nil family version)
codename_of-Found family version (r ∷ rs) =
    elim (Bool-cases (same r.family family && same r.version version)) [
      | inl e ↦
          subst (Found family version (r ∷ rs)) (sym (codename_of_here family version r rs e)) (
            Found-here family version r rs (same_sound _ _ (((and_iff _ _).0 e).0))
              (same_sound _ _ (((and_iff _ _).0 e).1)))
      | inr e ↦
          subst (Found family version (r ∷ rs)) (sym (codename_of_later family version r rs e))
            (Found-later family version r rs _ (codename_of-Found family version rs))
    ]

joined_not_empty :
    (proper version known : Text)
    → is_empty proper ≡ false
    → is_empty (
        join
          (text " ")
          (filter_by (λ part. not (is_empty part)) (label_parts proper version known)))
      ≡ false
unfolding join
joined_not_empty [] version known h = absurd (cc)
joined_not_empty (c ∷ proper) [] [] h = refl
joined_not_empty (c ∷ proper) [] (d ∷ known) h = refl
joined_not_empty (c ∷ proper) (d ∷ version) known h = refl

proper_name_not_empty :
    (family : Text) → is_empty family ≡ false → is_empty (proper_name family) ≡ false
unfolding proper_name text
proper_name_not_empty family h = ground (arith)

identity_known-label :
    (family version known : Text)
    → is_empty family ≡ false
    → is_empty (identity_known family version known).label ≡ false
unfolding identity_known
identity_known-label family version known h =
    joined_not_empty (proper_name family) version known (proper_name_not_empty family h)

identity-Good : (family version : Text) → is_empty family ≡ false → Good (identity family version)
unfolding identity identity_known
identity-Good family version h = (
  joined_not_empty (proper_name family) version (codename_of family version releases)
      (proper_name_not_empty family h),
  codename_of-Found family version releases,
)

known_ubuntu :
    (version codename : Text)
    → In (release (text "Ubuntu") version codename) releases
    → Good (identity_known (text "Ubuntu") version codename)
unfolding identity_known text
known_ubuntu version codename member = (
  joined_not_empty (proper_name (text "Ubuntu")) version codename
      (proper_name_not_empty (text "Ubuntu") refl),
  inr member,
)

-- The releases of Ubuntu are the ones that the table has for it.
ubuntu-GoodIfAny :
    (name : Text) (rs : List Release)
    → ((r : Release) → In r rs → In (release (text "Ubuntu") r.version r.codename) releases)
    → GoodIfAny (ubuntu_from_codename name rs)
unfolding ubuntu_from_codename
ubuntu-GoodIfAny name [] h = tt
ubuntu-GoodIfAny name (r ∷ rs) h =
    either (search_in (seq boundary (seq (word r.codename) boundary)) name)
      (identity_known (text "Ubuntu") r.version r.codename) (ubuntu_from_codename name rs)
      (known_ubuntu r.version r.codename (h r (inl refl)))
      (ubuntu-GoodIfAny name rs (λ s member. h s (inr member)))
  where
    either :
        (o : Option Place) (id : OsIdentity) (other : Option OsIdentity)
        → Good id
        → GoodIfAny other
        → GoodIfAny (if_found o id other)
    either none id other good goods = goods
    either (some m) id other good goods = good

all_ubuntu : every (λ r. same r.family (text "Ubuntu")) ubuntu_releases ≡ true
unfolding same text
all_ubuntu = refl

ubuntu-In-releases :
    (r : Release)
    → In r ubuntu_releases
    → In (release (text "Ubuntu") r.version r.codename) releases
ubuntu-In-releases r member =
    subst (λ f. In (release f r.version r.codename) releases)
      (same_sound _ _
        (every-In (λ s. same s.family (text "Ubuntu")) r ubuntu_releases all_ubuntu member))
      (inr (inr (inr (inr (inr member)))))

identified-GoodIfAny :
    (m : Matcher) (o : Option Place) (other : Option OsIdentity)
    → is_empty m.family ≡ false
    → GoodIfAny other
    → GoodIfAny (identified m o other)
identified-GoodIfAny m none other h goods = goods
identified-GoodIfAny m (some place) other h goods =
    identity-Good m.family (version_of m.version place) h

not-true : (b : Bool) → not b ≡ true → b ≡ false
not-true b h = ground arith

first_identity-GoodIfAny :
    (name : Text) (ms : List Matcher)
    → every (λ m. not (is_empty m.family)) ms ≡ true
    → GoodIfAny (first_identity name ms)
unfolding first_identity
first_identity-GoodIfAny name [] h = ubuntu-GoodIfAny name ubuntu_releases ubuntu-In-releases
first_identity-GoodIfAny name (m ∷ ms) h =
    identified-GoodIfAny m (search_in m.pattern name) (first_identity name ms)
      (not-true _ (((and_iff _ _).0 h).0))
      (first_identity-GoodIfAny name ms (((and_iff _ _).0 h).1))

families_named : every (λ m. not (is_empty m.family)) matchers ≡ true
unfolding text
families_named = refl

os_identity-GoodIfAny : (name : Text) → GoodIfAny (os_identity name)
unfolding os_identity
os_identity-GoodIfAny [] = tt
os_identity-GoodIfAny (c ∷ name) = first_identity-GoodIfAny (c ∷ name) matchers families_named

tag-GoodIfAny : (o : Option Text) → GoodIfAny (identity_of_tag o)
tag-GoodIfAny none = tt
tag-GoodIfAny (some value) = os_identity-GoodIfAny value

or_else-GoodIfAny : (o p : Option OsIdentity) → GoodIfAny o → GoodIfAny p → GoodIfAny (or_else o p)
or_else-GoodIfAny none p h k = k
or_else-GoodIfAny (some id) p h k = h

os_from_tags-GoodIfAny : (tags : List Text) → GoodIfAny (os_from_tags tags)
unfolding os_from_tags
os_from_tags-GoodIfAny [] = tt
os_from_tags-GoodIfAny (tag ∷ tags) =
    or_else-GoodIfAny (identity_of_tag (os_tag tag)) (os_from_tags tags)
      (tag-GoodIfAny (os_tag tag)) (os_from_tags-GoodIfAny tags)

title_not_empty :
    (written name : Text) (o : Option OsIdentity)
    → is_empty name ≡ false
    → GoodIfAny o
    → is_empty (title_of written name o) ≡ false
title_not_empty [] name none h good = h
title_not_empty (c ∷ written) name none h good = refl
title_not_empty (c ∷ written) name (some id) h good = refl
title_not_empty [] name (some id) h good = elim (Bool-cases (is_empty id.version)) [
  | inl e ↦ rw e h
  | inr e ↦ rw e good.0
]

known_codename :
    (o : Option OsIdentity)
    → GoodIfAny o
    → Found (or_other o).family (or_other o).version releases (or_other o).codename
known_codename none good = inl refl
known_codename (some id) good = good.1

-- Whatever its description and its tags are, a template that has a name is shown under a title, and
-- with a codename only if the table has it for the version and the family that are shown.
pub template_identity_named :
    (name description : Text) (tags : List Text)
    → is_empty name ≡ false
    → (is_empty (template_identity name description tags).title ≡ false)
      × Found
          (template_identity name description tags).family
          (template_identity name description tags).version
          releases
          (template_identity name description tags).codename
unfolding template_identity
template_identity_named name description tags h =
    let written = trim (first_line (split 10 description)) in
    let good = or_else-GoodIfAny (os_identity name) _ (os_identity-GoodIfAny name) (
      or_else-GoodIfAny (os_from_tags tags) _ (os_from_tags-GoodIfAny tags)
        (os_identity-GoodIfAny written)) in
    (title_not_empty written name _ h good, known_codename _ good)
