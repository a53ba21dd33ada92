-- ===== src/OsIdentity.antt =====
-- frontend/src/osIdentity.ts: which operating system a template is, from its name, its tags or the first
-- line of its description.
pub mod Matchers
pub mod Named
pub mod Tests
use vantric.Prelude.{
  ℕ, Bool, true, false, not, Option, none, some, List, [], ◌∷◌, ◌++◌, filter_by, if◌then◌else◌,
  ◌==◌, ◌||◌, ◌&&◌,
}
use vantric.Prelude.Pattern.{Pattern, boundary, seq, word, Place, search_in}
use vantric.Prelude.Text.{Text, text, same, is_empty, trim, split, join}
use vantric.OsIdentity.Matchers.{Matcher, matchers, version_of}

pub record OsIdentity : Type 0 where
  pub family : Text
  pub version : Text
  pub codename : Text
  pub label : Text

-- `codenames`, row by row, the rows of a family in their order
pub record Release : Type 0 where
  pub family : Text
  pub version : Text
  pub codename : Text

abbrev pub release : Text → Text → Text → Release
release family version codename = record { family = family; version = version; codename = codename }

abbrev pub ubuntu_releases : List Release
ubuntu_releases =
    release (text "Ubuntu") (text "20.04") (text "focal")
    ∷ release (text "Ubuntu") (text "22.04") (text "jammy")
    ∷ release (text "Ubuntu") (text "24.04") (text "noble")
    ∷ release (text "Ubuntu") (text "24.10") (text "oracular")
    ∷ release (text "Ubuntu") (text "25.04") (text "plucky")
    ∷ release (text "Ubuntu") (text "26.04") (text "resolute")
    ∷ []

abbrev pub releases : List Release
releases =
    release (text "Debian") (text "10") (text "buster")
    ∷ release (text "Debian") (text "11") (text "bullseye")
    ∷ release (text "Debian") (text "12") (text "bookworm")
    ∷ release (text "Debian") (text "13") (text "trixie")
    ∷ release (text "Debian") (text "14") (text "forky")
    ∷ ubuntu_releases

-- `codenames[family]?.[version] ?? ''`
unfoldable pub codename_of : Text → Text → List Release → Text
unfolding same
codename_of family version [] = []
codename_of family version (r ∷ rs) =
    if same r.family family && same r.version version
    then r.codename
    else codename_of family version rs

-- `properNames[family] ?? family`
unfoldable pub proper_name : Text → Text
unfolding same text
proper_name family =
    if same family (text "Debian")
    then text "Debian GNU/Linux"
    else if same family (text "Rocky")
    then text "Rocky Linux"
    else if same family (text "Alma")
    then text "AlmaLinux"
    else if same family (text "Alpine")
    then text "Alpine Linux"
    else if same family (text "RHEL")
    then text "Red Hat Enterprise Linux"
    else if same family (text "Arch")
    then text "Arch Linux"
    else family

-- `known && (known)`
abbrev in_brackets : Text → Text
in_brackets [] = []
in_brackets (c ∷ known) = b'(' ∷ c ∷ known ++ b')' ∷ []

abbrev pub label_parts : Text → Text → Text → List Text
label_parts proper version known = proper ∷ version ∷ in_brackets known ∷ []

unfoldable pub identity_known : Text → Text → Text → OsIdentity
unfolding proper_name text join
identity_known family version known = record {
  family = family;
  version = version;
  codename = known;
  label =
      join (text " ")
        (filter_by (λ part. not (is_empty part)) (label_parts (proper_name family) version known));
}

-- `identity(family, version)`, without a codename given
unfoldable pub identity : Text → Text → OsIdentity
unfolding identity_known codename_of
identity family version = identity_known family version (codename_of family version releases)

abbrev pub if_found : Option Place → OsIdentity → Option OsIdentity → Option OsIdentity
if_found none found other = other
if_found (some m) found other = some found

-- `new RegExp('\\b' + codename + '\\b', 'i').test(name)` for each release
unfoldable pub ubuntu_from_codename : Text → List Release → Option OsIdentity
unfolding search_in identity_known text
ubuntu_from_codename name [] = none
ubuntu_from_codename name (r ∷ rs) =
    if_found (search_in (seq boundary (seq (word r.codename) boundary)) name)
      (identity_known (text "Ubuntu") r.version r.codename) (ubuntu_from_codename name rs)

abbrev pub identified : Matcher → Option Place → Option OsIdentity → Option OsIdentity
identified matcher none other = other
identified matcher (some m) other = some (identity matcher.family (version_of matcher.version m))

unfoldable pub first_identity : Text → List Matcher → Option OsIdentity
unfolding search_in identity version_of ubuntu_from_codename
first_identity name [] = ubuntu_from_codename name ubuntu_releases
first_identity name (m ∷ ms) = identified m (search_in m.pattern name) (first_identity name ms)

unfoldable pub os_identity : Text → Option OsIdentity
unfolding first_identity
os_identity name = if is_empty name then none else first_identity name matchers

-- `tag.replace(/^os[-_]/i, '')`, where it takes anything off
unfoldable pub os_tag : Text → Option Text
os_tag (o ∷ s ∷ mark ∷ rest) =
    if (o == b'o' || o == b'O') && (s == b's' || s == b'S') && (mark == b'-' || mark == b'_')
    then some rest
    else none
os_tag _ = none

abbrev pub identity_of_tag : Option Text → Option OsIdentity
identity_of_tag none = none
identity_of_tag (some value) = os_identity value

abbrev pub or_else : Option OsIdentity → Option OsIdentity → Option OsIdentity
or_else none other = other
or_else (some id) other = some id

unfoldable pub os_from_tags : List Text → Option OsIdentity
unfolding os_tag os_identity
os_from_tags [] = none
os_from_tags (tag ∷ tags) = or_else (identity_of_tag (os_tag tag)) (os_from_tags tags)

pub record TemplateIdentity : Type 0 where
  pub family : Text
  pub version : Text
  pub codename : Text
  pub label : Text
  pub title : Text
  pub written : Bool
  pub notes : Text

abbrev pub title_of : Text → Text → Option OsIdentity → Text
title_of written name none = if is_empty written then name else written
title_of written name (some id) =
    if is_empty written then (if is_empty id.version then name else id.label) else written

abbrev pub or_other : Option OsIdentity → OsIdentity
or_other none = record { family = text "Other"; version = []; codename = []; label = [] }
or_other (some id) = id

abbrev pub first_line : List Text → Text
first_line [] = []
first_line (line ∷ rest) = line

abbrev other_lines : List Text → List Text
other_lines [] = []
other_lines (line ∷ rest) = rest

-- The description and the tags of a template that has none are empty.
unfoldable pub template_identity : Text → Text → List Text → TemplateIdentity
unfolding os_identity os_from_tags split trim join
template_identity name description tags =
    let lines = split 10 description in
    let written = trim (first_line lines) in
    let derived = or_else (os_identity name) (or_else (os_from_tags tags) (os_identity written)) in
    let known = or_other derived in
    record {
      family = known.family;
      version = known.version;
      codename = known.codename;
      label = known.label;
      title = title_of written name derived;
      written = not (is_empty written);
      notes = trim (join (10 ∷ []) (other_lines lines));
    }
