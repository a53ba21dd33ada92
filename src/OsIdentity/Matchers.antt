-- ===== src/OsIdentity/Matchers.antt =====
-- `matchers` of frontend/src/osIdentity.ts: the expressions on names, in their order, and the version that
-- each takes out of its match.
use vantric.Prelude.{
  ℕ, ◌||◌, Option, none, some, List, [], ◌∷◌, ◌++◌, ◌==◌, leb, length, take, drop, if◌then◌else◌,
}
use vantric.Prelude.Pattern.{
  Pattern, empty, boundary, unit, many, seq, alt, group₁, group₂, maybe, word, Place,
}
use vantric.Prelude.Text.{Text, text, is_digit, is_empty, is_space, has}

-- `digits.slice(0, n)` and the rest around a full stop, unless there is one, or nothing to part
unfoldable pub unpack_version : Text → ℕ → Text
unfolding has
unpack_version digits major_length =
    if is_empty digits || has b'.' digits
    then digits
    else if leb (length digits) major_length
    then digits
    else take major_length digits ++ b'.' ∷ drop major_length digits

abbrev group_or_blank : Option Text → Text
group_or_blank none = []
group_or_blank (some group) = group

-- How a match gives a version
pub data Version : Type 0 where
  no_version first_group dotted_groups unpacked server_year : Version

abbrev dotted : Text → Text → Text
dotted major minor = if is_empty minor then major else major ++ b'.' ∷ minor

abbrev year : Option Text → Option Text → Text
year (some first) second = first
year none second =
    if is_empty (group_or_blank second) then [] else b'2' ∷ b'0' ∷ group_or_blank second

unfoldable pub version_of : Version → Place → Text
unfolding unpack_version
version_of no_version m = []
version_of first_group m = group_or_blank m.first
version_of dotted_groups m = dotted (group_or_blank m.first) (group_or_blank m.second)
version_of unpacked m = unpack_version (group_or_blank m.first) 1
version_of server_year m = year m.first m.second

pub record Matcher : Type 0 where
  pub family : Text
  pub pattern : Pattern
  pub version : Version

-- `[-_ ]?`, `\d+`, `\d{2}` and `\.`
abbrev gap : Pattern
gap = maybe (unit (λ c. c == b'-' || c == b'_' || c == b' '))

abbrev digits : Pattern
digits = many is_digit

abbrev two_digits : Pattern
two_digits = seq (unit is_digit) (unit is_digit)

abbrev dot : Pattern
dot = unit (λ c. c == b'.')

-- `name[-_ ]?(version)?`
abbrev named : Pattern → Pattern → Pattern
named name version = seq name (seq gap (maybe (group₁ version)))

abbrev point_release : Pattern
point_release = seq digits (seq dot digits)

abbrev one_of : List Text → Pattern
one_of [] = empty
one_of (w ∷ []) = word w
one_of (w ∷ v ∷ ws) = alt (word w) (one_of (v ∷ ws))

abbrev win : Pattern
win = seq (word (text "win")) (maybe (word (text "dows")))

abbrev matcher : Text → Pattern → Version → Matcher
matcher family pattern version = record { family = family; pattern = pattern; version = version }

abbrev pub matchers : List Matcher
matchers =
    matcher (text "pfSense")
      (named (word (text "pfsense")) (seq digits (seq dot (seq digits (maybe (seq dot digits))))))
      first_group
    ∷ matcher (text "OPNsense") (named (word (text "opnsense")) point_release) first_group
    ∷ matcher (text "Debian") (named (word (text "debian")) digits) first_group
    ∷ matcher (text "Ubuntu")
        (seq (word (text "ubuntu"))
          (seq gap (seq (group₁ two_digits) (seq (maybe dot) (maybe (group₂ two_digits))))))
        dotted_groups
    ∷ matcher (text "Rocky") (named (word (text "rocky")) digits) first_group
    ∷ matcher (text "Alma") (named (seq (word (text "alma")) (maybe (word (text "linux")))) digits)
        first_group
    ∷ matcher (text "CentOS") (named (word (text "centos")) digits) first_group
    ∷ matcher (text "RHEL")
        (alt (named (word (text "rhel")) digits)
          (seq (word (text "red")) (seq (maybe (unit is_space)) (word (text "hat")))))
        first_group
    ∷ matcher (text "Fedora") (named (word (text "fedora")) digits) first_group
    ∷ matcher (text "Alpine")
        (seq (word (text "alpine")) (seq gap (group₁ (seq digits (maybe (seq dot digits))))))
        unpacked
    ∷ matcher (text "openSUSE") (one_of (text "opensuse" ∷ text "suse" ∷ text "sles" ∷ []))
        no_version
    ∷ matcher (text "Arch") (seq (word (text "arch")) (maybe (word (text "linux")))) no_version
    ∷ matcher (text "NixOS") (named (word (text "nixos")) point_release) first_group
    ∷ matcher (text "FreeBSD") (named (word (text "freebsd")) point_release) first_group
    ∷ matcher (text "OpenBSD") (named (word (text "openbsd")) point_release) first_group
    ∷ matcher (text "Windows Server")
        (alt
          (seq win (
            seq gap (
              seq (maybe (word (text "server"))) (
                seq gap (
                  seq
                    (group₁ (
                      one_of
                        (text "2012" ∷ text "2016" ∷ text "2019" ∷ text "2022" ∷ text "2025" ∷ [])))
                    boundary)))))
          (seq boundary (seq (word (text "w2k")) (seq (group₂ digits) boundary))))
        server_year
    ∷ matcher (text "Windows")
        (seq win (
          seq gap
            (seq (group₁ (one_of (text "7" ∷ text "8" ∷ text "10" ∷ text "11" ∷ []))) boundary)))
        first_group
    ∷ matcher (text "Windows")
        (alt (word (text "windows")) (
          alt (seq boundary (seq (word (text "wxp")) boundary))
            (seq boundary (seq (word (text "win")) (seq (word (text "nt")) boundary)))))
        no_version
    ∷ []
