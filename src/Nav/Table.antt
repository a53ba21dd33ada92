-- ===== src/Nav/Table.antt =====
-- `sections` and `sectionFor` of frontend/src/components/nav.tsx.
use vantric.Prelude.{Option, none, some, List, [], ◌∷◌, ◌++◌, if◌then◌else◌, map}
use vantric.Prelude.Text.{Text, starts}
use vantric.Nav.{SectionItem, SectionGroup, Section}
use vantric.Nav.Lab.{overview_section, shortcuts_section, security_section, monitoring_section}
use vantric.Nav.Machines.{compute_section, docker_section, devices_section}
use vantric.Nav.Data.{storage_section, databases_section, network_section, dns_section}
use vantric.Nav.Services.{identity_section, ai_section}
use vantric.Nav.Console.{iam_section, docs_section}

abbrev pub sections : List Section
sections =
    overview_section ∷ shortcuts_section ∷ security_section ∷ monitoring_section ∷ compute_section
    ∷ docker_section ∷ devices_section ∷ storage_section ∷ databases_section ∷ network_section
    ∷ dns_section ∷ identity_section ∷ ai_section ∷ iam_section ∷ docs_section ∷ []

abbrev pub section_ids : List Text
section_ids = map (λ s. s.id) sections

-- `sections.find((s) => pathname.startsWith(s.prefix))`
unfoldable pub find_section : Text → List Section → Option Section
unfolding starts
find_section pathname [] = none
find_section pathname (s ∷ rest) =
    if starts s.prefix pathname then some s else find_section pathname rest

unfoldable pub section_for : Text → Option Section
unfolding find_section
section_for pathname = find_section pathname sections

-- Every page that the nav of a section leads to
abbrev pub group_items : List SectionGroup → List SectionItem
group_items [] = []
group_items (g ∷ groups) = g.items ++ group_items groups

abbrev pub all_items : Section → List SectionItem
all_items s = s.items ++ group_items s.groups
