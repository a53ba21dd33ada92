-- ===== src/Nav/Tests.antt =====
-- Concrete pages and accounts for the theorems on the nav.
use vantric.Prelude.{◌≡◌, refl, true, false, some, List, [], ◌∷◌, ◌↔◌, ◌⊎◌, inl, inr, In}
use vantric.Prelude.Text.{Text, text, among, starts}
use vantric.Roles.{viewer, grants_by_section}
use vantric.Roles.Allowed.{SomeGrants}
use vantric.Favorites.{is_favorite}
use vantric.Nav.{SectionItem, Section}
use vantric.Nav.Lab.{overview_section, shortcuts_section}
use vantric.Nav.Data.{dns_section}
use vantric.Nav.Table.{sections, section_ids, section_for, all_items}
use vantric.Nav.Links.{leads_to_page, shell_routes, nav_links_lead_home}
use vantric.Nav.Guard.{is_allowed, needed_role, needed_role_opens}
use vantric.Nav.Menu.{
  top_section_ids, always_visible, listed, pinned, top_entries, menu_lists_viewable,
}

dns_member : In dns_section sections
dns_member = inr (inr (inr (inr (inr (inr (inr (inr (inr (inr (inl refl))))))))))

abbrev zone_page : Text
zone_page = text "/dns/zones/create"

zone_page-starts : starts dns_section.prefix zone_page ≡ true
unfolding starts text
zone_page-starts = refl

nav_links_lead_home_example :
    ((leads_to_page dns_section.home shell_routes ≡ true)
      × (section_for dns_section.home ≡ some dns_section))
    × ((i : SectionItem)
        → In i (all_items dns_section)
        → (leads_to_page i.to shell_routes ≡ true) × (section_for i.to ≡ some dns_section))
nav_links_lead_home_example = nav_links_lead_home dns_section dns_member

abbrev dns_editor : List Text
dns_editor = text "dns.editor" ∷ []

needed_role_opens_example : is_allowed false zone_page (needed_role false zone_page ∷ []) ≡ true
needed_role_opens_example =
    needed_role_opens false zone_page dns_section (needed_role false zone_page ∷ []) dns_member
      zone_page-starts (inl refl)

menu_lists_viewable_example :
    (top_entries (grants_by_section dns_editor section_ids)
      ≡ overview_section ∷ shortcuts_section ∷ [])
    × ((s : Section)
        → In s (listed (grants_by_section dns_editor section_ids)) ↔ (
            In s sections
            × (among s.id top_section_ids ≡ false)
            × ((among s.id always_visible ≡ true) ⊎ SomeGrants section_ids s.id viewer dns_editor)))
    × ((s : Section)
        → In s (pinned (grants_by_section dns_editor section_ids) (text "dns" ∷ [])) ↔ (
            In s (listed (grants_by_section dns_editor section_ids))
            × (is_favorite s.id (text "dns" ∷ []) ≡ true)))
menu_lists_viewable_example = menu_lists_viewable dns_editor (text "dns" ∷ [])
