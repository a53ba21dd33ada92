-- ===== src/Nav/Links.antt =====
-- The routes of frontend/src/App.tsx in one list, and the links of the nav among them.
use vantric.Prelude.{
  ◌≡◌, refl, Bool, true, false, ◌&&◌, ◌||◌, some, List, [], ◌∷◌, ◌++◌, every, In, every-In, and_iff,
}
use vantric.Prelude.Text.{Text, text, same, starts, split}
use vantric.Nav.{SectionItem, Section}
use vantric.Nav.Table.{sections, section_for, all_items}
use vantric.Nav.Find.{section_for_unique}
use vantric.Nav.Routes.{Target, Route, route}
use vantric.Nav.Routes.Start.{start_routes}
use vantric.Nav.Routes.Stores.{data_routes}
use vantric.Nav.Routes.Services.{service_routes}
use vantric.Nav.Routes.Directory.{directory_routes}
use vantric.Nav.Routes.Compute.{compute_routes}

-- The routes inside the shell
abbrev pub shell_routes : List Route
shell_routes =
    start_routes ++ (data_routes ++ (service_routes ++ (directory_routes ++ compute_routes)))

abbrev is_page : Target → Bool
is_page (Target.page component) = true
is_page (Target.navigate to) = false

-- An address fits the path of a route segment by segment; one that starts with a colon fits any.
unfoldable fit_segments : List Text → List Text → Bool
unfolding same starts
fit_segments [] [] = true
fit_segments (p ∷ path) (a ∷ address) =
    (starts (b':' ∷ []) p || same p a) && fit_segments path address
fit_segments _ _ = false

unfoldable pub fits : Text → Text → Bool
unfolding fit_segments split
fits path address = fit_segments (split b'/' path) (split b'/' address)

-- Some route of the list shows a page at that address.
unfoldable pub leads_to_page : Text → List Route → Bool
unfolding fits
leads_to_page to [] = false
leads_to_page to (route path guard target ∷ rest) =
    (fits path to && is_page target) || leads_to_page to rest

-- A link is sound in its section: it leads to a page, under the prefix of the section.
unfoldable pub sound_link : Section → Text → Bool
unfolding leads_to_page starts
sound_link s to = leads_to_page to shell_routes && starts s.prefix to

sound_section : Section → Bool
unfolding sound_link
sound_section s = sound_link s s.home && every (λ i. sound_link s i.to) (all_items s)

sections_sound : every sound_section sections ≡ true
unfolding sound_section sound_link leads_to_page fits fit_segments split starts same text
sections_sound = refl

sound-section_for :
    (s : Section) (to : Text)
    → In s sections
    → sound_link s to ≡ true
    → (leads_to_page to shell_routes ≡ true) × (section_for to ≡ some s)
unfolding sound_link
sound-section_for s to member h =
    (((and_iff _ _).0 h).0, section_for_unique to s member (((and_iff _ _).0 h).1))

-- The home of a section, and every page that its nav lists, fits a route of the shell that shows a page and
-- does not redirect; and the address counts to that section.
pub nav_links_lead_home :
    (s : Section)
    → In s sections
    → ((leads_to_page s.home shell_routes ≡ true) × (section_for s.home ≡ some s))
      × ((i : SectionItem)
          → In i (all_items s)
          → (leads_to_page i.to shell_routes ≡ true) × (section_for i.to ≡ some s))
unfolding sound_section
nav_links_lead_home s member =
    let both =
      (and_iff (sound_link s s.home) _).0
        (every-In sound_section s sections sections_sound member) in
    (
      sound-section_for s s.home member both.0,
      λ i listed.
          sound-section_for s i.to member
            (every-In (λ j. sound_link s j.to) i (all_items s) both.1 listed),
    )
