-- ===== src/Nav/Routes/Directory.antt =====
-- The routes of frontend/src/App.tsx: the identity provider and the name servers.
use vantric.Prelude.{List, [], ◌∷◌}
use vantric.Prelude.Text.{text}
use vantric.Nav.Routes.{Route, route, anyone, editors, admins, page, navigate}

abbrev pub directory_routes : List Route
directory_routes =
    route (text "/identity/overview") anyone (page (text "SectionLandingPage"))
    ∷ route (text "/identity/users") anyone (page (text "IdentityUsersPage"))
    ∷ route (text "/identity/users/create") editors (page (text "IdentityUserCreatePage"))
    ∷ route (text "/identity/users/:id/edit") editors (page (text "IdentityUserEditPage"))
    ∷ route (text "/identity/groups") anyone (page (text "IdentityGroupsPage"))
    ∷ route (text "/identity/groups/:id") anyone (page (text "IdentityGroupDetailPage"))
    ∷ route (text "/identity/applications") anyone (page (text "IdentityApplicationsPage"))
    ∷ route (text "/identity/events") anyone (page (text "IdentityEventsPage"))
    ∷ route (text "/identity/providers") admins (page (text "IdentityProvidersPage"))
    ∷ route (text "/identity/providers/add") admins (page (text "AddIdentityProviderPage"))
    ∷ route (text "/identity/providers/:id/edit") admins (page (text "AddIdentityProviderPage"))
    ∷ route (text "/dns/overview") anyone (page (text "SectionLandingPage"))
    ∷ route (text "/dns/zones") anyone (page (text "DNSZonesPage"))
    ∷ route (text "/dns/zones/create") editors (page (text "CreateZonePage"))
    ∷ route (text "/dns/zones/:providerId/:zoneId") anyone (page (text "DNSZoneDetailPage"))
    ∷ route (text "/dns/zones/:providerId/:zoneId/soa") editors (page (text "ZoneSOAPage"))
    ∷ route (text "/dns/zones/:providerId/:zoneId/records/new") editors
        (page (text "RecordSetPage"))
    ∷ route (text "/dns/zones/:providerId/:zoneId/records/edit") editors
        (page (text "RecordSetPage"))
    ∷ route (text "/dns/providers") admins (page (text "DNSProvidersPage"))
    ∷ route (text "/dns/providers/add") admins (page (text "DNSProviderFormPage"))
    ∷ route (text "/dns/providers/:id/edit") admins (page (text "DNSProviderFormPage"))
    ∷ route (text "/storage") anyone (navigate (text "/storage/overview"))
    ∷ route (text "/network") anyone (navigate (text "/network/overview"))
    ∷ route (text "/databases") anyone (navigate (text "/databases/overview"))
    ∷ route (text "/docker") anyone (navigate (text "/docker/overview"))
    ∷ route (text "/ai") anyone (navigate (text "/ai/overview"))
    ∷ route (text "/monitoring") anyone (navigate (text "/monitoring/overview"))
    ∷ route (text "/iam") anyone (navigate (text "/iam/overview"))
    ∷ route (text "/identity") anyone (navigate (text "/identity/overview"))
    ∷ route (text "/dns") anyone (navigate (text "/dns/overview"))
    ∷ []
