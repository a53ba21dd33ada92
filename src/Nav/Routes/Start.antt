-- ===== src/Nav/Routes/Start.antt =====
-- The routes of frontend/src/App.tsx: what stands outside the shell, the front door, security, devices.
use vantric.Prelude.{List, [], ◌∷◌}
use vantric.Prelude.Text.{text}
use vantric.Nav.Routes.{Route, route, anyone, editors, admins, page, navigate}

abbrev pub bare_routes : List Route
bare_routes =
    route (text "/signin") anyone (page (text "SignInPage"))
    ∷ route (text "/compute/instances/:name/ssh") anyone (page (text "InstanceSSHPage"))
    ∷ route (text "/compute/instances/:name/rdp") anyone (page (text "InstanceRDPPage"))
    ∷ []

abbrev pub start_routes : List Route
start_routes =
    route (text "/") anyone (navigate (text "/overview"))
    ∷ route (text "/overview") anyone (page (text "CloudOverviewPage"))
    ∷ route (text "/shortcuts") anyone (page (text "ShortcutsPage"))
    ∷ route (text "/shortcuts/new") anyone (page (text "ShortcutFormPage"))
    ∷ route (text "/shortcuts/:id/edit") anyone (page (text "ShortcutFormPage"))
    ∷ route (text "/security/overview") anyone (page (text "SecurityOverviewPage"))
    ∷ route (text "/compute/overview") anyone (page (text "OverviewPage"))
    ∷ route (text "/devices/overview") anyone (page (text "SectionLandingPage"))
    ∷ route (text "/devices/physical-hosts") anyone (page (text "DevicesPhysicalHostsPage"))
    ∷ route (text "/devices/virtual-hosts") anyone (page (text "DevicesVirtualHostsPage"))
    ∷ route (text "/devices/hosts") anyone (navigate (text "/devices/virtual-hosts"))
    ∷ route (text "/devices/hosts/:id") anyone (page (text "DevicesHostPage"))
    ∷ route (text "/security/host-assessment") anyone (page (text "SecurityHostAssessmentPage"))
    ∷ route (text "/security/host-assessment/:hostId") anyone
        (page (text "SecurityHostAssessmentPage"))
    ∷ route (text "/security/vulnerabilities") anyone (page (text "SecurityVulnerabilitiesPage"))
    ∷ route (text "/security/vulnerabilities/:cve") anyone (page (text "SecurityVulnerabilityPage"))
    ∷ route (text "/devices/installers") anyone (page (text "DevicesInstallersPage"))
    ∷ route (text "/security/settings/vulnerability-data") admins
        (page (text "SecurityVulnerabilityDataPage"))
    ∷ route (text "/devices/settings/inventory") admins (page (text "InventoryProvidersPage"))
    ∷ route (text "/devices/settings/inventory/add") admins
        (page (text "InventoryProviderFormPage"))
    ∷ route (text "/devices/settings/inventory/:id/edit") admins
        (page (text "InventoryProviderFormPage"))
    ∷ route (text "/compute/instances/:name/rename") editors (page (text "RenameInstancePage"))
    ∷ route (text "/compute/instances/:name/description") editors
        (page (text "EditDescriptionPage target={instanceDescription}"))
    ∷ route (text "/compute/vm-templates/:hypervisorId/:id/description") editors
        (page (text "EditDescriptionPage target={templateDescription}"))
    ∷ []
