-- ===== src/Nav/Routes/Services.antt =====
-- The routes of frontend/src/App.tsx: containers, models, monitoring and accounts.
use vantric.Prelude.{List, [], ◌∷◌}
use vantric.Prelude.Text.{text}
use vantric.Nav.Routes.{Route, route, anyone, admins, page}

abbrev pub service_routes : List Route
service_routes =
    route (text "/docker/overview") anyone (page (text "SectionLandingPage"))
    ∷ route (text "/docker/containers") anyone (page (text "DockerContainersPage"))
    ∷ route (text "/docker/images") anyone (page (text "DockerImagesPage"))
    ∷ route (text "/docker/volumes") anyone (page (text "DockerVolumesPage"))
    ∷ route (text "/docker/networks") anyone (page (text "DockerNetworksPage"))
    ∷ route (text "/docker/settings/hosts") anyone (page (text "DockerHostsPage"))
    ∷ route (text "/docker/settings/hosts/new") anyone (page (text "DockerHostFormPage"))
    ∷ route (text "/docker/settings/hosts/:id/edit") anyone (page (text "DockerHostFormPage"))
    ∷ route (text "/ai/overview") anyone (page (text "AIOverviewPage"))
    ∷ route (text "/ai/requests") anyone (page (text "AIRequestsPage"))
    ∷ route (text "/ai/providers") anyone (page (text "AIProvidersPage"))
    ∷ route (text "/ai/virtual-keys") anyone (page (text "AIVirtualKeysPage"))
    ∷ route (text "/ai/virtual-keys/new") anyone (page (text "AIVirtualKeyFormPage"))
    ∷ route (text "/ai/virtual-keys/:id/edit") anyone (page (text "AIVirtualKeyFormPage"))
    ∷ route (text "/ai/budgets/new") anyone (page (text "AIBudgetFormPage"))
    ∷ route (text "/ai/budgets/:id/edit") anyone (page (text "AIBudgetFormPage"))
    ∷ route (text "/ai/providers/new") anyone (page (text "AIProviderFormPage"))
    ∷ route (text "/ai/providers/:provider/keys/new") anyone (page (text "AIProviderFormPage"))
    ∷ route (text "/ai/providers/:provider/keys/:keyId") anyone (page (text "AIProviderFormPage"))
    ∷ route (text "/ai/budgets") anyone (page (text "AIBudgetsPage"))
    ∷ route (text "/ai/model-prices") anyone (page (text "AIModelPricesPage"))
    ∷ route (text "/ai/accounts") anyone (page (text "AIAccountsPage"))
    ∷ route (text "/ai/accounts/add") anyone (page (text "AIAccountFormPage"))
    ∷ route (text "/ai/accounts/:id/edit") anyone (page (text "AIAccountFormPage"))
    ∷ route (text "/ai/connection") anyone (page (text "AIGatewaysPage"))
    ∷ route (text "/ai/connection/add") anyone (page (text "AIGatewayFormPage"))
    ∷ route (text "/ai/connection/:id/edit") anyone (page (text "AIGatewayFormPage"))
    ∷ route (text "/monitoring/overview") anyone (page (text "SectionLandingPage"))
    ∷ route (text "/monitoring/problems") anyone (page (text "MonitoringProblemsPage"))
    ∷ route (text "/monitoring/hosts") anyone (page (text "MonitoringHostsPage"))
    ∷ route (text "/monitoring/settings/service") anyone (page (text "MonitoringProvidersPage"))
    ∷ route (text "/monitoring/settings/service/add") anyone
        (page (text "MonitoringProviderFormPage"))
    ∷ route (text "/monitoring/settings/service/:id/edit") anyone
        (page (text "MonitoringProviderFormPage"))
    ∷ route (text "/iam/overview") anyone (page (text "SectionLandingPage"))
    ∷ route (text "/iam/account") anyone (page (text "MyAccountPage"))
    ∷ route (text "/iam/account/password") anyone (page (text "MyPasswordPage"))
    ∷ route (text "/iam/account/ssh-key") anyone (page (text "MySSHKeyPage"))
    ∷ route (text "/iam/users") admins (page (text "IAMUsersPage"))
    ∷ route (text "/iam/sign-on") admins (page (text "IAMSignOnPage"))
    ∷ route (text "/iam/branding") anyone (page (text "BrandingPage"))
    ∷ route (text "/iam/activity") anyone (page (text "IAMActivityPage"))
    ∷ route (text "/iam/users/create") admins (page (text "IAMUserFormPage"))
    ∷ route (text "/iam/users/:id/edit") admins (page (text "IAMUserFormPage"))
    ∷ route (text "/iam/users/:id/password") admins (page (text "IAMPasswordPage"))
    ∷ []
