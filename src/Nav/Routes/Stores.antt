-- ===== src/Nav/Routes/Stores.antt =====
-- The routes of frontend/src/App.tsx: storage, networks and databases.
use vantric.Prelude.{List, [], ◌∷◌}
use vantric.Prelude.Text.{text}
use vantric.Nav.Routes.{Route, route, anyone, editors, admins, page}

abbrev pub data_routes : List Route
data_routes =
    route (text "/storage/overview") anyone (page (text "SectionLandingPage"))
    ∷ route (text "/storage/buckets") anyone (page (text "BucketsPage"))
    ∷ route (text "/storage/buckets/create") editors (page (text "CreateBucketPage"))
    ∷ route (text "/storage/buckets/:provider/:bucket") anyone (page (text "BucketDetailPage"))
    ∷ route (text "/storage/buckets/:provider/:bucket/quota") editors
        (page (text "BucketQuotaPage"))
    ∷ route (text "/storage/buckets/:provider/:bucket/public") editors
        (page (text "BucketPublicPage"))
    ∷ route (text "/storage/keys") anyone (page (text "StorageKeysPage"))
    ∷ route (text "/storage/keys/create") editors (page (text "CreateStorageKeyPage"))
    ∷ route (text "/storage/keys/:providerId/:accessKey") editors (page (text "StorageKeyPage"))
    ∷ route (text "/storage/keys/:providerId/:accessKey/secret") editors
        (page (text "StorageKeySecretPage"))
    ∷ route (text "/storage/instances") admins (page (text "StorageInstancesPage"))
    ∷ route (text "/storage/instances/add") admins (page (text "StorageInstanceFormPage"))
    ∷ route (text "/storage/instances/:id/edit") admins (page (text "StorageInstanceFormPage"))
    ∷ route (text "/network/overview") anyone (page (text "SectionLandingPage"))
    ∷ route (text "/network/networks") anyone (page (text "NetworkNetworksPage"))
    ∷ route (text "/network/clients") anyone (page (text "NetworkClientsPage"))
    ∷ route (text "/network/subnets") anyone (page (text "NetworkSubnetsPage"))
    ∷ route (text "/network/subnets/create") editors (page (text "NetworkSubnetFormPage"))
    ∷ route (text "/network/subnets/:id") anyone (page (text "NetworkSubnetDetailPage"))
    ∷ route (text "/network/subnets/:id/edit") editors (page (text "NetworkSubnetFormPage"))
    ∷ route (text "/network/controllers") admins (page (text "NetworkControllersPage"))
    ∷ route (text "/network/controllers/add") admins (page (text "NetworkControllerFormPage"))
    ∷ route (text "/network/controllers/:id/edit") admins (page (text "NetworkControllerFormPage"))
    ∷ route (text "/databases/overview") anyone (page (text "SectionLandingPage"))
    ∷ route (text "/databases/instances") anyone (page (text "DatabaseInstancesPage"))
    ∷ route (text "/databases/instances/add") admins (page (text "AddDatabaseInstancePage"))
    ∷ route (text "/databases/instances/:id") anyone (page (text "DatabaseInstanceDetailPage"))
    ∷ route (text "/databases/instances/:id/edit") admins (page (text "AddDatabaseInstancePage"))
    ∷ route (text "/databases/databases") anyone (page (text "DatabasesPage"))
    ∷ route (text "/databases/instances/:id/databases/:name") anyone
        (page (text "DatabaseDetailPage"))
    ∷ route (text "/databases/instances/:id/databases/:name/access") editors
        (page (text "DatabaseAccessPage"))
    ∷ route (text "/databases/instances/:id/databases/create") editors
        (page (text "CreateDatabasePage"))
    ∷ route (text "/databases/instances/:id/users/create") editors
        (page (text "CreateDatabaseUserPage"))
    ∷ route (text "/databases/instances/:id/users/:name/password") editors
        (page (text "DatabaseUserPasswordPage"))
    ∷ route (text "/databases/instances/:id/users/:name/host") editors
        (page (text "DatabaseUserHostPage"))
    ∷ []
