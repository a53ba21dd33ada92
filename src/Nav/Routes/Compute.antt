-- ===== src/Nav/Routes/Compute.antt =====
-- The routes of frontend/src/App.tsx: instances, what they are made of, and the documentation.
use vantric.Prelude.{List, [], ◌∷◌}
use vantric.Prelude.Text.{text}
use vantric.Nav.Routes.{Route, route, anyone, editors, admins, page, navigate}

abbrev pub compute_routes : List Route
compute_routes =
    route (text "/compute/instances") anyone (page (text "InstancesPage"))
    ∷ route (text "/compute/instances/create") editors (page (text "CreateInstancePage"))
    ∷ route (text "/compute/instances/:name") anyone (page (text "InstanceDetailPage"))
    ∷ route (text "/compute/containers") anyone (page (text "ContainersPage"))
    ∷ route (text "/compute/containers/create") editors (page (text "CreateContainerPage"))
    ∷ route (text "/compute/containers/:name") anyone (page (text "ContainerDetailPage"))
    ∷ route (text "/compute/vm-templates") anyone (page (text "VMTemplatesPage"))
    ∷ route (text "/compute/vm-templates/build") editors (page (text "BuildTemplatePage"))
    ∷ route (text "/compute/ct-templates") anyone (page (text "CTTemplatesPage"))
    ∷ route (text "/compute/images") anyone (navigate (text "/compute/vm-templates"))
    ∷ route (text "/compute/disks") anyone (page (text "DisksPage"))
    ∷ route (text "/compute/snapshots") anyone (page (text "SnapshotsPage"))
    ∷ route (text "/compute/backups") anyone (page (text "BackupsPage"))
    ∷ route (text "/compute/backups/restore") anyone (page (text "RestoreBackupPage"))
    ∷ route (text "/compute/backup-schedules") anyone (page (text "BackupSchedulesPage"))
    ∷ route (text "/compute/backup-schedules/coverage") anyone (page (text "BackupCoveragePage"))
    ∷ route (text "/compute/backup-schedules/new") anyone (page (text "BackupScheduleFormPage"))
    ∷ route (text "/compute/backup-schedules/:id/edit") anyone
        (page (text "BackupScheduleFormPage"))
    ∷ route (text "/compute/isos") anyone (page (text "ISOsPage"))
    ∷ route (text "/compute/isos/add") editors (page (text "AddMediaPage kind={isoKind}"))
    ∷ route (text "/compute/cloud-images") anyone (page (text "CloudImagesPage"))
    ∷ route (text "/compute/cloud-images/add") editors
        (page (text "AddMediaPage kind={cloudImageKind}"))
    ∷ route (text "/compute/datastores") anyone (page (text "DatastoresPage"))
    ∷ route (text "/compute/nodes") anyone (page (text "NodesPage"))
    ∷ route (text "/compute/nodes/:hypervisor/:node") anyone (page (text "NodeDetailPage"))
    ∷ route (text "/compute/hypervisors") admins (page (text "HypervisorsPage"))
    ∷ route (text "/compute/hypervisors/add") admins (page (text "HypervisorFormPage"))
    ∷ route (text "/compute/hypervisors/:id/edit") admins (page (text "HypervisorFormPage"))
    ∷ route (text "/compute/settings/hypervisors") anyone (navigate (text "/compute/hypervisors"))
    ∷ route (text "/compute/instances/:name/resize") editors (page (text "InstanceResizePage"))
    ∷ route (text "/compute/instances/:name/snapshots/new") editors
        (page (text "InstanceSnapshotPage"))
    ∷ route (text "/compute/instances/:name/backups/new") editors (page (text "TakeBackupPage"))
    ∷ route (text "/compute/containers/:name/backups/new") editors (page (text "TakeBackupPage"))
    ∷ route (text "/compute/instances/:name/disks/add") editors (page (text "InstanceAddDiskPage"))
    ∷ route (text "/compute/instances/:name/disks/:disk/resize") editors
        (page (text "InstanceResizeDiskPage"))
    ∷ route (text "/docs") anyone (page (text "DocsPage"))
    ∷ route (text "/docs/:slug") anyone (page (text "DocsArticlePage"))
    ∷ route (text "*") anyone (page (text "NotFoundPage"))
    ∷ []
