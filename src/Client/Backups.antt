-- ===== src/Client/Backups.antt =====
-- The calls of frontend/src/api/client.ts for backups and their schedules: each method of `api` is a constructor, and
-- `backup_request` is the request that it makes.
use vantric.Prelude.{[], ◌∷◌, ℕ, Bool, List}
use vantric.Prelude.Text.{Text, text}
use vantric.Client.Wire.{
  Request, lit, raw, enc, flag, numbers, given, no_body, json, object, get, send, post, put, delete,
}
use vantric.Client.Queries.{GuestKind, guest}

pub data BackupCall (J : Type 0) : Type 0 where
  set_backup_protection : Text → Text → Text → Bool → BackupCall J
  take_backup : GuestKind → Text → J → BackupCall J
  restore_backup : J → BackupCall J
  list_backup_schedules : BackupCall J
  list_backup_gaps : BackupCall J
  preview_backup_schedule : Text → Text → BackupCall J
  create_backup_schedule : Text → J → BackupCall J
  update_backup_schedule : Text → Text → J → BackupCall J
  add_guests_to_backup_schedule : Text → Text → List ℕ → BackupCall J
  delete_backup_schedule : Text → Text → BackupCall J

unfoldable pub backup_request : {J : Type 0} → BackupCall J → Request J
backup_request (set_backup_protection hypervisor node volume is_protected) =
    send post
      (lit "/backups/protection?hypervisor="
        ∷ raw hypervisor
        ∷ lit "&node="
        ∷ enc node
        ∷ lit "&volume="
        ∷ enc volume
        ∷ [])
      (object ((text "protected", flag is_protected) ∷ []))
backup_request (take_backup kind name body) =
    send post (lit "/" ∷ guest kind ∷ lit "/" ∷ enc name ∷ lit "/backups" ∷ []) (json (given body))
backup_request (restore_backup body) = send post (lit "/backups/restore" ∷ []) (json (given body))
backup_request list_backup_schedules = get (lit "/backup-schedules" ∷ [])
backup_request list_backup_gaps = get (lit "/backup-schedules/gaps" ∷ [])
backup_request (preview_backup_schedule hypervisor schedule) = get (
    lit "/backup-schedules/preview?hypervisor="
    ∷ raw hypervisor
    ∷ lit "&schedule="
    ∷ enc schedule
    ∷ [])
backup_request (create_backup_schedule hypervisor body) =
    send post (lit "/backup-schedules?hypervisor=" ∷ raw hypervisor ∷ []) (json (given body))
backup_request (update_backup_schedule hypervisor id body) =
    send put (lit "/backup-schedules/" ∷ raw id ∷ lit "?hypervisor=" ∷ raw hypervisor ∷ [])
      (json (given body))
backup_request (add_guests_to_backup_schedule hypervisor id vmids) =
    send post (lit "/backup-schedules/" ∷ raw id ∷ lit "/guests?hypervisor=" ∷ raw hypervisor ∷ [])
      (object ((text "vmids", numbers vmids) ∷ []))
backup_request (delete_backup_schedule hypervisor id) =
    send delete (lit "/backup-schedules/" ∷ raw id ∷ lit "?hypervisor=" ∷ raw hypervisor ∷ [])
      no_body
