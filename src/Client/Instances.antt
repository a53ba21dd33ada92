-- ===== src/Client/Instances.antt =====
-- The calls of frontend/src/api/client.ts for instances, their disks and snapshots: each method of `api` is a constructor, and
-- `instance_request` is the request that it makes.
use vantric.Prelude.{[], ◌∷◌, ℕ, Bool}
use vantric.Prelude.Text.{Text, text}
use vantric.Client.Wire.{
  Request, File, lit, raw, enc, string, number, flag, given, no_body, json, object, form, get, send,
  post, delete, Template,
}
use vantric.Client.Queries.{sftp_form}

pub data InstanceCall (J : Type 0) : Type 0 where
  list_instances : InstanceCall J
  get_instance : Text → InstanceCall J
  describe_instance : Text → InstanceCall J
  instance_metrics : Text → Text → InstanceCall J
  instance_os_info : Text → InstanceCall J
  upload_to_instance : Text → File → Text → InstanceCall J
  instance_backups : Text → InstanceCall J
  create_instance : J → InstanceCall J
  instance_action : Text → Text → InstanceCall J
  rename_instance : Text → Text → InstanceCall J
  set_instance_description : Text → Text → InstanceCall J
  add_instance_disk : Text → J → InstanceCall J
  resize_instance_disk : Text → Text → ℕ → InstanceCall J
  attach_instance_disk : Text → Text → InstanceCall J
  detach_instance_disk : Text → Text → InstanceCall J
  delete_instance_disk : Text → Text → InstanceCall J
  resize_instance : Text → J → InstanceCall J
  create_instance_snapshot : Text → J → InstanceCall J
  rollback_instance_snapshot : Text → Text → InstanceCall J
  delete_instance_snapshot : Text → Text → InstanceCall J
  set_instance_protection : Text → Bool → InstanceCall J

unfoldable pub instance_request : {J : Type 0} → InstanceCall J → Request J
instance_request list_instances = get (lit "/instances" ∷ [])
instance_request (get_instance name) = get (lit "/instances/" ∷ raw name ∷ lit "/" ∷ [])
instance_request (describe_instance name) =
    get (lit "/instances/" ∷ raw name ∷ lit "/describe" ∷ [])
instance_request (instance_metrics name timeframe) =
    get (lit "/instances/" ∷ raw name ∷ lit "/metrics?timeframe=" ∷ raw timeframe ∷ [])
instance_request (instance_os_info name) = get (lit "/instances/" ∷ raw name ∷ lit "/os-info" ∷ [])
instance_request (upload_to_instance name file dest) =
    send post (lit "/instances/" ∷ raw name ∷ lit "/sftp/upload" ∷ []) (form (sftp_form file dest))
instance_request (instance_backups name) = get (lit "/instances/" ∷ raw name ∷ lit "/backups" ∷ [])
instance_request (create_instance body) = send post (lit "/instances" ∷ []) (json (given body))
instance_request (instance_action name action) =
    send post (lit "/instances/" ∷ raw name ∷ lit "/" ∷ raw action ∷ []) no_body
instance_request (rename_instance name new_name) =
    send post (lit "/instances/" ∷ raw name ∷ lit "/rename" ∷ [])
      (object ((text "name", string new_name) ∷ []))
instance_request (set_instance_description name description) =
    send post (lit "/instances/" ∷ raw name ∷ lit "/description" ∷ [])
      (object ((text "description", string description) ∷ []))
instance_request (add_instance_disk name body) =
    send post (lit "/instances/" ∷ enc name ∷ lit "/disks" ∷ []) (json (given body))
instance_request (resize_instance_disk name disk size_gb) =
    send post (lit "/instances/" ∷ enc name ∷ lit "/disks/" ∷ enc disk ∷ lit "/resize" ∷ [])
      (object ((text "sizeGb", number size_gb) ∷ []))
instance_request (attach_instance_disk name disk) =
    send post (lit "/instances/" ∷ enc name ∷ lit "/disks/" ∷ enc disk ∷ lit "/attach" ∷ []) no_body
instance_request (detach_instance_disk name disk) =
    send post (lit "/instances/" ∷ enc name ∷ lit "/disks/" ∷ enc disk ∷ lit "/detach" ∷ []) no_body
instance_request (delete_instance_disk name disk) =
    send delete (lit "/instances/" ∷ enc name ∷ lit "/disks/" ∷ enc disk ∷ []) no_body
instance_request (resize_instance name body) =
    send post (lit "/instances/" ∷ enc name ∷ lit "/resize" ∷ []) (json (given body))
instance_request (create_instance_snapshot name body) =
    send post (lit "/instances/" ∷ enc name ∷ lit "/snapshots" ∷ []) (json (given body))
instance_request (rollback_instance_snapshot name snapshot) =
    send post
      (lit "/instances/" ∷ enc name ∷ lit "/snapshots/" ∷ enc snapshot ∷ lit "/rollback" ∷ [])
      no_body
instance_request (delete_instance_snapshot name snapshot) =
    send delete (lit "/instances/" ∷ enc name ∷ lit "/snapshots/" ∷ enc snapshot ∷ []) no_body
instance_request (set_instance_protection name protected_flag) =
    send post (lit "/instances/" ∷ raw name ∷ lit "/protection" ∷ [])
      (object ((text "protected", flag protected_flag) ∷ []))

-- The URL that a browser fetches itself.
abbrev pub download_from_instance_url : Text → Text → Template
download_from_instance_url name path =
    lit "/api/v1/instances/" ∷ enc name ∷ lit "/sftp/download?path=" ∷ enc path ∷ []
