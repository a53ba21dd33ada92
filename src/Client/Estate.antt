-- ===== src/Client/Estate.antt =====
-- The calls of frontend/src/api/client.ts for the overview, shortcuts, installers, the inventory and favourites: each method of `api` is a constructor, and
-- `estate_request` is the request that it makes.
use vantric.Prelude.{[], ◌∷◌, Bool, Option, List, false}
use vantric.Prelude.Text.{Text, text}
use vantric.Client.Wire.{
  Request, File, or_else, lit, raw, enc, query, string, flag, strings, given, no_body, json, object,
  bytes, get, send, send_octets, upload, post, put, delete,
}

pub data EstateCall (J : Type 0) : Type 0 where
  overview : EstateCall J
  instance_inventory : Text → EstateCall J
  list_shortcuts : EstateCall J
  create_shortcut : J → EstateCall J
  update_shortcut : Text → J → EstateCall J
  delete_shortcut : Text → EstateCall J
  reorder_shortcuts : List Text → EstateCall J
  upload_shortcut_icon : Text → File → EstateCall J
  delete_shortcut_icon : Text → EstateCall J
  list_installers : EstateCall J
  upload_installer : File → EstateCall J
  delete_installer : Text → EstateCall J
  rotate_installer_token : EstateCall J
  security_overview : EstateCall J
  list_inventory_hosts : EstateCall J
  inventory_host : Text → EstateCall J
  list_inventory_vulnerabilities : EstateCall J
  inventory_vulnerability : Text → EstateCall J
  enrichment_status : EstateCall J
  set_nvd_api_key : Text → Option Bool → EstateCall J
  set_enrichment_enabled : Bool → EstateCall J
  list_inventory_provider_types : EstateCall J
  list_inventory_providers : EstateCall J
  create_inventory_provider : J → EstateCall J
  update_inventory_provider : Text → J → EstateCall J
  delete_inventory_provider : Text → EstateCall J
  list_favorites : EstateCall J
  set_favorites : List Text → EstateCall J

unfoldable pub estate_request : {J : Type 0} → EstateCall J → Request J
estate_request overview = get (lit "/overview" ∷ [])
estate_request (instance_inventory name) =
    get (lit "/instances/" ∷ raw name ∷ lit "/inventory" ∷ [])
estate_request list_shortcuts = get (lit "/shortcuts" ∷ [])
estate_request (create_shortcut body) = send post (lit "/shortcuts" ∷ []) (json (given body))
estate_request (update_shortcut id body) =
    send put (lit "/shortcuts/" ∷ raw id ∷ []) (json (given body))
estate_request (delete_shortcut id) = send delete (lit "/shortcuts/" ∷ raw id ∷ []) no_body
estate_request (reorder_shortcuts ids) = send put (lit "/shortcuts/order" ∷ []) (json (strings ids))
estate_request (upload_shortcut_icon id file) =
    send_octets post (lit "/shortcuts/" ∷ raw id ∷ lit "/icon?filename=" ∷ enc file.name ∷ [])
      (bytes file)
estate_request (delete_shortcut_icon id) =
    send delete (lit "/shortcuts/" ∷ raw id ∷ lit "/icon" ∷ []) no_body
estate_request list_installers = get (lit "/installers" ∷ [])
estate_request (upload_installer file) =
    upload (lit "/installers?" ∷ query ((text "filename", file.name) ∷ []) ∷ []) file
estate_request (delete_installer name) = send delete (lit "/installers/" ∷ enc name ∷ []) no_body
estate_request rotate_installer_token = send post (lit "/installers/token/rotate" ∷ []) no_body
estate_request security_overview = get (lit "/security/overview" ∷ [])
estate_request list_inventory_hosts = get (lit "/inventory/hosts" ∷ [])
estate_request (inventory_host id) = get (lit "/inventory/hosts/" ∷ raw id ∷ [])
estate_request list_inventory_vulnerabilities = get (lit "/inventory/vulnerabilities" ∷ [])
estate_request (inventory_vulnerability cve) =
    get (lit "/inventory/vulnerabilities/" ∷ enc cve ∷ [])
estate_request enrichment_status = get (lit "/inventory/enrichment" ∷ [])
estate_request (set_nvd_api_key key remove) =
    send put (lit "/inventory/enrichment/key" ∷ [])
      (object ((text "key", string key) ∷ (text "remove", flag (or_else remove false)) ∷ []))
estate_request (set_enrichment_enabled enabled) =
    send put (lit "/inventory/enrichment/enabled" ∷ [])
      (object ((text "enabled", flag enabled) ∷ []))
estate_request list_inventory_provider_types = get (lit "/inventory/provider-types" ∷ [])
estate_request list_inventory_providers = get (lit "/inventory/providers" ∷ [])
estate_request (create_inventory_provider body) =
    send post (lit "/inventory/providers" ∷ []) (json (given body))
estate_request (update_inventory_provider id body) =
    send put (lit "/inventory/providers/" ∷ raw id ∷ []) (json (given body))
estate_request (delete_inventory_provider id) =
    send delete (lit "/inventory/providers/" ∷ raw id ∷ []) no_body
estate_request list_favorites = get (lit "/favorites" ∷ [])
estate_request (set_favorites ids) = send put (lit "/favorites" ∷ []) (json (strings ids))
