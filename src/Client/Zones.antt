-- ===== src/Client/Zones.antt =====
-- The calls of frontend/src/api/client.ts for DNS providers, zones and records, and the list of backups: each method of `api` is a constructor, and
-- `zone_request` is the request that it makes.
use vantric.Prelude.{[], ◌∷◌}
use vantric.Prelude.Text.{Text}
use vantric.Client.Wire.{Request, lit, raw, enc, given, no_body, json, get, send, post, put, delete}

pub data ZoneCall (J : Type 0) : Type 0 where
  list_dns_provider_types : ZoneCall J
  list_dns_providers : ZoneCall J
  create_dns_provider : J → ZoneCall J
  update_dns_provider : Text → J → ZoneCall J
  delete_dns_provider : Text → ZoneCall J
  list_dns_accounts : Text → ZoneCall J
  list_dns_zones : ZoneCall J
  create_dns_zone : Text → J → ZoneCall J
  get_dns_zone : Text → Text → ZoneCall J
  get_zone_soa : Text → Text → ZoneCall J
  save_zone_soa : Text → Text → J → ZoneCall J
  list_dns_records : Text → Text → ZoneCall J
  save_dns_record_set : Text → Text → J → ZoneCall J
  delete_dns_record_set : Text → Text → Text → Text → ZoneCall J
  delete_dns_zone : Text → Text → ZoneCall J
  list_backups : ZoneCall J
  delete_backup : Text → Text → Text → ZoneCall J

unfoldable pub zone_request : {J : Type 0} → ZoneCall J → Request J
zone_request list_dns_provider_types = get (lit "/dns/provider-types" ∷ [])
zone_request list_dns_providers = get (lit "/dns/providers" ∷ [])
zone_request (create_dns_provider body) = send post (lit "/dns/providers" ∷ []) (json (given body))
zone_request (update_dns_provider id body) =
    send put (lit "/dns/providers/" ∷ raw id ∷ []) (json (given body))
zone_request (delete_dns_provider id) = send delete (lit "/dns/providers/" ∷ raw id ∷ []) no_body
zone_request (list_dns_accounts provider_id) =
    get (lit "/dns/accounts?provider=" ∷ raw provider_id ∷ [])
zone_request list_dns_zones = get (lit "/dns/zones" ∷ [])
zone_request (create_dns_zone provider_id body) =
    send post (lit "/dns/zones?provider=" ∷ raw provider_id ∷ []) (json (given body))
zone_request (get_dns_zone provider_id zone_id) =
    get (lit "/dns/zones/" ∷ raw zone_id ∷ lit "?provider=" ∷ raw provider_id ∷ [])
zone_request (get_zone_soa provider_id zone_id) =
    get (lit "/dns/zones/" ∷ raw zone_id ∷ lit "/soa?provider=" ∷ raw provider_id ∷ [])
zone_request (save_zone_soa provider_id zone_id body) =
    send put (lit "/dns/zones/" ∷ raw zone_id ∷ lit "/soa?provider=" ∷ raw provider_id ∷ [])
      (json (given body))
zone_request (list_dns_records provider_id zone_id) =
    get (lit "/dns/zones/" ∷ raw zone_id ∷ lit "/records?provider=" ∷ raw provider_id ∷ [])
zone_request (save_dns_record_set provider_id zone_id body) =
    send put (lit "/dns/zones/" ∷ raw zone_id ∷ lit "/record-sets?provider=" ∷ raw provider_id ∷ [])
      (json (given body))
zone_request (delete_dns_record_set provider_id zone_id name kind) =
    send delete
      (lit "/dns/zones/"
        ∷ raw zone_id
        ∷ lit "/record-sets?provider="
        ∷ raw provider_id
        ∷ lit "&name="
        ∷ enc name
        ∷ lit "&type="
        ∷ raw kind
        ∷ [])
      no_body
zone_request (delete_dns_zone provider_id zone_id) =
    send delete (lit "/dns/zones/" ∷ raw zone_id ∷ lit "?provider=" ∷ raw provider_id ∷ []) no_body
zone_request list_backups = get (lit "/backups" ∷ [])
zone_request (delete_backup hypervisor_id node volume) =
    send delete
      (lit "/backups?hypervisor="
        ∷ raw hypervisor_id
        ∷ lit "&node="
        ∷ enc node
        ∷ lit "&volume="
        ∷ enc volume
        ∷ [])
      no_body
