-- ===== src/Client/Network.antt =====
-- The calls of frontend/src/api/client.ts for hypervisors, network providers and subnets: each method of `api` is a constructor, and
-- `network_request` is the request that it makes.
use vantric.Prelude.{[], ◌∷◌, ℕ, Option, List}
use vantric.Prelude.Text.{Text, text}
use vantric.Client.Wire.{
  Request, if_given, lit, raw, enc, num, strings, given, no_body, json, object, get, send, post,
  put, delete,
}

pub data NetworkCall (J : Type 0) : Type 0 where
  list_hypervisors : NetworkCall J
  create_hypervisor : J → NetworkCall J
  update_hypervisor : Text → J → NetworkCall J
  delete_hypervisor : Text → NetworkCall J
  list_network_provider_types : NetworkCall J
  import_subnets : List Text → NetworkCall J
  subnet_addresses : Text → ℕ → NetworkCall J
  save_subnet_address : Text → J → NetworkCall J
  delete_subnet_address : Text → Text → NetworkCall J
  list_subnets : NetworkCall J
  get_subnet : Text → NetworkCall J
  create_subnet : J → NetworkCall J
  update_subnet : Text → J → NetworkCall J
  delete_subnet : Text → NetworkCall J
  list_network_providers : NetworkCall J
  create_network_provider : J → NetworkCall J
  update_network_provider : Text → J → NetworkCall J
  delete_network_provider : Text → NetworkCall J
  list_lab_networks : Option Text → NetworkCall J
  list_network_clients : NetworkCall J

unfoldable pub network_request : {J : Type 0} → NetworkCall J → Request J
network_request list_hypervisors = get (lit "/hypervisors" ∷ [])
network_request (create_hypervisor body) = send post (lit "/hypervisors" ∷ []) (json (given body))
network_request (update_hypervisor id body) =
    send put (lit "/hypervisors/" ∷ raw id ∷ []) (json (given body))
network_request (delete_hypervisor id) = send delete (lit "/hypervisors/" ∷ raw id ∷ []) no_body
network_request list_network_provider_types = get (lit "/network/provider-types" ∷ [])
network_request (import_subnets network_ids) =
    send post (lit "/network/subnets/import" ∷ [])
      (object ((text "networkIds", strings network_ids) ∷ []))
network_request (subnet_addresses id page) =
    get (lit "/network/subnets/" ∷ raw id ∷ lit "/addresses?page=" ∷ num page ∷ [])
network_request (save_subnet_address id body) =
    send put (lit "/network/subnets/" ∷ raw id ∷ lit "/addresses" ∷ []) (json (given body))
network_request (delete_subnet_address id address) =
    send delete (lit "/network/subnets/" ∷ raw id ∷ lit "/addresses/" ∷ raw address ∷ []) no_body
network_request list_subnets = get (lit "/network/subnets" ∷ [])
network_request (get_subnet id) = get (lit "/network/subnets/" ∷ raw id ∷ [])
network_request (create_subnet body) = send post (lit "/network/subnets" ∷ []) (json (given body))
network_request (update_subnet id body) =
    send put (lit "/network/subnets/" ∷ raw id ∷ []) (json (given body))
network_request (delete_subnet id) = send delete (lit "/network/subnets/" ∷ raw id ∷ []) no_body
network_request list_network_providers = get (lit "/network/providers" ∷ [])
network_request (create_network_provider body) =
    send post (lit "/network/providers" ∷ []) (json (given body))
network_request (update_network_provider id body) =
    send put (lit "/network/providers/" ∷ raw id ∷ []) (json (given body))
network_request (delete_network_provider id) =
    send delete (lit "/network/providers/" ∷ raw id ∷ []) no_body
network_request (list_lab_networks category) =
    get (lit "/network/networks" ∷ if_given category (λ it. lit "?it=" ∷ enc it ∷ []) [])
network_request list_network_clients = get (lit "/network/clients" ∷ [])
