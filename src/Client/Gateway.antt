-- ===== src/Client/Gateway.antt =====
-- The calls of frontend/src/api/client.ts for AI accounts, monitoring and the AI gateways: each method of `api` is a constructor, and
-- `gateway_request` is the request that it makes.
use vantric.Prelude.{[], ◌∷◌}
use vantric.Prelude.Text.{Text}
use vantric.Client.Wire.{
  Request, lit, raw, enc, query, given, no_body, json, get, send, post, put, delete,
}
use vantric.Client.Queries.{AiRequestQuery, ai_query}

pub data GatewayCall (J : Type 0) : Type 0 where
  list_ai_account_types : GatewayCall J
  list_ai_accounts : GatewayCall J
  create_ai_account : J → GatewayCall J
  update_ai_account : Text → J → GatewayCall J
  delete_ai_account : Text → GatewayCall J
  list_monitoring_provider_types : GatewayCall J
  list_monitoring_providers : GatewayCall J
  create_monitoring_provider : J → GatewayCall J
  update_monitoring_provider : Text → J → GatewayCall J
  delete_monitoring_provider : Text → GatewayCall J
  list_monitoring_problems : GatewayCall J
  list_monitoring_hosts : GatewayCall J
  list_ai_gateway_types : GatewayCall J
  list_ai_gateways : GatewayCall J
  create_ai_gateway : J → GatewayCall J
  update_ai_gateway : Text → J → GatewayCall J
  delete_ai_gateway : Text → GatewayCall J
  list_ai_requests : AiRequestQuery → GatewayCall J
  get_ai_request : Text → GatewayCall J
  get_ai_stats : AiRequestQuery → GatewayCall J
  get_ai_filters : GatewayCall J
  list_ai_gateway_providers : GatewayCall J
  list_ai_virtual_keys : AiRequestQuery → GatewayCall J
  list_ai_limits : GatewayCall J
  ai_capabilities : GatewayCall J
  list_ai_model_prices : GatewayCall J

unfoldable pub gateway_request : {J : Type 0} → GatewayCall J → Request J
gateway_request list_ai_account_types = get (lit "/ai/account-types" ∷ [])
gateway_request list_ai_accounts = get (lit "/ai/accounts" ∷ [])
gateway_request (create_ai_account body) = send post (lit "/ai/accounts" ∷ []) (json (given body))
gateway_request (update_ai_account id body) =
    send put (lit "/ai/accounts/" ∷ raw id ∷ []) (json (given body))
gateway_request (delete_ai_account id) = send delete (lit "/ai/accounts/" ∷ raw id ∷ []) no_body
gateway_request list_monitoring_provider_types = get (lit "/monitoring/provider-types" ∷ [])
gateway_request list_monitoring_providers = get (lit "/monitoring/providers" ∷ [])
gateway_request (create_monitoring_provider body) =
    send post (lit "/monitoring/providers" ∷ []) (json (given body))
gateway_request (update_monitoring_provider id body) =
    send put (lit "/monitoring/providers/" ∷ raw id ∷ []) (json (given body))
gateway_request (delete_monitoring_provider id) =
    send delete (lit "/monitoring/providers/" ∷ raw id ∷ []) no_body
gateway_request list_monitoring_problems = get (lit "/monitoring/problems" ∷ [])
gateway_request list_monitoring_hosts = get (lit "/monitoring/hosts" ∷ [])
gateway_request list_ai_gateway_types = get (lit "/ai/gateway-types" ∷ [])
gateway_request list_ai_gateways = get (lit "/ai/gateways" ∷ [])
gateway_request (create_ai_gateway body) = send post (lit "/ai/gateways" ∷ []) (json (given body))
gateway_request (update_ai_gateway id body) =
    send put (lit "/ai/gateways/" ∷ raw id ∷ []) (json (given body))
gateway_request (delete_ai_gateway id) = send delete (lit "/ai/gateways/" ∷ raw id ∷ []) no_body
gateway_request (list_ai_requests filters) =
    get (lit "/ai/requests?" ∷ query (ai_query filters) ∷ [])
gateway_request (get_ai_request id) = get (lit "/ai/requests/" ∷ enc id ∷ [])
gateway_request (get_ai_stats filters) = get (lit "/ai/stats?" ∷ query (ai_query filters) ∷ [])
gateway_request get_ai_filters = get (lit "/ai/filters" ∷ [])
gateway_request list_ai_gateway_providers = get (lit "/ai/providers" ∷ [])
gateway_request (list_ai_virtual_keys filters) =
    get (lit "/ai/virtual-keys?" ∷ query (ai_query filters) ∷ [])
gateway_request list_ai_limits = get (lit "/ai/limits" ∷ [])
gateway_request ai_capabilities = get (lit "/ai/capabilities" ∷ [])
gateway_request list_ai_model_prices = get (lit "/ai/model-prices" ∷ [])
