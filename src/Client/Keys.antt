-- ===== src/Client/Keys.antt =====
-- The calls of frontend/src/api/client.ts for virtual keys, limits and providers of the AI gateway, the audit and the operations: each method of `api` is a constructor, and
-- `key_request` is the request that it makes.
use vantric.Prelude.{[], ◌∷◌}
use vantric.Prelude.Text.{Text}
use vantric.Client.Wire.{
  Request, lit, raw, enc, query, given, no_body, json, get, send, post, put, delete,
}
use vantric.Client.Queries.{AiRequestQuery, ai_query, AuditQuery, audit_suffix}

pub data KeyCall (J : Type 0) : Type 0 where
  ai_provider_types : KeyCall J
  create_ai_virtual_key : J → KeyCall J
  update_ai_virtual_key : Text → J → KeyCall J
  delete_ai_virtual_key : Text → KeyCall J
  create_ai_limit : J → KeyCall J
  update_ai_limit : Text → J → KeyCall J
  delete_ai_limit : Text → KeyCall J
  reset_ai_limit_usage : Text → KeyCall J
  create_ai_gateway_provider : J → KeyCall J
  delete_ai_gateway_provider : Text → KeyCall J
  add_ai_gateway_key : Text → J → KeyCall J
  update_ai_gateway_key : Text → Text → J → KeyCall J
  delete_ai_gateway_key : Text → Text → KeyCall J
  get_ai_traffic : AiRequestQuery → KeyCall J
  get_ai_rankings : AiRequestQuery → KeyCall J
  list_audit : AuditQuery → KeyCall J
  list_operations : KeyCall J
  dismiss_operation : Text → KeyCall J
  clear_operations : KeyCall J

unfoldable pub key_request : {J : Type 0} → KeyCall J → Request J
key_request ai_provider_types = get (lit "/ai/provider-types" ∷ [])
key_request (create_ai_virtual_key body) =
    send post (lit "/ai/virtual-keys" ∷ []) (json (given body))
key_request (update_ai_virtual_key id body) =
    send put (lit "/ai/virtual-keys/" ∷ raw id ∷ []) (json (given body))
key_request (delete_ai_virtual_key id) = send delete (lit "/ai/virtual-keys/" ∷ raw id ∷ []) no_body
key_request (create_ai_limit body) = send post (lit "/ai/limits" ∷ []) (json (given body))
key_request (update_ai_limit id body) =
    send put (lit "/ai/limits/" ∷ raw id ∷ []) (json (given body))
key_request (delete_ai_limit id) = send delete (lit "/ai/limits/" ∷ raw id ∷ []) no_body
key_request (reset_ai_limit_usage id) =
    send post (lit "/ai/limits/" ∷ raw id ∷ lit "/reset" ∷ []) no_body
key_request (create_ai_gateway_provider body) =
    send post (lit "/ai/providers" ∷ []) (json (given body))
key_request (delete_ai_gateway_provider name) =
    send delete (lit "/ai/providers/" ∷ enc name ∷ []) no_body
key_request (add_ai_gateway_key provider body) =
    send post (lit "/ai/providers/" ∷ enc provider ∷ lit "/keys" ∷ []) (json (given body))
key_request (update_ai_gateway_key provider key_id body) =
    send put (lit "/ai/providers/" ∷ enc provider ∷ lit "/keys/" ∷ raw key_id ∷ [])
      (json (given body))
key_request (delete_ai_gateway_key provider key_id) =
    send delete (lit "/ai/providers/" ∷ enc provider ∷ lit "/keys/" ∷ raw key_id ∷ []) no_body
key_request (get_ai_traffic filters) = get (lit "/ai/traffic?" ∷ query (ai_query filters) ∷ [])
key_request (get_ai_rankings filters) = get (lit "/ai/rankings?" ∷ query (ai_query filters) ∷ [])
key_request (list_audit params) = get (lit "/audit" ∷ audit_suffix params)
key_request list_operations = get (lit "/operations" ∷ [])
key_request (dismiss_operation id) = send delete (lit "/operations/" ∷ raw id ∷ []) no_body
key_request clear_operations = send delete (lit "/operations" ∷ []) no_body
