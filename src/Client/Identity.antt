-- ===== src/Client/Identity.antt =====
-- The calls of frontend/src/api/client.ts for the identity providers, their users and groups: each method of `api` is a constructor, and
-- `identity_request` is the request that it makes.
use vantric.Prelude.{[], ◌∷◌, ℕ, Bool, Option}
use vantric.Prelude.Text.{Text, text}
use vantric.Client.Wire.{
  Request, or_else, lit, raw, num, string, flag, given, no_body, json, object, get, send, post, put,
  delete,
}

pub data IdentityCall (J : Type 0) : Type 0 where
  list_identity_provider_types : IdentityCall J
  list_identity_providers : IdentityCall J
  create_identity_provider : J → IdentityCall J
  update_identity_provider : Text → J → IdentityCall J
  delete_identity_provider : Text → IdentityCall J
  list_identity_users : IdentityCall J
  create_identity_user : J → IdentityCall J
  identity_user_recovery_link : Text → IdentityCall J
  set_identity_user_active : Text → Bool → IdentityCall J
  set_identity_user_password : Text → Text → IdentityCall J
  list_identity_groups : IdentityCall J
  add_identity_group_member : Text → Text → IdentityCall J
  remove_identity_group_member : Text → Text → IdentityCall J
  list_identity_applications : IdentityCall J
  list_identity_events : Option ℕ → IdentityCall J

unfoldable pub identity_request : {J : Type 0} → IdentityCall J → Request J
identity_request list_identity_provider_types = get (lit "/identity/provider-types" ∷ [])
identity_request list_identity_providers = get (lit "/identity/providers" ∷ [])
identity_request (create_identity_provider body) =
    send post (lit "/identity/providers" ∷ []) (json (given body))
identity_request (update_identity_provider id body) =
    send put (lit "/identity/providers/" ∷ raw id ∷ []) (json (given body))
identity_request (delete_identity_provider id) =
    send delete (lit "/identity/providers/" ∷ raw id ∷ []) no_body
identity_request list_identity_users = get (lit "/identity/users" ∷ [])
identity_request (create_identity_user body) =
    send post (lit "/identity/users" ∷ []) (json (given body))
identity_request (identity_user_recovery_link user_id) =
    send post (lit "/identity/users/" ∷ raw user_id ∷ lit "/recovery" ∷ []) no_body
identity_request (set_identity_user_active user_id active) =
    send post (lit "/identity/users/" ∷ raw user_id ∷ lit "/active" ∷ [])
      (object ((text "active", flag active) ∷ []))
identity_request (set_identity_user_password user_id password) =
    send post (lit "/identity/users/" ∷ raw user_id ∷ lit "/password" ∷ [])
      (object ((text "password", string password) ∷ []))
identity_request list_identity_groups = get (lit "/identity/groups" ∷ [])
identity_request (add_identity_group_member group_id user_id) =
    send post (lit "/identity/groups/" ∷ raw group_id ∷ lit "/members" ∷ [])
      (object ((text "userId", string user_id) ∷ []))
identity_request (remove_identity_group_member group_id user_id) =
    send delete (lit "/identity/groups/" ∷ raw group_id ∷ lit "/members/" ∷ raw user_id ∷ [])
      no_body
identity_request list_identity_applications = get (lit "/identity/applications" ∷ [])
identity_request (list_identity_events limit) =
    get (lit "/identity/events?limit=" ∷ num (or_else limit 100) ∷ [])
