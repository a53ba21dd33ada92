-- ===== src/Client/Accounts.antt =====
-- The calls of frontend/src/api/client.ts for sign-in, the account's own key, roles and users: each method of `api` is a constructor, and
-- `account_request` is the request that it makes.
use vantric.Prelude.{[], ◌∷◌}
use vantric.Prelude.Text.{Text, text}
use vantric.Client.Wire.{
  Request, lit, raw, string, given, no_body, json, object, get, send, post, put, delete,
}

pub data AccountCall (J : Type 0) : Type 0 where
  login : Text → Text → AccountCall J
  logout : AccountCall J
  me : AccountCall J
  change_own_password : Text → Text → AccountCall J
  my_ssh_key : AccountCall J
  rotate_my_ssh_key : AccountCall J
  import_my_ssh_key : Text → Text → AccountCall J
  auth_providers : AccountCall J
  get_oidc : AccountCall J
  save_oidc : J → AccountCall J
  delete_oidc : AccountCall J
  list_roles : AccountCall J
  list_iam_users : AccountCall J
  get_iam_user : Text → AccountCall J
  create_iam_user : J → AccountCall J
  update_iam_user : Text → J → AccountCall J
  delete_iam_user : Text → AccountCall J
  set_iam_user_password : Text → Text → AccountCall J

unfoldable pub account_request : {J : Type 0} → AccountCall J → Request J
account_request (login email password) =
    send post (lit "/auth/login" ∷ [])
      (object ((text "email", string email) ∷ (text "password", string password) ∷ []))
account_request logout = send post (lit "/auth/logout" ∷ []) no_body
account_request me = get (lit "/auth/me" ∷ [])
account_request (change_own_password current_password new_password) =
    send post (lit "/auth/password" ∷ []) (
      object (
        (text "currentPassword", string current_password)
        ∷ (text "newPassword", string new_password)
        ∷ []))
account_request my_ssh_key = get (lit "/ssh-key" ∷ [])
account_request rotate_my_ssh_key = send post (lit "/ssh-key/rotate" ∷ []) no_body
account_request (import_my_ssh_key private_key passphrase) =
    send put (lit "/ssh-key" ∷ []) (
      object
        ((text "privateKey", string private_key) ∷ (text "passphrase", string passphrase) ∷ []))
account_request auth_providers = get (lit "/auth/providers" ∷ [])
account_request get_oidc = get (lit "/iam/oidc" ∷ [])
account_request (save_oidc body) = send put (lit "/iam/oidc" ∷ []) (json (given body))
account_request delete_oidc = send delete (lit "/iam/oidc" ∷ []) no_body
account_request list_roles = get (lit "/iam/roles" ∷ [])
account_request list_iam_users = get (lit "/iam/users" ∷ [])
account_request (get_iam_user id) = get (lit "/iam/users/" ∷ raw id ∷ [])
account_request (create_iam_user body) = send post (lit "/iam/users" ∷ []) (json (given body))
account_request (update_iam_user id body) =
    send put (lit "/iam/users/" ∷ raw id ∷ []) (json (given body))
account_request (delete_iam_user id) = send delete (lit "/iam/users/" ∷ raw id ∷ []) no_body
account_request (set_iam_user_password id password) =
    send put (lit "/iam/users/" ∷ raw id ∷ lit "/password" ∷ [])
      (object ((text "password", string password) ∷ []))
