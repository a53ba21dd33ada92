-- ===== src/Client/Databases.antt =====
-- The calls of frontend/src/api/client.ts for database servers, their users and databases: each method of `api` is a constructor, and
-- `database_request` is the request that it makes.
use vantric.Prelude.{[], ◌∷◌, Bool, Option, List}
use vantric.Prelude.Text.{Text, text}
use vantric.Client.Wire.{
  Request, if_given, lit, raw, enc, string, flag, strings, given, no_body, json, object, get, send,
  post, put, delete,
}

pub data DatabaseCall (J : Type 0) : Type 0 where
  list_database_engines : DatabaseCall J
  list_database_servers : DatabaseCall J
  get_database_server : Text → DatabaseCall J
  create_database_server : J → DatabaseCall J
  update_database_server : Text → J → DatabaseCall J
  delete_database_server : Text → DatabaseCall J
  list_databases : Option Text → DatabaseCall J
  create_database : Text → J → DatabaseCall J
  drop_database : Text → Text → DatabaseCall J
  list_database_users : Text → DatabaseCall J
  create_database_user : Text → J → DatabaseCall J
  set_database_user_password : Text → Text → Text → Option Text → DatabaseCall J
  list_iam_sections : DatabaseCall J
  get_user_roles : Text → DatabaseCall J
  set_user_roles : Text → List Text → DatabaseCall J
  set_database_user_enabled : Text → Text → Bool → Option Text → DatabaseCall J
  set_database_user_host : Text → Text → Text → Option Text → DatabaseCall J
  drop_database_user : Text → Text → Option Text → DatabaseCall J
  list_database_tables : Text → Text → DatabaseCall J
  list_database_grants : Text → Text → DatabaseCall J
  grant_database_access : Text → Text → J → DatabaseCall J
  revoke_database_access : Text → Text → Text → Text → DatabaseCall J
  list_database_connections : Text → DatabaseCall J

unfoldable pub database_request : {J : Type 0} → DatabaseCall J → Request J
database_request list_database_engines = get (lit "/database/engines" ∷ [])
database_request list_database_servers = get (lit "/database/servers" ∷ [])
database_request (get_database_server id) = get (lit "/database/servers/" ∷ raw id ∷ [])
database_request (create_database_server body) =
    send post (lit "/database/servers" ∷ []) (json (given body))
database_request (update_database_server id body) =
    send put (lit "/database/servers/" ∷ raw id ∷ []) (json (given body))
database_request (delete_database_server id) =
    send delete (lit "/database/servers/" ∷ raw id ∷ []) no_body
database_request (list_databases server_id) =
    get (lit "/database/databases" ∷ if_given server_id (λ it. lit "?server=" ∷ raw it ∷ []) [])
database_request (create_database server_id body) =
    send post (lit "/database/servers/" ∷ raw server_id ∷ lit "/databases" ∷ []) (json (given body))
database_request (drop_database server_id name) =
    send delete (lit "/database/servers/" ∷ raw server_id ∷ lit "/databases/" ∷ enc name ∷ [])
      no_body
database_request (list_database_users server_id) =
    get (lit "/database/servers/" ∷ raw server_id ∷ lit "/users" ∷ [])
database_request (create_database_user server_id body) =
    send post (lit "/database/servers/" ∷ raw server_id ∷ lit "/users" ∷ []) (json (given body))
database_request (set_database_user_password server_id name password host) =
    send put
      (lit "/database/servers/"
        ∷ raw server_id
        ∷ lit "/users/"
        ∷ enc name
        ∷ lit "/password"
        ∷ if_given host (λ it. lit "?it=" ∷ enc it ∷ []) [])
      (object ((text "password", string password) ∷ []))
database_request list_iam_sections = get (lit "/sections" ∷ [])
database_request (get_user_roles id) = get (lit "/iam/users/" ∷ raw id ∷ lit "/roles" ∷ [])
database_request (set_user_roles id roles) =
    send put (lit "/iam/users/" ∷ raw id ∷ lit "/roles" ∷ [])
      (object ((text "roles", strings roles) ∷ []))
database_request (set_database_user_enabled server_id name enabled host) =
    send put
      (lit "/database/servers/"
        ∷ raw server_id
        ∷ lit "/users/"
        ∷ enc name
        ∷ lit "/enabled"
        ∷ if_given host (λ it. lit "?it=" ∷ enc it ∷ []) [])
      (object ((text "enabled", flag enabled) ∷ []))
database_request (set_database_user_host server_id name new_host host) =
    send put
      (lit "/database/servers/"
        ∷ raw server_id
        ∷ lit "/users/"
        ∷ enc name
        ∷ lit "/host"
        ∷ if_given host (λ it. lit "?it=" ∷ enc it ∷ []) [])
      (object ((text "host", string new_host) ∷ []))
database_request (drop_database_user server_id name host) =
    send delete
      (lit "/database/servers/"
        ∷ raw server_id
        ∷ lit "/users/"
        ∷ enc name
        ∷ if_given host (λ it. lit "?it=" ∷ enc it ∷ []) [])
      no_body
database_request (list_database_tables server_id name) =
    get
      (lit "/database/servers/" ∷ raw server_id ∷ lit "/databases/" ∷ enc name ∷ lit "/tables" ∷ [])
database_request (list_database_grants server_id name) =
    get
      (lit "/database/servers/" ∷ raw server_id ∷ lit "/databases/" ∷ enc name ∷ lit "/grants" ∷ [])
database_request (grant_database_access server_id name body) =
    send put
      (lit "/database/servers/" ∷ raw server_id ∷ lit "/databases/" ∷ enc name ∷ lit "/access" ∷ [])
      (json (given body))
database_request (revoke_database_access server_id name user host) =
    send delete
      (lit "/database/servers/"
        ∷ raw server_id
        ∷ lit "/databases/"
        ∷ enc name
        ∷ lit "/access"
        ∷ lit "?user="
        ∷ enc user
        ∷ lit "&host="
        ∷ enc host
        ∷ [])
      no_body
database_request (list_database_connections server_id) =
    get (lit "/database/servers/" ∷ raw server_id ∷ lit "/connections" ∷ [])
