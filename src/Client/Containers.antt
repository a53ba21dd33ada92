-- ===== src/Client/Containers.antt =====
-- The calls of frontend/src/api/client.ts for containers: each method of `api` is a constructor, and
-- `container_request` is the request that it makes.
use vantric.Prelude.{[], ◌∷◌, Bool}
use vantric.Prelude.Text.{Text, text}
use vantric.Client.Wire.{Request, lit, raw, flag, no_body, object, get, send, post, delete}

pub data ContainerCall (J : Type 0) : Type 0 where
  list_containers : ContainerCall J
  get_container : Text → ContainerCall J
  container_action : Text → Text → ContainerCall J
  delete_container : Text → ContainerCall J
  set_container_protection : Text → Bool → ContainerCall J
  delete_instance : Text → ContainerCall J

unfoldable pub container_request : {J : Type 0} → ContainerCall J → Request J
container_request list_containers = get (lit "/containers" ∷ [])
container_request (get_container name) = get (lit "/containers/" ∷ raw name ∷ lit "/" ∷ [])
container_request (container_action name action) =
    send post (lit "/containers/" ∷ raw name ∷ lit "/" ∷ raw action ∷ []) no_body
container_request (delete_container name) =
    send delete (lit "/containers/" ∷ raw name ∷ lit "/" ∷ []) no_body
container_request (set_container_protection name protected_flag) =
    send post (lit "/containers/" ∷ raw name ∷ lit "/protection" ∷ [])
      (object ((text "protected", flag protected_flag) ∷ []))
container_request (delete_instance name) =
    send delete (lit "/instances/" ∷ raw name ∷ lit "/" ∷ []) no_body
