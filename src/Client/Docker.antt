-- ===== src/Client/Docker.antt =====
-- The calls of frontend/src/api/client.ts for the branding and the Docker hosts: each method of `api` is a constructor, and
-- `docker_request` is the request that it makes.
use vantric.Prelude.{[], ◌∷◌, ℕ, Option}
use vantric.Prelude.Text.{Text, text}
use vantric.Client.Wire.{
  Request, File, or_else, lit, raw, enc, num, string, given, no_body, json, object, bytes, get,
  send, send_octets, post, put, delete,
}

pub data DockerCall (J : Type 0) : Type 0 where
  set_branding : J → DockerCall J
  upload_brand_logo : File → DockerCall J
  delete_brand_logo : DockerCall J
  list_docker_hosts : DockerCall J
  create_docker_host : J → DockerCall J
  update_docker_host : Text → J → DockerCall J
  delete_docker_host : Text → DockerCall J
  peek_docker_host : Text → DockerCall J
  list_docker_containers : DockerCall J
  list_docker_images : DockerCall J
  list_docker_volumes : DockerCall J
  list_docker_networks : DockerCall J
  docker_container_logs : Text → Text → Option ℕ → DockerCall J
  docker_container_action : Text → Text → Text → DockerCall J

unfoldable pub docker_request : {J : Type 0} → DockerCall J → Request J
docker_request (set_branding body) = send put (lit "/branding" ∷ []) (json (given body))
docker_request (upload_brand_logo file) =
    send_octets post (lit "/branding/logo?filename=" ∷ enc file.name ∷ []) (bytes file)
docker_request delete_brand_logo = send delete (lit "/branding/logo" ∷ []) no_body
docker_request list_docker_hosts = get (lit "/docker/hosts" ∷ [])
docker_request (create_docker_host body) = send post (lit "/docker/hosts" ∷ []) (json (given body))
docker_request (update_docker_host id body) =
    send put (lit "/docker/hosts/" ∷ raw id ∷ []) (json (given body))
docker_request (delete_docker_host id) = send delete (lit "/docker/hosts/" ∷ raw id ∷ []) no_body
docker_request (peek_docker_host base_url) =
    send post (lit "/docker/hosts/peek" ∷ []) (object ((text "baseUrl", string base_url) ∷ []))
docker_request list_docker_containers = get (lit "/docker/containers" ∷ [])
docker_request list_docker_images = get (lit "/docker/images" ∷ [])
docker_request list_docker_volumes = get (lit "/docker/volumes" ∷ [])
docker_request list_docker_networks = get (lit "/docker/networks" ∷ [])
docker_request (docker_container_logs host id lines) = get (
    lit "/docker/containers/"
    ∷ raw id
    ∷ lit "/logs?host="
    ∷ raw host
    ∷ lit "&lines="
    ∷ num (or_else lines 200)
    ∷ [])
docker_request (docker_container_action host id action) =
    send post
      (lit "/docker/containers/" ∷ raw id ∷ lit "/" ∷ raw action ∷ lit "?host=" ∷ raw host ∷ [])
      no_body
