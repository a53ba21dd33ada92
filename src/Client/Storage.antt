-- ===== src/Client/Storage.antt =====
-- The calls of frontend/src/api/client.ts for object storage: buckets, objects and users: each method of `api` is a constructor, and
-- `storage_request` is the request that it makes.
use vantric.Prelude.{[], ◌∷◌, ℕ, Bool, Option}
use vantric.Prelude.Text.{Text, text}
use vantric.Client.Wire.{
  Request, File, if_given, lit, raw, enc, query, string, number, flag, given, no_body, json, object,
  bytes, get, send, post, put, delete, Template,
}
use vantric.Client.Queries.{ObjectQuery, object_query}

pub data StorageCall (J : Type 0) : Type 0 where
  create_container : J → StorageCall J
  list_storage_provider_types : StorageCall J
  list_storage_providers : StorageCall J
  create_storage_provider : J → StorageCall J
  update_storage_provider : Text → J → StorageCall J
  delete_storage_provider : Text → StorageCall J
  list_buckets : Option Text → StorageCall J
  create_bucket : Text → J → StorageCall J
  set_bucket_quota : Text → Text → ℕ → StorageCall J
  delete_bucket : Text → Text → StorageCall J
  list_objects : Text → Text → ObjectQuery → StorageCall J
  upload_object : Text → Text → Text → File → StorageCall J
  delete_object : Text → Text → Text → StorageCall J
  bucket_permissions : Text → Text → StorageCall J
  grant_bucket_public : Text → Text → J → StorageCall J
  revoke_bucket_public : Text → Text → StorageCall J
  list_storage_users : Option Text → StorageCall J
  list_storage_policies : Text → StorageCall J
  create_storage_user : Text → J → StorageCall J
  set_storage_user_secret : Text → Text → Text → StorageCall J
  set_storage_user_status : Text → Text → Bool → StorageCall J
  set_storage_user_policy : Text → Text → Text → StorageCall J
  delete_storage_user : Text → Text → StorageCall J

unfoldable pub storage_request : {J : Type 0} → StorageCall J → Request J
storage_request (create_container body) = send post (lit "/containers" ∷ []) (json (given body))
storage_request list_storage_provider_types = get (lit "/storage/provider-types" ∷ [])
storage_request list_storage_providers = get (lit "/storage/providers" ∷ [])
storage_request (create_storage_provider body) =
    send post (lit "/storage/providers" ∷ []) (json (given body))
storage_request (update_storage_provider id body) =
    send put (lit "/storage/providers/" ∷ raw id ∷ []) (json (given body))
storage_request (delete_storage_provider id) =
    send delete (lit "/storage/providers/" ∷ raw id ∷ []) no_body
storage_request (list_buckets provider_id) = get (
    if_given provider_id (λ it. lit "/storage/buckets?provider=" ∷ raw it ∷ [])
      (lit "/storage/buckets" ∷ []))
storage_request (create_bucket provider_id body) =
    send post (lit "/storage/buckets?provider=" ∷ raw provider_id ∷ []) (json (given body))
storage_request (set_bucket_quota provider_id bucket size) =
    send put (lit "/storage/buckets/" ∷ raw bucket ∷ lit "/quota?provider=" ∷ raw provider_id ∷ [])
      (object ((text "bytes", number size) ∷ []))
storage_request (delete_bucket provider_id bucket) =
    send delete (lit "/storage/buckets/" ∷ raw bucket ∷ lit "?provider=" ∷ raw provider_id ∷ [])
      no_body
storage_request (list_objects provider_id bucket opts) = get (
    lit "/storage/buckets/"
    ∷ raw bucket
    ∷ lit "/objects?"
    ∷ query (object_query provider_id opts)
    ∷ [])
storage_request (upload_object provider_id bucket key file) =
    send post
      (lit "/storage/buckets/"
        ∷ raw bucket
        ∷ lit "/objects?provider="
        ∷ raw provider_id
        ∷ lit "&key="
        ∷ enc key
        ∷ [])
      (bytes file)
storage_request (delete_object provider_id bucket key) =
    send delete
      (lit "/storage/buckets/"
        ∷ raw bucket
        ∷ lit "/object?provider="
        ∷ raw provider_id
        ∷ lit "&key="
        ∷ enc key
        ∷ [])
      no_body
storage_request (bucket_permissions provider_id bucket) =
    get (lit "/storage/buckets/" ∷ raw bucket ∷ lit "/permissions?provider=" ∷ raw provider_id ∷ [])
storage_request (grant_bucket_public provider_id bucket body) =
    send put (lit "/storage/buckets/" ∷ raw bucket ∷ lit "/public?provider=" ∷ raw provider_id ∷ [])
      (json (given body))
storage_request (revoke_bucket_public provider_id bucket) =
    send delete
      (lit "/storage/buckets/" ∷ raw bucket ∷ lit "/public?provider=" ∷ raw provider_id ∷ [])
      no_body
storage_request (list_storage_users provider_id) = get (
    if_given provider_id (λ it. lit "/storage/users?provider=" ∷ raw it ∷ [])
      (lit "/storage/users" ∷ []))
storage_request (list_storage_policies provider_id) =
    get (lit "/storage/policies?provider=" ∷ raw provider_id ∷ [])
storage_request (create_storage_user provider_id body) =
    send post (lit "/storage/users?provider=" ∷ raw provider_id ∷ []) (json (given body))
storage_request (set_storage_user_secret provider_id access_key secret_key) =
    send put
      (lit "/storage/users/" ∷ enc access_key ∷ lit "/secret?provider=" ∷ raw provider_id ∷ [])
      (object ((text "secretKey", string secret_key) ∷ []))
storage_request (set_storage_user_status provider_id access_key enabled) =
    send put
      (lit "/storage/users/" ∷ enc access_key ∷ lit "/status?provider=" ∷ raw provider_id ∷ [])
      (object ((text "enabled", flag enabled) ∷ []))
storage_request (set_storage_user_policy provider_id access_key policy) =
    send put
      (lit "/storage/users/" ∷ enc access_key ∷ lit "/policy?provider=" ∷ raw provider_id ∷ [])
      (object ((text "policy", string policy) ∷ []))
storage_request (delete_storage_user provider_id access_key) =
    send delete (lit "/storage/users/" ∷ enc access_key ∷ lit "?provider=" ∷ raw provider_id ∷ [])
      no_body

-- The URL that a browser fetches itself.
abbrev pub object_download_url : Text → Text → Text → Template
object_download_url provider_id bucket key =
    lit "/api/v1/storage/buckets/"
    ∷ raw bucket
    ∷ lit "/object?provider="
    ∷ raw provider_id
    ∷ lit "&key="
    ∷ enc key
    ∷ []
