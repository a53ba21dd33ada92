-- ===== src/Client/Catalog.antt =====
-- The calls of frontend/src/api/client.ts for nodes, images, disks, ISOs and templates: each method of `api` is a constructor, and
-- `catalog_request` is the request that it makes.
use vantric.Prelude.{[], ◌∷◌, Option}
use vantric.Prelude.Text.{Text, text}
use vantric.Client.Wire.{
  Request, File, if_given, lit, raw, enc, query, string, given, no_body, json, object, get, send,
  upload, post, delete,
}
use vantric.Client.Queries.{UploadTarget, upload_fields}

pub data CatalogCall (J : Type 0) : Type 0 where
  list_nodes : Option Text → CatalogCall J
  get_node : Text → Text → CatalogCall J
  node_metrics : Text → Text → Text → CatalogCall J
  list_bridges : CatalogCall J
  list_images : Option Text → CatalogCall J
  describe_image : Text → Text → CatalogCall J
  list_disks : CatalogCall J
  delete_disk : Text → Text → CatalogCall J
  list_snapshots : CatalogCall J
  list_isos : CatalogCall J
  download_iso : Text → J → CatalogCall J
  upload_iso : Text → UploadTarget → File → CatalogCall J
  delete_iso : Text → Text → Text → CatalogCall J
  delete_ct_template : Text → Text → Text → CatalogCall J
  set_image_description : Text → Text → Text → CatalogCall J
  delete_image : Text → Text → CatalogCall J
  list_ct_templates : CatalogCall J
  list_cloud_images : CatalogCall J
  download_cloud_image : Text → J → CatalogCall J
  upload_cloud_image : Text → UploadTarget → File → CatalogCall J
  delete_cloud_image : Text → Text → Text → CatalogCall J
  build_template : Text → J → CatalogCall J
  list_datastores : CatalogCall J

unfoldable pub catalog_request : {J : Type 0} → CatalogCall J → Request J
catalog_request (list_nodes hypervisor_id) =
    get (if_given hypervisor_id (λ it. lit "/nodes?hypervisor=" ∷ raw it ∷ []) (lit "/nodes" ∷ []))
catalog_request (get_node hypervisor_id node) =
    get (lit "/nodes/" ∷ enc node ∷ lit "?hypervisor=" ∷ raw hypervisor_id ∷ [])
catalog_request (node_metrics hypervisor_id node timeframe) = get (
    lit "/nodes/"
    ∷ enc node
    ∷ lit "/metrics?hypervisor="
    ∷ raw hypervisor_id
    ∷ lit "&timeframe="
    ∷ raw timeframe
    ∷ [])
catalog_request list_bridges = get (lit "/bridges" ∷ [])
catalog_request (list_images hypervisor_id) =
    get
      (if_given hypervisor_id (λ it. lit "/images?hypervisor=" ∷ raw it ∷ []) (lit "/images" ∷ []))
catalog_request (describe_image hypervisor_id image_id) =
    get (lit "/images/" ∷ raw image_id ∷ lit "?hypervisor=" ∷ raw hypervisor_id ∷ [])
catalog_request list_disks = get (lit "/disks" ∷ [])
catalog_request (delete_disk hypervisor id) =
    send delete (lit "/disks?hypervisor=" ∷ raw hypervisor ∷ lit "&id=" ∷ enc id ∷ []) no_body
catalog_request list_snapshots = get (lit "/snapshots" ∷ [])
catalog_request list_isos = get (lit "/isos" ∷ [])
catalog_request (download_iso hypervisor_id body) =
    send post (lit "/isos/download?hypervisor=" ∷ raw hypervisor_id ∷ []) (json (given body))
catalog_request (upload_iso hypervisor_id params file) =
    upload
      (lit "/isos/upload?" ∷ query ((text "server", hypervisor_id) ∷ upload_fields params) ∷ [])
      file
catalog_request (delete_iso hypervisor_id node volume) =
    send delete
      (lit "/isos?"
        ∷ query
            ((text "server", hypervisor_id) ∷ (text "node", node) ∷ (text "volume", volume) ∷ [])
        ∷ [])
      no_body
catalog_request (delete_ct_template hypervisor_id node volume) =
    send delete
      (lit "/ct-templates?"
        ∷ query
            ((text "server", hypervisor_id) ∷ (text "node", node) ∷ (text "volume", volume) ∷ [])
        ∷ [])
      no_body
catalog_request (set_image_description hypervisor_id image_id description) =
    send post
      (lit "/images/" ∷ raw image_id ∷ lit "/description?hypervisor=" ∷ raw hypervisor_id ∷ [])
      (object ((text "description", string description) ∷ []))
catalog_request (delete_image hypervisor_id image_id) =
    send delete (lit "/images/" ∷ raw image_id ∷ lit "?hypervisor=" ∷ raw hypervisor_id ∷ [])
      no_body
catalog_request list_ct_templates = get (lit "/ct-templates" ∷ [])
catalog_request list_cloud_images = get (lit "/cloud-images" ∷ [])
catalog_request (download_cloud_image hypervisor_id body) =
    send post (lit "/cloud-images/download?hypervisor=" ∷ raw hypervisor_id ∷ [])
      (json (given body))
catalog_request (upload_cloud_image hypervisor_id params file) =
    upload
      (lit "/cloud-images/upload?"
        ∷ query ((text "server", hypervisor_id) ∷ upload_fields params)
        ∷ [])
      file
catalog_request (delete_cloud_image hypervisor_id node volume) =
    send delete
      (lit "/cloud-images?"
        ∷ query
            ((text "server", hypervisor_id) ∷ (text "node", node) ∷ (text "volume", volume) ∷ [])
        ∷ [])
      no_body
catalog_request (build_template hypervisor_id body) =
    send post (lit "/vm-templates/build?hypervisor=" ∷ raw hypervisor_id ∷ []) (json (given body))
catalog_request list_datastores = get (lit "/datastores" ∷ [])
