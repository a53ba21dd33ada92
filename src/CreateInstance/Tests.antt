-- ===== src/CreateInstance/Tests.antt =====
-- A form that is filled in on two nodes.
use vantric.Prelude.{◌≡◌, refl, true, false, none, some, List, [], ◌∷◌, inl, In}
use vantric.Prelude.Sort.{is_after}
use vantric.Prelude.Text.{Text, text, same, among, includes, starts, join, split, trim, number}
use vantric.Prelude.Pattern.{search_in, search_from, exec_at, take_more}
use vantric.Regex.{test}
use vantric.OsIdentity.Matchers.{version_of}
use vantric.OsIdentity.{
  codename_of, identity_known, identity, first_identity, os_identity, template_identity,
}
use vantric.Validation.Numbers.{whole}
use vantric.CreateInstance.CloudInit.{TemplateDetail}
use vantric.CreateInstance.Versions.{
  Image, Identified, identified_images, of_family, compare_parts, compare_versions, versions,
  newest_image,
}
use vantric.CreateInstance.Fields.{
  Estate, Form, new_form, connected, disk_pools, zone_bridges, prefill,
}
use vantric.CreateInstance.{
  FormEvent, InstanceRequest, type_name, pick_node, pick_family, pick_storage, pick_bridge,
  type_disk, rendered, template_arrives, if_offered, shown_family, families, step, run, name_re,
  machine_valid, os_valid, created_request, submit,
}
use vantric.CreateInstance.Newest.{newest_image_best}
use vantric.CreateInstance.Submitted.{IsSized, IsOnNode, request_is_sound}

abbrev image : Text → Text → Image
image id name = record { id = id; name = name; description = []; tags = [] }

abbrev two_nodes : Estate
two_nodes = record {
  hypervisors = record { id = text "pve"; status = text "connected" } ∷ [];
  nodes = λ id. text "n1" ∷ text "n2" ∷ [];
  images =
      λ id. image (text "9001") (text "debian-9") ∷ image (text "9002") (text "debian-12") ∷ [];
  datastores =
      record {
        name = text "fast";
        hypervisor_id = text "pve";
        node = text "n1";
        content = text "images,rootdir";
      }
      ∷ [];
  bridges =
      record { name = text "lab"; hypervisor_id = text "pve"; node = text "n1"; vlan_aware = true }
      ∷ [];
}

abbrev on_n1 : List FormEvent
on_n1 =
    rendered
    ∷ type_name (text "web")
    ∷ pick_node (text "n1")
    ∷ pick_storage (text "fast")
    ∷ pick_family (text "Debian")
    ∷ []

abbrev filled : Form
filled = run number two_nodes on_n1 new_form

abbrev sent : InstanceRequest
sent = created_request filled

sent_of_filled : submit none filled ≡ some sent
unfolding submit machine_valid os_valid test name_re created_request run step among includes starts
    same text connected disk_pools families shown_family if_offered newest_image versions
    identified_images of_family compare_versions compare_parts split number template_identity
    os_identity first_identity search_in search_from exec_at take_more version_of identity
    identity_known codename_of trim join
sent_of_filled = refl

request_is_sound_example : IsSized none sent × IsOnNode two_nodes sent
request_is_sound_example = request_is_sound number two_nodes none on_n1 sent sent_of_filled

abbrev templates : List Image
templates = two_nodes.images (text "pve")

abbrev oldest : Image
oldest = image (text "9001") (text "debian-9")

abbrev debian_9 : Identified
debian_9 = record {
  img = oldest;
  id = template_identity oldest.name oldest.description oldest.tags;
}

debian_9_listed : In debian_9 (identified_images templates)
unfolding identified_images
debian_9_listed = inl refl

debian_9_family : same debian_9.id.family (text "Debian") ≡ true
unfolding same text template_identity os_identity first_identity search_in search_from exec_at
    take_more version_of identity identity_known codename_of trim join split
debian_9_family = refl

newest_image_best_example :
    (i : Identified) × In i (identified_images templates)
    × (same i.id.family (text "Debian") ≡ true)
    × (newest_image number (text "Debian") templates ≡ i.img.id)
    × (is_after (compare_versions number debian_9.id.version i.id.version) ≡ false)
newest_image_best_example =
    newest_image_best number (text "Debian") templates debian_9 debian_9_listed debian_9_family

-- A bridge is picked on one node, and then the other node: the bridge of the first one is asked for.
abbrev moved : Form
moved = run number two_nodes (pick_bridge (text "lab") ∷ pick_node (text "n2") ∷ []) filled

bridge_stays : (moved.node ≡ text "n2") × (moved.net_bridge ≡ text "lab")
unfolding run step among includes starts same text zone_bridges if_offered connected disk_pools
    families shown_family newest_image versions identified_images of_family compare_versions
    compare_parts split number template_identity os_identity first_identity search_in search_from
    exec_at take_more version_of identity identity_known codename_of trim join
bridge_stays = (refl, refl)

abbrev small : TemplateDetail
small = record {
  cpus = 4;
  memory_mb = 4096;
  disk_gb = 10;
  cloud_init_user = text "debian";
  ssh_keys = none;
  nameservers = [];
  search_domain = [];
  datasource = [];
  upgrade_packages = false;
}

-- A disk is sized by hand, and then the details of the template arrive: its size is taken.
disk_replaced :
    (run number two_nodes (type_disk (whole 60) ∷ template_arrives small ∷ []) new_form).disk_gb
    ≡ whole 10
unfolding run step prefill
disk_replaced = refl
