-- ===== src/CreateInstance/Fields.antt =====
-- frontend/src/pages/CreateInstancePage.tsx: what the form that creates an instance holds, and what it offers.
use vantric.Prelude.{ℕ, Bool, false, ◌&&◌, List, [], ◌∷◌, map, filter_by, if◌then◌else◌, ltb}
use vantric.Prelude.Text.{Text, text, same, includes}
use vantric.Validation.Numbers.{Number, whole}
use vantric.CreateInstance.CloudInit.{CloudInitConfig, TemplateDetail, empty_cloud_init, prefilled}
use vantric.CreateInstance.Versions.{Image}

pub record Hypervisor : Type 0 where
  pub id : Text
  pub status : Text

-- A datastore and a bridge stand on a node of a hypervisor.
pub record Datastore : Type 0 where
  pub name : Text
  pub hypervisor_id : Text
  pub node : Text
  pub content : Text

pub record Bridge : Type 0 where
  pub name : Text
  pub hypervisor_id : Text
  pub node : Text
  pub vlan_aware : Bool

-- What the server lists; `nodes` and `images` are asked for with a hypervisor.
pub record Estate : Type 0 where
  pub hypervisors : List Hypervisor
  pub nodes : Text → List Text
  pub images : Text → List Image
  pub datastores : List Datastore
  pub bridges : List Bridge

pub record Form : Type 0 where
  pub name : Text
  pub hypervisor_id : Text
  pub node : Text
  pub cpus : Number
  pub memory_mb : Number
  pub image_id : Text
  pub storage : Text
  pub family_choice : Text
  pub serial : Text
  pub disk_gb : Number
  pub net_bridge : Text
  pub vlan_tag : Number
  pub cloud_init : CloudInitConfig
  pub description : Text
  pub protection : Bool
  pub sizing_touched : Bool

abbrev pub new_form : Form
new_form = record {
  name = [];
  hypervisor_id = [];
  node = [];
  cpus = whole 2;
  memory_mb = whole 2048;
  image_id = [];
  storage = [];
  family_choice = [];
  serial = [];
  disk_gb = whole 10;
  net_bridge = [];
  vlan_tag = whole 0;
  cloud_init = empty_cloud_init;
  description = [];
  protection = false;
  sizing_touched = false;
}

-- `hypervisors.filter((s) => s.status === 'connected')`
unfoldable pub connected : List Hypervisor → List Text
unfolding same text
connected hypervisors =
    map (λ s. s.id) (filter_by (λ s. same s.status (text "connected")) hypervisors)

-- The lists that are asked for once a hypervisor is chosen, and are empty until then
abbrev pub nodes_of : Estate → Text → List Text
nodes_of estate [] = []
nodes_of estate (c ∷ id) = estate.nodes (c ∷ id)

abbrev pub images_of : Estate → Text → List Image
images_of estate [] = []
images_of estate (c ∷ id) = estate.images (c ∷ id)

abbrev pub datastores_of : Estate → Text → List Datastore
datastores_of estate [] = []
datastores_of estate (c ∷ id) = estate.datastores

-- `diskPools` of a hypervisor and a node, by their names
unfoldable pub disk_pools : Estate → Text → Text → List Text
unfolding same includes text
disk_pools estate hypervisor_id node =
    map (λ d. d.name)
      (filter_by
        (λ d.
          same d.hypervisor_id hypervisor_id
          && same d.node node
          && includes (text "images") d.content)
        (datastores_of estate hypervisor_id))

-- `zoneBridges`
unfoldable pub zone_bridges : Estate → Form → List Bridge
unfolding same
zone_bridges estate form =
    filter_by (λ b. same b.hypervisor_id form.hypervisor_id && same b.node form.node) estate.bridges

-- `zoneBridges.find((b) => b.name === netBridge)?.vlanAware`
unfoldable pub is_vlan_aware : Text → List Bridge → Bool
unfolding same
is_vlan_aware net_bridge [] = false
is_vlan_aware net_bridge (b ∷ bs) =
    let rest = is_vlan_aware net_bridge bs in if same b.name net_bridge then b.vlan_aware else rest

-- The render that knows the hypervisors takes the first that is connected, where none is chosen.
abbrev pub pick_first : List Text → Form → Form
pick_first [] form = form
pick_first (first ∷ rest) form = record form { hypervisor_id = first }

-- `selectHypervisor` and `selectNode`
abbrev pub select_hypervisor : Text → Form → Form
select_hypervisor id form = record form {
  hypervisor_id = id;
  node = [];
  image_id = [];
  storage = [];
}

abbrev pub select_node : Text → Form → Form
select_node id form = record form { node = id; storage = [] }

-- `if (n > 0) set(n)`
abbrev pub if_positive : ℕ → Number → Number
if_positive n current = if ltb 0 n then whole n else current

-- The effect on a template that has arrived
unfoldable pub prefill : TemplateDetail → Form → Form
unfolding prefilled
prefill template form =
    let filled = record form { cloud_init = prefilled template form.cloud_init } in
    if form.sizing_touched then filled else record filled {
      cpus = if_positive template.cpus form.cpus;
      memory_mb = if_positive template.memory_mb form.memory_mb;
      disk_gb = if_positive template.disk_gb form.disk_gb;
    }
