-- ===== src/CreateInstance.antt =====
-- frontend/src/pages/CreateInstancePage.tsx: the form that creates an instance, as steps on what it holds. A menu gives
-- one of its options, and a field that is disabled gives nothing. What the server lists stays as it is
-- while the form is open; the details of the template arrive at any time.
pub mod CloudInit
pub mod Versions
pub mod Fields
pub mod Placed
pub mod Newest
pub mod Submitted
pub mod Tests
use vantric.Prelude.{
  ℕ, Bool, true, false, not, ◌&&◌, ◌||◌, Option, none, some, List, [], ◌∷◌, map, if◌then◌else◌, ltb,
}
use vantric.Prelude.Text.{Text, text, same, among, is_empty, trim, is_lower}
use vantric.Regex.{Regex, test, bounded_label}
use vantric.Validation.Names.{resource_unit, lower_or_digit}
use vantric.Validation.Numbers.{Number, whole, is_falsy, lt_num, gt_num}
use vantric.CreateInstance.CloudInit.{
  CloudInitConfig, CloudInitField, TemplateDetail, set_field, or_text,
}
use vantric.CreateInstance.Versions.{Identified, identified_images, versions, newest_image}
use vantric.CreateInstance.Fields.{
  Estate, Form, connected, nodes_of, images_of, disk_pools, zone_bridges, is_vlan_aware, pick_first,
  select_hypervisor, select_node, prefill,
}

pub data FormEvent : Type 0 where
  type_name pick_hypervisor pick_node pick_family pick_version pick_storage pick_bridge :
      Text → FormEvent
  type_description type_serial : Text → FormEvent
  type_cpus type_memory type_disk type_vlan : Number → FormEvent
  type_cloud_init : CloudInitField → FormEvent
  protect : Bool → FormEvent
  rendered : FormEvent
  template_arrives : TemplateDetail → FormEvent

-- `images.find((i) => i.img.id === imageId)?.id.family`
unfoldable pub family_of : Text → List Identified → Text
unfolding same
family_of image_id [] = []
family_of image_id (i ∷ is) =
    let rest = family_of image_id is in if same i.img.id image_id then i.id.family else rest

-- `familyChoice || chosen?.id.family || ''`
unfoldable pub shown_family : Estate → Form → Text
unfolding family_of identified_images
shown_family estate form =
    or_text form.family_choice
      (family_of form.image_id (identified_images (images_of estate form.hypervisor_id)))

-- The options of the menu of families
unfoldable pub families : Estate → Form → List Text
unfolding identified_images
families estate form =
    map (λ i. i.id.family) (identified_images (images_of estate form.hypervisor_id))

-- `Number(e.target.value) || 0`
abbrev pub or_zero : Number → Number
or_zero n = if is_falsy n then whole 0 else n

-- A menu that is not disabled, and has the option
unfoldable pub if_offered : Bool → Text → List Text → Form → Form → Form
unfolding among
if_offered is_disabled option options form next =
    if is_disabled then form else if among option options then next else form

module _ (number_or_zero : Text → ℕ) (estate : Estate) where
  unfoldable pub step : FormEvent → Form → Form
  unfolding among connected disk_pools zone_bridges is_vlan_aware shown_family families versions
      newest_image prefill
  step (type_name v) form = record form { name = v }
  step (pick_hypervisor id) form =
      if_offered false id (connected estate.hypervisors) form (select_hypervisor id form)
  step (pick_node id) form =
      if_offered (is_empty form.hypervisor_id) id (nodes_of estate form.hypervisor_id) form
        (select_node id form)
  step (pick_family next) form =
      if_offered (is_empty form.hypervisor_id) next (families estate form) form (record form {
        family_choice = next;
        image_id = newest_image number_or_zero next (images_of estate form.hypervisor_id);
      })
  step (pick_version id) form =
      if_offered (is_empty (shown_family estate form)) id
        (map (λ i. i.img.id)
          (versions number_or_zero (shown_family estate form)
            (images_of estate form.hypervisor_id)))
        form (record form { image_id = id })
  step (pick_storage v) form =
      if_offered (is_empty form.node) v ([] ∷ disk_pools estate form.hypervisor_id form.node) form
        (record form { storage = v })
  step (pick_bridge v) form =
      if_offered (is_empty form.node) v ([] ∷ map (λ b. b.name) (zone_bridges estate form)) form
        (record form { net_bridge = v })
  step (type_description v) form = record form { description = v }
  step (type_serial v) form = record form { serial = v }
  step (type_cpus n) form = record form { sizing_touched = true; cpus = n }
  step (type_memory n) form = record form { sizing_touched = true; memory_mb = n }
  step (type_disk n) form = record form { disk_gb = n }
  step (type_vlan n) form =
      if is_empty form.net_bridge || not (is_vlan_aware form.net_bridge (zone_bridges estate form))
      then form
      else record form { vlan_tag = or_zero n }
  step (type_cloud_init field) form = record form { cloud_init = set_field field form.cloud_init }
  step (protect v) form = record form { protection = v }
  step rendered form =
      if is_empty form.hypervisor_id then pick_first (connected estate.hypervisors) form else form
  step (template_arrives template) form = prefill template form

  unfoldable pub run : List FormEvent → Form → Form
  unfolding step
  run [] form = form
  run (e ∷ es) form = run es (step e form)

-- `nameRe`
unfoldable pub name_re : Regex
name_re = bounded_label 61 is_lower resource_unit lower_or_digit

-- `cpuError` and `memoryError`, as tests
abbrev pub has_cpu_error : Number → Bool
has_cpu_error cpus = lt_num cpus 1 || gt_num cpus 128

abbrev pub has_memory_error : Number → Bool
has_memory_error memory_mb = lt_num memory_mb 128

-- `template?.diskGb ?? 0`
abbrev pub template_disk : Option TemplateDetail → ℕ
template_disk none = 0
template_disk (some template) = template.disk_gb

-- `diskError`, as a test
abbrev pub has_disk_error : Option TemplateDetail → Number → Bool
has_disk_error template disk_gb =
    lt_num disk_gb 1 || (ltb 0 (template_disk template) && lt_num disk_gb (template_disk template))

unfoldable pub machine_valid : Form → Bool
unfolding test name_re
machine_valid form =
    test name_re form.name
    && not (is_empty form.hypervisor_id)
    && not (is_empty form.node)
    && not (has_cpu_error form.cpus)
    && not (has_memory_error form.memory_mb)

unfoldable pub os_valid : Option TemplateDetail → Form → Bool
os_valid template form = not (is_empty form.image_id) && not (has_disk_error template form.disk_gb)

pub record InstanceRequest : Type 0 where
  pub serial : Text
  pub name : Text
  pub hypervisor_id : Text
  pub node : Text
  pub storage : Option Text
  pub cpus : Number
  pub memory_mb : Number
  pub disk_gb : Number
  pub image_id : Text
  pub net_bridge : Option Text
  pub vlan_tag : Option Number
  pub cloud_init : CloudInitConfig
  pub description : Option Text
  pub protected : Bool

-- `x || undefined`
abbrev pub given_text : Text → Option Text
given_text [] = none
given_text (c ∷ s) = some (c ∷ s)

unfoldable pub created_request : Form → InstanceRequest
unfolding trim
created_request form = record {
  serial = or_text (trim form.serial) form.name;
  name = form.name;
  hypervisor_id = form.hypervisor_id;
  node = form.node;
  storage = given_text form.storage;
  cpus = form.cpus;
  memory_mb = form.memory_mb;
  disk_gb = form.disk_gb;
  image_id = form.image_id;
  net_bridge = given_text form.net_bridge;
  vlan_tag = if is_falsy form.vlan_tag then none else some form.vlan_tag;
  cloud_init = form.cloud_init;
  description = given_text form.description;
  protected = form.protection;
}

-- The button, which is disabled where the form is not valid
unfoldable pub submit : Option TemplateDetail → Form → Option InstanceRequest
unfolding machine_valid os_valid created_request
submit template form =
    if machine_valid form && os_valid template form then some (created_request form) else none
