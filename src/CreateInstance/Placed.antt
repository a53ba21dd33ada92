-- ===== src/CreateInstance/Placed.antt =====
-- Whatever is done to the form, what it holds is there: on the hypervisor and the node that are chosen.
use vantric.Prelude.{
  ℕ, ◌≡◌, refl, sym, ap, subst, Bool, true, false, not, ◌||◌, List, [], ◌∷◌, ◌⊎◌, inl, inr, map, In,
  In-filter_iff, Bool-cases,
}
use vantric.Prelude.Sort.{In-sort}
use vantric.Prelude.Text.{Text, same, among, Among, among_sound, is_empty, is_empty_iff}
use vantric.CreateInstance.CloudInit.{TemplateDetail}
use vantric.CreateInstance.Versions.{
  Image, Identified, identified_images, of_family, versions, newest_image, newest_first,
  image_id_of,
}
use vantric.CreateInstance.Fields.{
  Estate, Form, new_form, connected, nodes_of, images_of, disk_pools, zone_bridges, is_vlan_aware,
  pick_first, prefill,
}
use vantric.CreateInstance.{
  FormEvent, type_name, pick_hypervisor, pick_node, pick_family, pick_version, pick_storage,
  pick_bridge, type_description, type_serial, type_cpus, type_memory, type_disk, type_vlan,
  type_cloud_init, protect, rendered, template_arrives, if_offered, step, run,
}

abbrev pub OneOf : Text → List Text → Type 0
OneOf x xs = (x ≡ []) ⊎ Among x xs

abbrev image_ids : List Image → List Text
image_ids images = map (λ i. i.id) images

-- A hypervisor that is connected, a node and a template of it, and a pool of that node that takes disks;
-- each of them may still be blank.
abbrev pub Placed : Estate → Text → Text → Text → Text → Type 0
Placed estate hypervisor_id node image_id storage =
    OneOf hypervisor_id (connected estate.hypervisors)
    × OneOf node (nodes_of estate hypervisor_id)
    × OneOf image_id (image_ids (images_of estate hypervisor_id))
    × OneOf storage (disk_pools estate hypervisor_id node)

abbrev pub IsPlaced : Estate → Form → Type 0
IsPlaced estate form = Placed estate form.hypervisor_id form.node form.image_id form.storage

Among-map_sound :
    {A : Type 0} (f : A → Text) (t : Text) (xs : List A)
    → Among t (map f xs)
    → (x : A) × In x xs × (t ≡ f x)
Among-map_sound f t [] h = absurd h
Among-map_sound f t (x ∷ xs) (inl e) = (x, inl refl, e)
Among-map_sound f t (x ∷ xs) (inr h) =
    let found = Among-map_sound f t xs h in (found.0, inr found.1, found.2)

Among-map_complete :
    {A : Type 0} (f : A → Text) (x : A) (xs : List A) → In x xs → Among (f x) (map f xs)
Among-map_complete f x [] h = absurd h
Among-map_complete f x (y ∷ ys) (inl e) = inl (ap f e)
Among-map_complete f x (y ∷ ys) (inr h) = inr (Among-map_complete f x ys h)

identified_ids :
    (id : Text) (images : List Image)
    → Among id (map (λ i. i.img.id) (identified_images images))
    → Among id (image_ids images)
unfolding identified_images
identified_ids id [] h = h
identified_ids id (i ∷ is) (inl e) = inl e
identified_ids id (i ∷ is) (inr h) = inr (identified_ids id is h)

module _ (number_or_zero : Text → ℕ) where
  In-versions :
      (next : Text) (images : List Image) (i : Identified)
      → In i (versions number_or_zero next images)
      → In i (identified_images images) × (same i.id.family next ≡ true)
  unfolding versions of_family
  In-versions next images i h =
      (In-filter_iff _ i (identified_images images)).0
        ((In-sort (newest_first number_or_zero) i _).0 h)

  version_ids :
      (next : Text) (images : List Image) (id : Text)
      → Among id (map (λ i. i.img.id) (versions number_or_zero next images))
      → Among id (image_ids images)
  version_ids next images id h =
      let found = Among-map_sound (λ i. i.img.id) id (versions number_or_zero next images) h in
      identified_ids id images (
        subst (λ t. Among t (map (λ i. i.img.id) (identified_images images))) (sym found.2)
          (Among-map_complete (λ i. i.img.id) found.0 (identified_images images)
            (In-versions next images found.0 found.1).0))

  image_id_of-OneOf :
      (items : List Identified) → OneOf (image_id_of items) (map (λ i. i.img.id) items)
  image_id_of-OneOf [] = inl refl
  image_id_of-OneOf (i ∷ is) = inr (inl refl)

  newest_image-OneOf :
      (next : Text) (images : List Image)
      → OneOf (newest_image number_or_zero next images) (image_ids images)
  unfolding newest_image
  newest_image-OneOf next images = elim (image_id_of-OneOf (versions number_or_zero next images)) [
    | inl e ↦ inl e
    | inr h ↦ inr (version_ids next images _ h)
  ]

  module _ (estate : Estate) where
    -- A step that leaves the four alone keeps them in place, and so does one that picks what is offered.
    if_offered-IsPlaced :
        (off : Bool) (option : Text) (options : List Text) (form next : Form)
        → IsPlaced estate form
        → (Among option options → IsPlaced estate next)
        → IsPlaced estate (if_offered off option options form next)
    unfolding if_offered
    if_offered-IsPlaced true option options form next placed then_placed = placed
    if_offered-IsPlaced false option options form next placed then_placed =
        elim (Bool-cases (among option options)) [
          | inl e ↦ rw e (then_placed (among_sound option options e))
          | inr e ↦ rw e placed
        ]

    no_pools : (storage node : Text) → OneOf storage (disk_pools estate [] node) → storage ≡ []
    unfolding disk_pools
    no_pools storage node (inl e) = e
    no_pools storage node (inr h) = absurd h

    none_of : (x : Text) → OneOf x [] → x ≡ []
    none_of x (inl e) = e
    none_of x (inr h) = absurd h

    -- The first hypervisor is taken where none was chosen, and then nothing else is.
    pick_first-IsPlaced :
        (ids : List Text) (form : Form)
        → ((id : Text) → Among id ids → Among id (connected estate.hypervisors))
        → form.hypervisor_id ≡ []
        → IsPlaced estate form
        → IsPlaced estate (pick_first ids form)
    pick_first-IsPlaced [] form sub blank placed = placed
    pick_first-IsPlaced (first ∷ rest) form sub blank placed = (
      inr (sub first (inl refl)),
      inl (none_of _ (subst (λ h. OneOf form.node (nodes_of estate h)) blank placed.1)),
      inl (
          none_of _
            (subst (λ h. OneOf form.image_id (image_ids (images_of estate h))) blank placed.2)),
      inl (
          no_pools _ _
            (subst (λ h. OneOf form.storage (disk_pools estate h form.node)) blank placed.3)),
    )

    prefill-IsPlaced :
        (template : TemplateDetail) (form : Form)
        → IsPlaced estate form
        → IsPlaced estate (prefill template form)
    unfolding prefill
    prefill-IsPlaced template form placed = elim (Bool-cases form.sizing_touched) [
      | inl e ↦ rw e placed
      | inr e ↦ rw e placed
    ]

    step-IsPlaced :
        (e : FormEvent) (form : Form)
        → IsPlaced estate form
        → IsPlaced estate (step number_or_zero estate e form)
    unfolding step
    step-IsPlaced (type_name v) form placed = placed
    step-IsPlaced (pick_hypervisor id) form placed =
        if_offered-IsPlaced false id _ form _ placed (λ h. (inr h, inl refl, inl refl, inl refl))
    step-IsPlaced (pick_node id) form placed =
        if_offered-IsPlaced _ id _ form _ placed (λ h. (placed.0, inr h, placed.2, inl refl))
    step-IsPlaced (pick_family next) form placed =
        if_offered-IsPlaced _ next _ form _ placed
          (λ h. (placed.0, placed.1, newest_image-OneOf next _, placed.3))
    step-IsPlaced (pick_version id) form placed =
        if_offered-IsPlaced _ id _ form _ placed
          (λ h. (placed.0, placed.1, inr (version_ids _ _ id h), placed.3))
    step-IsPlaced (pick_storage v) form placed =
        if_offered-IsPlaced _ v _ form _ placed (λ h. (placed.0, placed.1, placed.2, h))
    step-IsPlaced (pick_bridge v) form placed =
        if_offered-IsPlaced _ v _ form _ placed (λ h. placed)
    step-IsPlaced (type_description v) form placed = placed
    step-IsPlaced (type_serial v) form placed = placed
    step-IsPlaced (type_cpus n) form placed = placed
    step-IsPlaced (type_memory n) form placed = placed
    step-IsPlaced (type_disk n) form placed = placed
    step-IsPlaced (type_vlan n) form placed =
        elim (Bool-cases (
          is_empty form.net_bridge
          || not (is_vlan_aware form.net_bridge (zone_bridges estate form)))) [
            | inl e ↦ rw e placed
            | inr e ↦ rw e placed
          ]
    step-IsPlaced (type_cloud_init field) form placed = placed
    step-IsPlaced (protect v) form placed = placed
    step-IsPlaced rendered form placed = elim (Bool-cases (is_empty form.hypervisor_id)) [
      | inl e ↦ rw e (pick_first-IsPlaced _ form (λ id h. h) ((is_empty_iff _).0 e) placed)
      | inr e ↦ rw e placed
    ]
    step-IsPlaced (template_arrives template) form placed = prefill-IsPlaced template form placed

    -- Whatever is done, from any form in place, the form stays in place.
    pub run-IsPlaced :
        (es : List FormEvent) (form : Form)
        → IsPlaced estate form
        → IsPlaced estate (run number_or_zero estate es form)
    unfolding run
    run-IsPlaced [] form placed = placed
    run-IsPlaced (e ∷ es) form placed =
        run-IsPlaced es (step number_or_zero estate e form) (step-IsPlaced e form placed)

    pub new_form-IsPlaced : IsPlaced estate new_form
    new_form-IsPlaced = (inl refl, inl refl, inl refl, inl refl)
