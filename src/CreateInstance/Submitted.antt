-- ===== src/CreateInstance/Submitted.antt =====
-- What the form asks the server for.
use vantric.Prelude.{
  ℕ, ◌≡◌, refl, subst, Bool, true, false, not, ◌&&◌, ◌≤◌, Option, none, some, List, [], ◌∷◌, ◌⊎◌,
  inl, inr, Bool-cases, length, arith, map,
}
use vantric.Prelude.Text.{Text, Among, is_empty, is_empty_iff, is_lower, trim}
use vantric.Regex.{test}
use vantric.Regex.Lang.{test_iff}
use vantric.Regex.Classes.{IsLabel, bounded_label_iff}
use vantric.Validation.Names.{resource_unit, lower_or_digit}
use vantric.CreateInstance.CloudInit.{TemplateDetail, or_text}
use vantric.CreateInstance.Fields.{
  Estate, Form, new_form, connected, nodes_of, images_of, disk_pools,
}
use vantric.CreateInstance.{
  FormEvent, InstanceRequest, run, name_re, has_cpu_error, has_memory_error, has_disk_error,
  machine_valid, os_valid, given_text, created_request, submit,
}
use vantric.CreateInstance.Placed.{OneOf, IsPlaced, run-IsPlaced, new_form-IsPlaced}

name_re_sound :
    (s : Text)
    → (test name_re s ≡ true)
    → IsLabel is_lower resource_unit lower_or_digit s × (length s ≤ 63)
unfolding name_re
name_re_sound s h =
    (bounded_label_iff is_lower resource_unit lower_or_digit (λ c k. ground arith)
        (λ c k. ground arith) 61 s).0
      ((test_iff _ s).0 h)

some_inj : {A : Type 0} (a b : A) → some a ≡ some b → a ≡ b
some_inj a b h = cc

-- The size and the name are ones that the fields let through, and the guest has a serial number.
abbrev pub IsSized : Option TemplateDetail → InstanceRequest → Type 0
IsSized template r =
    IsLabel is_lower resource_unit lower_or_digit r.name
    × (length r.name ≤ 63)
    × (has_cpu_error r.cpus ≡ false)
    × (has_memory_error r.memory_mb ≡ false)
    × (has_disk_error template r.disk_gb ≡ false)
    × (is_empty r.serial ≡ false)

-- A connected hypervisor, a node and a template of it, and no pool or one of that node that takes disks
abbrev pub IsOnNode : Estate → InstanceRequest → Type 0
IsOnNode estate r =
    Among r.hypervisor_id (connected estate.hypervisors)
    × Among r.node (nodes_of estate r.hypervisor_id)
    × Among r.image_id (map (λ i. i.id) (images_of estate r.hypervisor_id))
    × ((r.storage ≡ none)
        ⊎ ((s : Text) × (r.storage ≡ some s) × Among s (disk_pools estate r.hypervisor_id r.node)))

abbrev IsValid : Option TemplateDetail → Form → Type 0
IsValid template form =
    (test name_re form.name ≡ true)
    × (is_empty form.hypervisor_id ≡ false)
    × (is_empty form.node ≡ false)
    × (has_cpu_error form.cpus ≡ false)
    × (has_memory_error form.memory_mb ≡ false)
    × (is_empty form.image_id ≡ false)
    × (has_disk_error template form.disk_gb ≡ false)

IsValid-sound :
    (template : Option TemplateDetail) (form : Form)
    → machine_valid form && os_valid template form ≡ true
    → IsValid template form
unfolding machine_valid os_valid
IsValid-sound template form h =
    all_seven (test name_re form.name) (is_empty form.hypervisor_id) (is_empty form.node)
      (has_cpu_error form.cpus) (has_memory_error form.memory_mb) (is_empty form.image_id)
      (has_disk_error template form.disk_gb) h
  where
    all_seven :
        (a b c d e f g : Bool)
        → a && not b && not c && not d && not e && (not f && not g) ≡ true
        → (a ≡ true)
          × (b ≡ false)
          × (c ≡ false)
          × (d ≡ false)
          × (e ≡ false)
          × (f ≡ false)
          × (g ≡ false)
    all_seven true false false false false false false h =
        (refl, refl, refl, refl, refl, refl, refl)
    all_seven false b c d e f g h = absurd (cc)
    all_seven true true c d e f g h = absurd (cc)
    all_seven true false true d e f g h = absurd (cc)
    all_seven true false false true e f g h = absurd (cc)
    all_seven true false false false true f g h = absurd (cc)
    all_seven true false false false false true g h = absurd (cc)
    all_seven true false false false false false true h = absurd (cc)

chosen : (x : Text) (xs : List Text) → is_empty x ≡ false → OneOf x xs → Among x xs
chosen x xs h (inl e) = absurd (let blank = (is_empty_iff x).1 e in cc)
chosen x xs h (inr member) = member

given_one :
    (x : Text) (xs : List Text)
    → OneOf x xs
    → (given_text x ≡ none) ⊎ ((s : Text) × (given_text x ≡ some s) × Among s xs)
given_one [] xs h = inl refl
given_one (c ∷ x) xs (inl e) = absurd (cc)
given_one (c ∷ x) xs (inr member) = inr (c ∷ x, refl, member)

blank_no_label : test name_re [] ≡ false
unfolding name_re test
blank_no_label = refl

label_not_empty : (s : Text) → test name_re s ≡ true → is_empty s ≡ false
label_not_empty [] h = absurd (let no = blank_no_label in cc)
label_not_empty (c ∷ s) h = refl

or_text_not_empty : (a b : Text) → is_empty b ≡ false → is_empty (or_text a b) ≡ false
or_text_not_empty [] b h = h
or_text_not_empty (c ∷ a) b h = refl

request_sound :
    (estate : Estate) (template : Option TemplateDetail) (form : Form)
    → IsPlaced estate form
    → IsValid template form
    → IsSized template (created_request form) × IsOnNode estate (created_request form)
unfolding created_request
request_sound estate template form placed valid =
    let named = name_re_sound form.name valid.0 in
    (
      (
        named.0,
        named.1,
        valid.3,
        valid.4,
        valid.6,
        or_text_not_empty (trim form.serial) form.name (label_not_empty form.name valid.0),
      ),
      (
        chosen form.hypervisor_id _ valid.1 placed.0,
        chosen form.node _ valid.2 placed.1,
        chosen form.image_id _ valid.5 placed.2,
        given_one form.storage _ placed.3,
      ),
    )

submitted :
    (template : Option TemplateDetail) (form : Form) (r : InstanceRequest)
    → submit template form ≡ some r
    → (machine_valid form && os_valid template form ≡ true) × (created_request form ≡ r)
unfolding submit
submitted template form r h = elim (Bool-cases (machine_valid form && os_valid template form)) [
  | inl e ↦ (e, some_inj (created_request form) r (rw e at h))
  | inr e ↦ absurd (let bad = rw e at h in cc)
]

-- Whatever was done to a new form, what it submits is named as the name field asks, within the bounds of the
-- size fields and with a serial number, and is put on a connected hypervisor, on a node, from a template
-- and on a pool, if any, that belong together; if what the server lists does not change meanwhile.
pub request_is_sound :
    (number_or_zero : Text → ℕ) (estate : Estate) (template : Option TemplateDetail)
    (es : List FormEvent) (r : InstanceRequest)
    → submit template (run number_or_zero estate es new_form) ≡ some r
    → IsSized template r × IsOnNode estate r
request_is_sound number_or_zero estate template es r h =
    let form = run number_or_zero estate es new_form in
    let sent = submitted template form r h in
    subst (λ r. IsSized template r × IsOnNode estate r) sent.1
      (request_sound estate template form
        (run-IsPlaced number_or_zero estate es new_form (new_form-IsPlaced number_or_zero estate))
        (IsValid-sound template form sent.0))
