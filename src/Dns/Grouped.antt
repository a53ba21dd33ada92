-- ===== src/Dns/Grouped.antt =====
-- What the record sets hold, by names and types: a type that holds no bar keeps the keys apart.
use vantric.Prelude.{
  ◌&&◌, List, [], ◌∷◌, ◌≡◌, refl, ◌∙◌, inl, inr, filter_by, All, All-imp₂, Bool-cases,
}
use vantric.Prelude.Text.{Text, same}
use vantric.Prelude.Text.Split.{Lacks, same-marked}
use vantric.Dns.{DnsRecord, key, key_of, Sets, add_record, group, to_record_sets}
use vantric.Dns.Sets.{with_key, second_All, to_record_sets-with_key}

-- The records of a name and a type, in order
abbrev pub of_name_and_type : Text → Text → List DnsRecord → List DnsRecord
of_name_and_type name type = filter_by (λ r. same r.name name && same r.type type)

abbrev pub LacksBar : Text → Type 0
LacksBar = Lacks b'|'

add_record-LacksBar :
    (r : DnsRecord) (sets : Sets)
    → LacksBar r.type
    → All (λ e. LacksBar e.1.type) sets
    → All (λ e. LacksBar e.1.type) (add_record r sets)
unfolding add_record
add_record-LacksBar r [] h lacks = (h, tt)
add_record-LacksBar r ((k, s) ∷ sets) h (hs, lacks) = elim (Bool-cases (same k (key_of r))) [
  | inl e ↦ rw e (hs, lacks)
  | inr e ↦ rw e (hs, add_record-LacksBar r sets h lacks)
]

group-LacksBar :
    (sets : Sets) (rs : List DnsRecord)
    → All (λ r. LacksBar r.type) rs
    → All (λ e. LacksBar e.1.type) sets
    → All (λ e. LacksBar e.1.type) (group sets rs)
unfolding group
group-LacksBar sets [] h lacks = lacks
group-LacksBar sets (r ∷ rs) (hr, h) lacks =
    group-LacksBar (add_record r sets) rs h (add_record-LacksBar r sets hr lacks)

with_key-key :
    (name type : Text) (rs : List DnsRecord)
    → LacksBar type
    → All (λ r. LacksBar r.type) rs
    → with_key (key name type) rs ≡ of_name_and_type name type rs
unfolding key
with_key-key name type [] lacks h = refl
with_key-key name type (r ∷ rs) lacks (hr, h) =
    rw (same-marked b'|' r.name name r.type type hr lacks, with_key-key name type rs lacks h) refl

-- If no type holds a bar, each set holds exactly the records of the input that have its name and its
-- type, in their order.
pub to_record_sets-records :
    (rs : List DnsRecord)
    → All (λ r. LacksBar r.type) rs
    → All (λ s. s.records ≡ of_name_and_type s.name s.type rs) (to_record_sets rs)
unfolding to_record_sets
to_record_sets-records rs h =
    All-imp₂ (to_record_sets rs) (λ s lacks holds. holds ∙ with_key-key s.name s.type rs lacks h)
      (second_All (λ s. LacksBar s.type) (group [] rs) (group-LacksBar [] rs h tt))
      (to_record_sets-with_key rs)
