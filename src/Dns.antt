-- ===== src/Dns.antt =====
-- frontend/src/dnsRecords.ts: record sets, the records that share a name and a type.
pub mod Sets
pub mod Grouped
pub mod Names
pub mod Tests
use vantric.Prelude.{
  ℕ, suc, ◌+◌, Bool, true, false, ◌&&◌, ◌||◌, Option, none, some, List, [], ◌∷◌, ◌++◌, map, leb,
  ◌==◌, if◌then◌else◌, length,
}
use vantric.Prelude.Text.{Text, text, same, among, ends, without_last, show}

-- A record as the API sends it; the fields that the grouping does not read are left out.
pub record DnsRecord : Type 0 where
  pub id : Text
  pub name : Text
  pub type : Text
  pub content : Text
  pub ttl : ℕ
  pub priority : ℕ
  pub proxied : Bool

pub record RecordSet : Type 0 where
  pub name : Text
  pub type : Text
  pub ttl : ℕ
  pub proxied : Bool
  pub records : List DnsRecord

abbrev pub editable_types : List Text
editable_types =
    text "A" ∷ text "AAAA" ∷ text "CNAME" ∷ text "MX" ∷ text "NS" ∷ text "PTR" ∷ text "TXT" ∷ []

unfoldable pub can_edit : Text → Bool
unfolding among text
can_edit type = among type editable_types

abbrev pub prioritized : List Text
prioritized = text "MX" ∷ text "SRV" ∷ text "URI" ∷ []

unfoldable pub has_priority : Text → Bool
unfolding among text
has_priority type = among type prioritized

unfoldable pub record_data : DnsRecord → Text
unfolding has_priority show
record_data r = if has_priority r.type then show r.priority ++ b' ' ∷ r.content else r.content

-- `${record.name}|${record.type}`
unfoldable pub key : Text → Text → Text
key name type = name ++ b'|' ∷ type

abbrev pub key_of : DnsRecord → Text
key_of r = key r.name r.type

-- The map from keys to sets, in the order in which its keys were set.
abbrev pub Sets : Type 0
Sets = List (Text × RecordSet)

abbrev pub new_set : DnsRecord → RecordSet
new_set r = record {
  name = r.name;
  type = r.type;
  ttl = r.ttl;
  proxied = r.proxied;
  records = r ∷ [];
}

-- One round of the loop: the record joins the set of its key, or starts one.
unfoldable pub add_record : DnsRecord → Sets → Sets
unfolding same key
add_record r [] = (key_of r, new_set r) ∷ []
add_record r ((k, s) ∷ sets) =
    if same k (key_of r)
    then (k, record s { records = s.records ++ r ∷ [] }) ∷ sets
    else (k, s) ∷ add_record r sets

unfoldable pub group : Sets → List DnsRecord → Sets
unfolding add_record
group sets [] = sets
group sets (r ∷ rs) = group (add_record r sets) rs

unfoldable pub to_record_sets : List DnsRecord → List RecordSet
unfolding group
to_record_sets records = map (λ (e : Text × RecordSet). e.1) (group [] records)

unfoldable pub relative_name : Text → Text → Text
unfolding same ends without_last
relative_name name zone =
    if same name zone
    then []
    else if ends (b'.' ∷ zone) name
    then without_last (length zone + 1) name
    else name
