-- ===== src/Dns/Tests.antt =====
-- Concrete records for the theorems on record sets and names.
use vantric.Prelude.{arith, All, List, [], ◌∷◌, ◌≡◌, false}
use vantric.Prelude.Text.{Text, text}
use vantric.Dns.{DnsRecord, to_record_sets}
use vantric.Dns.Sets.{HasDistinctKeys, to_record_sets-distinct}
use vantric.Dns.Grouped.{LacksBar, of_name_and_type, to_record_sets-records}

abbrev mail : Text → DnsRecord
mail content = record {
  id = content;
  name = text "example.org";
  type = text "MX";
  content = content;
  ttl = 300;
  priority = 10;
  proxied = false;
}

abbrev zone : List DnsRecord
zone = mail (text "mx1") ∷ record (mail (text "web")) { type = text "A" } ∷ mail (text "mx2") ∷ []

no_bar : All (λ r. LacksBar r.type) zone
unfolding text
no_bar = ground arith

to_record_sets-records_example :
    All (λ s. s.records ≡ of_name_and_type s.name s.type zone) (to_record_sets zone)
to_record_sets-records_example = to_record_sets-records zone no_bar

to_record_sets-distinct_example : HasDistinctKeys (to_record_sets zone)
to_record_sets-distinct_example = to_record_sets-distinct zone
