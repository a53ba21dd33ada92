-- ===== src/Reverse.antt =====
-- frontend/src/reverseDns.ts: telling a reverse zone, and the network that one covers.
pub mod Trees
use vantric.Prelude.{
  ℕ, ◌*◌, ◌+◌, Bool, not, ◌&&◌, ◌||◌, Option, none, some, List, [], ◌∷◌, ◌++◌, map, reverse,
  if◌then◌else◌, length, take, every, filter_by, ltb, leb, ◌==◌,
}
use vantric.Prelude.Text.{Text, text, trim, ends, split, join, show, number, is_empty, without_last}
use vantric.Regex.{test}
use vantric.Validation.Numbers.{digits_re}

abbrev pub in_addr : Text
in_addr = text "in-addr.arpa"

abbrev pub ip6 : Text
ip6 = text "ip6.arpa"

-- `zone.trim().toLowerCase().replace(/\.$/, '')`
unfoldable pub zone_name : (Text → Text) → Text → Text
unfolding trim ends without_last text
zone_name to_lower_case zone =
    let name = to_lower_case (trim zone) in
    if ends (text ".") name then without_last 1 name else name

unfoldable pub is_reverse_zone : (Text → Text) → Text → Bool
unfolding zone_name ends
is_reverse_zone to_lower_case zone =
    ends in_addr (zone_name to_lower_case zone) || ends ip6 (zone_name to_lower_case zone)

unfoldable pub is_octet_label : Text → Bool
unfolding test digits_re number
is_octet_label l = test (digits_re 2) l && leb (number l) 255

-- `[...forward, 0, 0, 0].slice(0, 4)` and the prefix length
unfoldable pub network_text : List ℕ → Text
unfolding text show join
network_text forward =
    join (text ".") (map show (take 4 (forward ++ 0 ∷ 0 ∷ 0 ∷ [])))
    ++ b'/' ∷ show (length forward * 8)

unfoldable pub network_of_labels : List Text → Option Text
unfolding is_octet_label network_text
network_of_labels labels =
    if length labels == 0 || ltb 4 (length labels)
    then none
    else if not (every is_octet_label labels)
    then none
    else some (network_text (map number (reverse labels)))

unfoldable pub network_for_reverse_zone : (Text → Text) → Text → Option Text
unfolding zone_name network_of_labels split
network_for_reverse_zone to_lower_case zone =
    let name = zone_name to_lower_case zone in
    if not (ends in_addr name)
    then none
    else network_of_labels
        (filter_by (λ l. not (is_empty l)) (split b'.' (without_last (length in_addr + 1) name)))
