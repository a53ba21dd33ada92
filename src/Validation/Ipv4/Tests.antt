-- ===== src/Validation/Ipv4/Tests.antt =====
-- Concrete addresses and networks for the theorems on IPv4.
use vantric.Prelude.{
  ℕ, ◌-◌, ◌/◌, ◌^◌, ◌<◌, none, some, List, [], ◌∷◌, ◌++◌, ◌≡◌, refl, ◌↔◌, ◌⊎◌, arith,
}
use vantric.Prelude.Text.{
  Text, text, trim, trim_start, is_space, split, split_from, number, number_from,
}
use vantric.Regex.{test, nullable, deriv}
use vantric.Validation.Numbers.{digits_re}
use vantric.Validation.Ipv4.{
  octet, ipv4_octets, to_int, mask, cidr_text, cidr_octets_error, ipv4_cidr_error,
  ipv4_address_error,
}
use vantric.Validation.Ipv4.Octets.{dotted, ipv4_octets-dotted}
use vantric.Validation.Ipv4.Cidr.{IsNetwork, ipv4_cidr_error-eq-none_iff}
use vantric.Validation.Ipv4.Within.{ipv4_address_error-eq-none_iff}
use vantric.Validation.Ipv4.Suggest.{cidr_suggestion_passes}

abbrev lab : List ℕ
lab = 192 ∷ 168 ∷ 80 ∷ 0 ∷ []

ipv4_octets-dotted_example : ipv4_octets (dotted lab) ≡ some lab
ipv4_octets-dotted_example =
    ipv4_octets-dotted 192 168 80 0 (omega arith, (omega arith, (omega arith, (omega arith, tt))))

ipv4_cidr_error-eq-none_iff_example : (ipv4_cidr_error (text "192.168.80.0/24") ≡ none) ↔ (
    (trim (text "192.168.80.0/24") ≡ [])
    ⊎ ((address : Text) × (bits : Text) × (octets : List ℕ) × (split b'/'
            (trim (text "192.168.80.0/24"))
          ≡ address ∷ bits ∷ [])
        × (ipv4_octets address ≡ some octets)
        × IsNetwork octets bits))
ipv4_cidr_error-eq-none_iff_example = ipv4_cidr_error-eq-none_iff (text "192.168.80.0/24")

lab_parts : split b'/' (trim (text "192.168.80.0/24")) ≡ text "192.168.80.0" ∷ text "24" ∷ []
unfolding split split_from trim trim_start is_space text
lab_parts = refl

lab_found : ipv4_octets (text "192.168.80.0") ≡ some lab
unfolding ipv4_octets octet split split_from text number number_from test nullable deriv digits_re
lab_found = refl

lab_is_net : IsNetwork lab (text "24")
unfolding to_int text number number_from test nullable deriv digits_re
lab_is_net = (refl, omega arith, refl)

ipv4_address_error-eq-none_iff_example :
    (ipv4_address_error (text "192.168.80.7") (some (text "192.168.80.0/24")) ≡ none) ↔ (
      (trim (text "192.168.80.7") ≡ [])
      ⊎ ((octets : List ℕ) × (ipv4_octets (trim (text "192.168.80.7")) ≡ some octets)
          × (to_int 0 octets / 2 ^ (32 - number (text "24"))
              ≡ to_int 0 lab / 2 ^ (32 - number (text "24")))))
ipv4_address_error-eq-none_iff_example =
    ipv4_address_error-eq-none_iff (text "192.168.80.7") (text "192.168.80.0/24")
      (text "192.168.80.0") (text "24") lab lab_parts lab_found lab_is_net

abbrev guest_octets : List ℕ
guest_octets = 192 ∷ 168 ∷ 80 ∷ 7 ∷ []

abbrev advice : Text
advice = text "Host bits set — did you mean " ++ cidr_text 3232256000 24 ++ text "?"

host_bits : cidr_octets_error guest_octets (text "24") ≡ some advice
unfolding cidr_octets_error to_int mask text number number_from test nullable deriv digits_re
host_bits = refl

guest_fits : to_int 0 guest_octets < 2 ^ 32
unfolding to_int
guest_fits = omega arith

cidr_suggestion_passes_example :
    (advice ≡ text "Prefix length must be 0–32")
    ⊎ ((suggested : Text) × (advice ≡ text "Host bits set — did you mean " ++ suggested ++ text "?")
        × (ipv4_cidr_error suggested ≡ none))
cidr_suggestion_passes_example =
    cidr_suggestion_passes guest_octets (text "24") advice guest_fits host_bits
