-- ===== src/Validation/Ipv4.antt =====
-- IPv4 in frontend/src/validation.ts: addresses, networks in CIDR form, and membership.
pub mod Tests
pub mod Octets
pub mod Cidr
pub mod Within
pub mod Suggest
use Prim.Native.Nat.{bit_and}
use vantric.Prelude.{
  ℕ, zero, suc, ◌+◌, ◌-◌, ◌*◌, ◌/◌, ◌%◌, ◌^◌, Bool, true, false, not, ◌&&◌, ◌||◌, Option, none,
  some, List, [], ◌∷◌, ◌++◌, map, ltb, leb, ◌==◌, if◌then◌else◌, length, every,
}
use vantric.Prelude.Text.{Text, text, is_empty, trim, split, join, number, show}
use vantric.Regex.{test}
use vantric.Validation.Numbers.{digits_re}

-- `/^\d{1,3}$/.test(o) && Number(o) <= 255`
pub is_octet : Text → Bool
unfolding digits_re
is_octet o = test (digits_re 2) o && leb (number o) 255

pub is_ipv4 : Text → Bool
unfolding is_octet
is_ipv4 value = let octets = split b'.' value in length octets == 4 && every is_octet octets

-- One part as a number; `none` is the NaN that stands for a part with another shape.
pub octet : Text → Option ℕ
unfolding digits_re
octet part = if test (digits_re 2) part then some (number part) else none

-- `n >= 0 && n <= 255`, which no NaN passes
abbrev pub in_octet_range : Option ℕ → Bool
in_octet_range none = false
in_octet_range (some n) = leb 0 n && leb n 255

abbrev pub octet_value : Option ℕ → ℕ
octet_value none = 0
octet_value (some n) = n

pub ipv4_octets : Text → Option (List ℕ)
unfolding octet
ipv4_octets value =
    let parts = split b'.' value in
    let octets = map octet parts in
    if not (length parts == 4)
    then none
    else if every in_octet_range octets
    then some (map octet_value octets)
    else none

-- `octets.reduce((n, octet) => n * 256 + octet, n)`
pub to_int : ℕ → List ℕ → ℕ
to_int n [] = n
to_int n (octet ∷ octets) = to_int (n * 256 + octet) octets

-- `prefix === 0 ? 0 : (0xffffffff << (32 - prefix)) >>> 0`; a shift count is taken modulo 32, and
-- callers pass a prefix of at most 32.
pub mask : ℕ → ℕ
mask prefix = if prefix == 0 then 0 else 0xffffffff * 2 ^ ((32 - prefix) % 32) % 2 ^ 32

-- `(value32 & mask) >>> 0`
abbrev pub network_of : ℕ → ℕ → ℕ
network_of value32 m = bit_and value32 m % 2 ^ 32

-- `[24, 16, 8, 0].map((shift) => (network >>> shift) & 255)`
pub octets_of : ℕ → List ℕ
octets_of network =
    bit_and (network / 2 ^ 24) 255
    ∷ bit_and (network / 2 ^ 16) 255
    ∷ bit_and (network / 2 ^ 8) 255
    ∷ bit_and network 255
    ∷ []

-- `${masked}/${prefix}`
pub cidr_text : ℕ → ℕ → Text
unfolding octets_of
cidr_text network prefix = join (text ".") (map show (octets_of network)) ++ b'/' ∷ show prefix

-- What follows once the octets of the address are known.
pub cidr_octets_error : List ℕ → Text → Option Text
unfolding to_int mask cidr_text digits_re
cidr_octets_error octets bits =
    let prefix = number bits in
    let value32 = to_int 0 octets in
    let network = network_of value32 (mask prefix) in
    if not (test (digits_re 1) bits) || ltb 32 prefix
    then some (text "Prefix length must be 0–32")
    else if not (network == value32)
    then some (text "Host bits set — did you mean " ++ cidr_text network prefix ++ text "?")
    else none

-- What follows once the text is split into an address and a prefix length.
pub cidr_parts_error : Text → Text → Option Text
unfolding ipv4_octets cidr_octets_error
cidr_parts_error address bits = elim (ipv4_octets address) [
  | none ↦ some (text "Not an IPv4 address")
  | some octets ↦ cidr_octets_error octets bits
]

-- `const [address, bits, ...rest] = …; if (rest.length || bits === undefined) …`
pub cidr_split_error : List Text → Option Text
unfolding cidr_parts_error
cidr_split_error (address ∷ bits ∷ []) = cidr_parts_error address bits
cidr_split_error _ = some (text "Use CIDR, for example 192.168.80.0/24")

pub ipv4_cidr_error : Text → Option Text
unfolding cidr_split_error
ipv4_cidr_error value =
    let trimmed = trim value in
    if is_empty trimmed then none else cidr_split_error (split b'/' trimmed)

-- `const [network, bits] = …`, and the comparison under the mask of `bits`. A network that has passed
-- `ipv4_cidr_error` has both, or is blank and has no octets.
pub within_error : List ℕ → Text → List Text → Option Text
unfolding ipv4_octets to_int mask
within_error octets cidr (network ∷ bits ∷ rest) = elim (ipv4_octets network) [
  | none ↦ none
  | some net_octets ↦
      let m = mask (number bits) in
      if not (network_of (to_int 0 octets) m == network_of (to_int 0 net_octets) m)
      then some (text "Not inside " ++ trim cidr)
      else none
]
within_error octets cidr _ = none

-- `withinCIDR` is `none` where the caller leaves it out.
pub ipv4_address_error : Text → Option Text → Option Text
unfolding ipv4_octets ipv4_cidr_error within_error
ipv4_address_error value within_cidr =
    let trimmed = trim value in
    if is_empty trimmed then none else elim (ipv4_octets trimmed) [
      | none ↦ some (text "Not an IPv4 address")
      | some octets ↦ elim within_cidr [
        | none ↦ none
        | some cidr ↦ elim (ipv4_cidr_error cidr) [
          | some _ ↦ none
          | none ↦ if is_empty cidr then none else within_error octets cidr (split b'/' (trim cidr))
        ]
      ]
    ]
