-- ===== src/Validation/Ipv4/Cidr.antt =====
-- Networks in CIDR form: which are accepted, what is suggested, and which addresses lie inside.
use native.Mathlib.Nat.{div-add-mod}
use vantric.Prelude.{
  ℕ, ◌-◌, ◌*◌, ◌/◌, ◌%◌, ◌^◌, ◌≤◌, ◌<◌, true, none, some, List, [], ◌∷◌, ◌≡◌, refl, ◌↔◌, ◌⊎◌, inl,
  inr, arith, leb, ◌==◌, ==_iff, leb→le, length, Bool-cases, Option-cases,
}
use vantric.Prelude.Bits.{two_pow, ones, bit_and-mask, pow-two, checked, checked_sound}
use vantric.Prelude.Text.{Text, is_empty, is_empty_iff, trim, split, number}
use vantric.Regex.{test}
use vantric.Validation.Numbers.{digits_re}
use vantric.Validation.Ipv4.{
  ipv4_octets, to_int, mask, network_of, cidr_octets_error, cidr_parts_error, cidr_split_error,
  ipv4_cidr_error,
}
use vantric.Validation.Ipv4.Octets.{AreOctets, ipv4_octets_bounds}

mask_table : checked (λ p. mask p == two_pow (32 - p) * ones p) 32 ≡ true
unfolding checked mask
mask_table = refl

mask-ones : (prefix : ℕ) → prefix ≤ 32 → mask prefix ≡ two_pow (32 - prefix) * ones prefix
mask-ones prefix h =
    (==_iff _ _).0 (checked_sound (λ p. mask p == two_pow (32 - p) * ones p) 32 prefix h mask_table)

width_table : checked (λ p. two_pow (32 - p) * two_pow p == 2 ^ 32) 32 ≡ true
unfolding checked
width_table = refl

-- The bits of a network: what is left of an address with its low bits cleared.
pub network_of-mask :
    (value32 prefix : ℕ)
    → value32 < 2 ^ 32
    → prefix ≤ 32
    → network_of value32 (mask prefix) ≡ 2 ^ (32 - prefix) * (value32 / 2 ^ (32 - prefix))
network_of-mask value32 prefix fits h =
    let width =
      (==_iff (two_pow (32 - prefix) * two_pow prefix) (2 ^ 32)).0
        (checked_sound (λ p. two_pow (32 - p) * two_pow p == 2 ^ 32) 32 prefix h width_table) in
    let cleared = bit_and-mask (32 - prefix) prefix value32 (omega arith) in
    let below = div-add-mod value32 (two_pow (32 - prefix)) in
    rw (mask-ones prefix h, cleared, pow-two (32 - prefix)) (omega arith)

pub to_int-lt : (octets : List ℕ) → length octets ≡ 4 → AreOctets octets → to_int 0 octets < 2 ^ 32
unfolding to_int
to_int-lt (a ∷ b ∷ c ∷ d ∷ []) h (ha, (hb, (hc, (hd, _)))) = omega arith
to_int-lt _ h bounds = absurd (omega arith)

-- The low bits of a network are zero.
pub network_of-eq_iff :
    (value32 prefix : ℕ)
    → value32 < 2 ^ 32
    → prefix ≤ 32
    → (network_of value32 (mask prefix) ≡ value32) ↔ (value32 % 2 ^ (32 - prefix) ≡ 0)
network_of-eq_iff value32 prefix fits h =
    let e = network_of-mask value32 prefix fits h in
    let parts = div-add-mod value32 (2 ^ (32 - prefix)) in (λ k. omega arith, λ k. omega arith)

-- A prefix length of one or two digits, 32 at most, below which the address has no bit set.
abbrev pub IsNetwork : List ℕ → Text → Type 0
IsNetwork octets bits =
    (test (digits_re 1) bits ≡ true)
    × (number bits ≤ 32)
    × (to_int 0 octets % 2 ^ (32 - number bits) ≡ 0)

pub cidr_octets_error_iff :
    (octets : List ℕ) (bits : Text)
    → to_int 0 octets < 2 ^ 32
    → (cidr_octets_error octets bits ≡ none) ↔ IsNetwork octets bits
unfolding cidr_octets_error
cidr_octets_error_iff octets bits fits = elim (Bool-cases (leb (number bits) 32)) [
  | inl short ↦
      ground (arith, network_of-eq_iff (to_int 0 octets) (number bits) fits (leb→le _ _ short))
  | inr long ↦ ground arith
]

cidr_parts_error_iff :
    (address bits : Text)
    → (cidr_parts_error address bits ≡ none)
      ↔ ((octets : List ℕ) × (ipv4_octets address ≡ some octets) × IsNetwork octets bits)
unfolding cidr_parts_error
cidr_parts_error_iff address bits = elim (Option-cases (ipv4_octets address)) [
  | inl missing ↦ rw (missing, cidr_parts_error) (λ h. absurd (cc), λ (octets, e, _). absurd (cc))
  | inr (octets, found) ↦
      let (four, bytes) = ipv4_octets_bounds address octets found in
      let inner = cidr_octets_error_iff octets bits (to_int-lt octets four bytes) in
      (
        λ h. (octets, found, inner.0 (rw (found, cidr_parts_error) at h)),
        λ (octets', found', net).
            let e : octets' ≡ octets = cc in rw (found, cidr_parts_error) (inner.1 (rw e at net)),
      )
]

cidr_split_error_iff :
    (parts : List Text)
    → (cidr_split_error parts ≡ none) ↔ (
        (address : Text) × (bits : Text) × (octets : List ℕ) × (parts ≡ address ∷ bits ∷ [])
        × (ipv4_octets address ≡ some octets)
        × IsNetwork octets bits)
unfolding cidr_split_error
cidr_split_error_iff (address ∷ bits ∷ []) = (
  λ h.
      let (octets, found, net) = (cidr_parts_error_iff address bits).0 h in
      (address, bits, octets, refl, found, net),
  λ (address', bits', octets, e, found, net).
      let same_address : address' ≡ address = cc in
      let same_bits : bits' ≡ bits = cc in
      (cidr_parts_error_iff address bits).1 (octets, rw same_address at found, rw same_bits at net),
)
cidr_split_error_iff _ = (λ h. absurd (cc), λ (address', bits', octets, e, found, net). absurd (cc))

-- A network passes exactly if, trimmed, it is empty, or is an IPv4 address, one slash, and a prefix
-- length of one or two digits and at most 32, and no bit below the prefix is set.
pub ipv4_cidr_error-eq-none_iff :
    (value : Text)
    → (ipv4_cidr_error value ≡ none) ↔ (
        (trim value ≡ [])
        ⊎ ((address : Text) × (bits : Text) × (octets : List ℕ) × (split b'/' (trim value)
              ≡ address ∷ bits ∷ [])
            × (ipv4_octets address ≡ some octets)
            × IsNetwork octets bits))
unfolding ipv4_cidr_error
ipv4_cidr_error-eq-none_iff value = elim (Bool-cases (is_empty (trim value))) [
  | inl e ↦ rw e (λ _. inl ((is_empty_iff _).0 e), λ _. refl)
  | inr n ↦
      let inner = cidr_split_error_iff (split b'/' (trim value)) in
      rw n (
        λ h. inr (inner.0 h),
        λ h. elim h [
          | inl e ↦ absurd (cc ((is_empty_iff (trim value)).1 e))
          | inr net ↦ inner.1 net
        ],
      )
]
