-- ===== src/Validation/Ipv4/Suggest.antt =====
-- The correction that the message about host bits suggests.
use native.Mathlib.Nat.{div-add-mod, mul-mod_right}
use vantric.Prelude.{
  Bool-cases, not, ◌||◌, ltb, ℕ, ◌-◌, ◌/◌, ◌%◌, ◌^◌, ◌≤◌, ◌<◌, false, none, some, List, [], ◌∷◌,
  ◌++◌, ◌≡◌, refl, ◌∙◌, ap, inl, inr, ◌⊎◌, ◌==◌, map, arith, All, All-append, All-imp,
}
use vantric.Prelude.Bits.{bit_and-byte}
use vantric.Prelude.Text.{Text, text, is_space, trim, split, number, show}
use vantric.Prelude.Text.Decimal.{show-AllDigits, show-ne-nil, length-show, number-show}
use vantric.Prelude.Text.Trim.{NoSpace, trim_of_NoSpace, not-space_of_ascii}
use vantric.Prelude.Text.Split.{split-append, split_of_Lacks, All-join}
use vantric.Regex.{test}
use vantric.Validation.Numbers.{digits_re}
use vantric.Validation.Numbers.Accepts.{digits_re_iff}
use vantric.Validation.Ipv4.{
  ipv4_octets, to_int, mask, network_of, octets_of, cidr_text, ipv4_cidr_error, cidr_octets_error,
}
use vantric.Validation.Ipv4.Cidr.{ipv4_cidr_error-eq-none_iff, network_of-mask}
use vantric.Validation.Ipv4.Octets.{AreOctets, dotted, show-Lacks, ipv4_octets-dotted}

octets_of-AreOctets : (network : ℕ) → AreOctets (octets_of network)
unfolding octets_of
octets_of-AreOctets network = (
  omega (arith, bit_and-byte (network / 2 ^ 24)),
  (
    omega (arith, bit_and-byte (network / 2 ^ 16)),
    (omega (arith, bit_and-byte (network / 2 ^ 8)), (omega (arith, bit_and-byte network), tt)),
  ),
)

-- The four bytes of a network make up the network.
to_int-octets_of : (network : ℕ) → network < 2 ^ 32 → to_int 0 (octets_of network) ≡ network
unfolding to_int octets_of
to_int-octets_of network h = omega (
  arith,
  bit_and-byte (network / 2 ^ 24),
  bit_and-byte (network / 2 ^ 16),
  bit_and-byte (network / 2 ^ 8),
  bit_and-byte network,
)

show-NoSpace : (n : ℕ) → NoSpace (show n)
show-NoSpace n =
    All-imp (show n) (λ c h. not-space_of_ascii c (ground arith) (ground arith)) (show-AllDigits n)

All-map-show :
    (P : ℕ → Type 0) → ((n : ℕ) → All P (show n)) → (ns : List ℕ) → All (All P) (map show ns)
All-map-show P h [] = tt
All-map-show P h (n ∷ ns) = (h n, All-map-show P h ns)

dotted-All :
    (P : ℕ → Type 0) → P b'.' → ((n : ℕ) → All P (show n)) → (ns : List ℕ) → All P (dotted ns)
unfolding text
dotted-All P dot h ns = All-join P (text ".") (map show ns) (dot, tt) (All-map-show P h ns)

trim-cidr_text : (network prefix : ℕ) → trim (cidr_text network prefix) ≡ cidr_text network prefix
unfolding cidr_text is_space
trim-cidr_text network prefix =
    let left = dotted-All (λ c. is_space c ≡ false) refl show-NoSpace (octets_of network) in
    trim_of_NoSpace (dotted (octets_of network) ++ b'/' ∷ show prefix) (
      All-append (λ c. is_space c ≡ false) (dotted (octets_of network)) (b'/' ∷ show prefix) left
        (refl, show-NoSpace prefix))

split-cidr_text :
    (network prefix : ℕ)
    → split b'/' (cidr_text network prefix) ≡ dotted (octets_of network) ∷ show prefix ∷ []
unfolding cidr_text
split-cidr_text network prefix =
    let left =
      dotted-All (λ d. (d == b'/') ≡ false) refl (λ n. show-Lacks b'/' n refl)
        (octets_of network) in
    split-append b'/' (dotted (octets_of network)) (show prefix) left
    ∙ ap (λ r. dotted (octets_of network) ∷ r)
        (split_of_Lacks b'/' (show prefix) (show-Lacks b'/' prefix refl))

octets-octets_of :
    (network : ℕ) → ipv4_octets (dotted (octets_of network)) ≡ some (octets_of network)
unfolding octets_of
octets-octets_of network =
    ipv4_octets-dotted _ _ _ _ (unfold octets_of in octets_of-AreOctets network)

-- A printed network whose low bits are clear passes.
pub ipv4_cidr_error-cidr_text :
    (network prefix : ℕ)
    → network < 2 ^ 32
    → prefix ≤ 32
    → network % 2 ^ (32 - prefix) ≡ 0
    → ipv4_cidr_error (cidr_text network prefix) ≡ none
ipv4_cidr_error-cidr_text network prefix fits short clear =
    let digits =
      (digits_re_iff 1 (show prefix)).1
        (show-ne-nil prefix, show-AllDigits prefix, length-show 1 prefix (omega arith)) in
    let same_bits = number-show prefix in
    let whole = to_int-octets_of network fits in
    let shape =
      rw (trim-cidr_text network prefix, split-cidr_text network prefix) at
        (ipv4_cidr_error-eq-none_iff (cidr_text network prefix)) in
    shape.1 (
      inr (
        dotted (octets_of network),
        show prefix,
        octets_of network,
        refl,
        octets-octets_of network,
        (digits, (rw same_bits short), (rw (same_bits, whole) clear)),
      ))

network_of-mask_facts :
    (value32 prefix : ℕ)
    → value32 < 2 ^ 32
    → prefix ≤ 32
    → (network_of value32 (mask prefix) < 2 ^ 32)
      × (network_of value32 (mask prefix) % 2 ^ (32 - prefix) ≡ 0)
network_of-mask_facts value32 prefix fits short =
    let below = div-add-mod value32 (2 ^ (32 - prefix)) in
    rw (network_of-mask value32 prefix fits short)
      (omega arith, mul-mod_right (2 ^ (32 - prefix)) (value32 / 2 ^ (32 - prefix)))

-- The correction that the message about host bits suggests is itself accepted.
pub cidr_suggestion_passes :
    (octets : List ℕ) (bits : Text) (message : Text)
    → to_int 0 octets < 2 ^ 32
    → cidr_octets_error octets bits ≡ some message
    → (message ≡ text "Prefix length must be 0–32")
      ⊎ ((suggested : Text) × (message
            ≡ text "Host bits set — did you mean " ++ suggested ++ text "?")
          × (ipv4_cidr_error suggested ≡ none))
unfolding cidr_octets_error
cidr_suggestion_passes octets bits message fits h =
    let value32 = to_int 0 octets in
    let prefix = number bits in
    let network = network_of value32 (mask prefix) in
    elim (Bool-cases (not (test (digits_re 1) bits) || ltb 32 prefix)) [
      | inl bad ↦ inl (ground arith)
      | inr good ↦
          let short : prefix ≤ 32 = ground arith in
          let (below, clear) = network_of-mask_facts value32 prefix fits short in
          inr (
            cidr_text network prefix,
            ground arith,
            ipv4_cidr_error-cidr_text network prefix below short clear,
          )
    ]
