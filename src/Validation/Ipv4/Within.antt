-- ===== src/Validation/Ipv4/Within.antt =====
-- Whether an address lies inside a network.
use native.Mathlib.Nat.{eq_of_mul-eq-mul_left}
use vantric.Prelude.{
  ℕ, zero, suc, ◌-◌, ◌*◌, ◌/◌, ◌^◌, ◌≤◌, ◌<◌, true, false, Option, none, some, List, [], ◌∷◌, ◌≡◌,
  ◌≢◌, refl, sym, ◌∙◌, ap, ◌↔◌, ◌⊎◌, inl, inr, arith, Bool-cases, Option-cases,
}
use vantric.Prelude.Bits.{two_pow, pow-two}
use vantric.Prelude.Text.{Text, is_empty, is_empty_iff, trim, split, number}
use vantric.Validation.Ipv4.{
  ipv4_octets, to_int, mask, network_of, ipv4_cidr_error, within_error, ipv4_address_error,
}
use vantric.Validation.Ipv4.Octets.{ipv4_octets_bounds}
use vantric.Validation.Ipv4.Cidr.{
  IsNetwork, ipv4_cidr_error-eq-none_iff, network_of-mask, to_int-lt,
}

two_pow-pos : (n : ℕ) → 0 < two_pow n
two_pow-pos zero = omega arith
two_pow-pos (suc n) = omega (arith, two_pow-pos n)

-- Two addresses agree under a mask exactly if they agree above the prefix.
same_network_iff :
    (a b prefix : ℕ)
    → a < 2 ^ 32
    → b < 2 ^ 32
    → prefix ≤ 32
    → (network_of a (mask prefix) ≡ network_of b (mask prefix))
      ↔ (a / 2 ^ (32 - prefix) ≡ b / 2 ^ (32 - prefix))
same_network_iff a b prefix ha hb short =
    let na = network_of-mask a prefix ha short in
    let nb = network_of-mask b prefix hb short in
    let size = 2 ^ (32 - prefix) in
    (
      λ e.
          eq_of_mul-eq-mul_left size
            (omega (arith, pow-two (32 - prefix), two_pow-pos (32 - prefix))) (a / size) (b / size)
            (sym na ∙ e ∙ nb),
      λ e. na ∙ ap (λ q. size * q) e ∙ sym nb,
    )

within_error_iff :
    (octets : List ℕ) (cidr address bits : Text) (net : List ℕ)
    → to_int 0 octets < 2 ^ 32
    → ipv4_octets address ≡ some net
    → IsNetwork net bits
    → (within_error octets cidr (address ∷ bits ∷ []) ≡ none)
      ↔ (to_int 0 octets / 2 ^ (32 - number bits) ≡ to_int 0 net / 2 ^ (32 - number bits))
unfolding within_error
within_error_iff octets cidr address bits net fits found (digits, short, clear) =
    let (four, bytes) = ipv4_octets_bounds address net found in
    ground (
      arith,
      same_network_iff (to_int 0 octets) (to_int 0 net) (number bits) fits
          (to_int-lt net four bytes) short,
    )

trim-nil : trim [] ≡ []
unfolding trim
trim-nil = refl

split-nil : split b'/' [] ≡ [] ∷ []
unfolding split
split-nil = refl

not_empty_of_parts :
    (cidr address bits : Text)
    → split b'/' (trim cidr) ≡ address ∷ bits ∷ []
    → is_empty cidr ≡ false
not_empty_of_parts [] address bits h = let one = rw (trim-nil, split-nil) at h in absurd (cc)
not_empty_of_parts (c ∷ s) address bits h = refl

-- A range that passes on its own is used for the comparison.
compared :
    (value cidr address bits : Text) (octets : List ℕ)
    → is_empty (trim value) ≡ false
    → is_empty cidr ≡ false
    → ipv4_octets (trim value) ≡ some octets
    → ipv4_cidr_error cidr ≡ none
    → split b'/' (trim cidr) ≡ address ∷ bits ∷ []
    → ipv4_address_error value (some cidr) ≡ within_error octets cidr (address ∷ bits ∷ [])
unfolding ipv4_address_error
compared value cidr address bits octets n m read passes parts = ground arith

no_address :
    (value : Text) (within_cidr : Option Text)
    → is_empty (trim value) ≡ false
    → ipv4_octets (trim value) ≡ none
    → ipv4_address_error value within_cidr ≢ none
unfolding ipv4_address_error
no_address value within_cidr n missing = ground arith

blank_passes :
    (value : Text) (within_cidr : Option Text)
    → is_empty (trim value) ≡ true
    → ipv4_address_error value within_cidr ≡ none
unfolding ipv4_address_error
blank_passes value within_cidr e = rw e

module _ (value cidr address bits : Text) (net : List ℕ)
    (parts : split b'/' (trim cidr) ≡ address ∷ bits ∷ []) (found : ipv4_octets address ≡ some net)
    (is_net : IsNetwork net bits) where
  inside_iff :
      (octets : List ℕ)
      → is_empty (trim value) ≡ false
      → ipv4_octets (trim value) ≡ some octets
      → (ipv4_address_error value (some cidr) ≡ none)
        ↔ (to_int 0 octets / 2 ^ (32 - number bits) ≡ to_int 0 net / 2 ^ (32 - number bits))
  inside_iff octets n read =
      let passes =
        (ipv4_cidr_error-eq-none_iff cidr).1 (inr (address, bits, net, parts, found, is_net)) in
      let given = not_empty_of_parts cidr address bits parts in
      let (four, bytes) = ipv4_octets_bounds (trim value) octets read in
      let outcome = compared value cidr address bits octets n given read passes parts in
      let inside =
        within_error_iff octets cidr address bits net (to_int-lt octets four bytes) found is_net in
      (λ h. inside.0 (sym outcome ∙ h), λ q. outcome ∙ inside.1 q)

  -- Where the range is a network, an address passes exactly if the field is blank, or it is an IPv4
  -- address that agrees with the network above the prefix length.
  pub ipv4_address_error-eq-none_iff : (ipv4_address_error value (some cidr) ≡ none) ↔ (
      (trim value ≡ [])
      ⊎ ((octets : List ℕ) × (ipv4_octets (trim value) ≡ some octets)
          × (to_int 0 octets / 2 ^ (32 - number bits) ≡ to_int 0 net / 2 ^ (32 - number bits))))
  ipv4_address_error-eq-none_iff = elim (Bool-cases (is_empty (trim value))) [
    | inl e ↦ (λ _. inl ((is_empty_iff _).0 e), λ _. blank_passes value (some cidr) e)
    | inr n ↦ elim (Option-cases (ipv4_octets (trim value))) [
      | inl missing ↦ (
        λ h. absurd (no_address value (some cidr) n missing h),
        λ h. elim h [
          | inl e ↦ absurd (cc ((is_empty_iff (trim value)).1 e))
          | inr (octets, read, q) ↦ absurd (cc)
        ],
      )
      | inr (octets, read) ↦ (
        λ h. inr (octets, read, (inside_iff octets n read).0 h),
        λ h. elim h [
          | inl e ↦ absurd (cc ((is_empty_iff (trim value)).1 e))
          | inr (octets', read', q) ↦
              let e : octets' ≡ octets = cc in (inside_iff octets n read).1 (rw e at q)
        ],
      )
    ]
  ]
