-- ===== src/Validation/Ipv4/Octets.antt =====
-- Reading the four octets of an IPv4 address.
use vantric.Prelude.{
  ℕ, ◌≤◌, true, false, Option, none, some, List, [], ◌∷◌, ◌≡◌, refl, ◌↔◌, map, arith, length, every,
  All, All-imp,
}
use vantric.Prelude.Text.{Text, text, is_digit, split, join, show}
use vantric.Prelude.Text.Decimal.{show-AllDigits, show-ne-nil, length-show, number-show}
use vantric.Prelude.Text.Split.{Lacks, split-join}
use vantric.Validation.Numbers.Accepts.{digits_re_iff}
use vantric.Validation.Ipv4.{is_octet, is_ipv4, octet, in_octet_range, octet_value, ipv4_octets}

every-octet : (ps : List Text) → every in_octet_range (map octet ps) ≡ every is_octet ps
unfolding octet is_octet
every-octet [] = refl
every-octet (p ∷ ps) = ground (arith, every-octet ps)

-- The two readers of an address agree: `is_ipv4` holds exactly where `ipv4_octets` gives octets.
pub is_ipv4_iff :
    (value : Text)
    → (is_ipv4 value ≡ true) ↔ ((octets : List ℕ) × (ipv4_octets value ≡ some octets))
unfolding is_ipv4 ipv4_octets
is_ipv4_iff value =
    let octets = map octet_value (map octet (split b'.' value)) in
    (
      λ h. (octets, ground (arith, every-octet (split b'.' value))),
      λ (_, e). ground (arith, every-octet (split b'.' value)),
    )

-- An octet: a number of one byte.
abbrev pub AreOctets : List ℕ → Type 0
AreOctets = All (λ n. n ≤ 255)

octet_value_bound :
    (os : List (Option ℕ)) → every in_octet_range os ≡ true → AreOctets (map octet_value os)
octet_value_bound [] h = tt
octet_value_bound (none ∷ os) h = absurd (cc)
octet_value_bound (some n ∷ os) h = (ground arith, octet_value_bound os (ground arith))

length-map_parts : (ps : List Text) → length (map octet_value (map octet ps)) ≡ length ps
length-map_parts [] = refl
length-map_parts (p ∷ ps) = omega (arith, length-map_parts ps)

ipv4_octets_parts :
    (value : Text) (octets : List ℕ)
    → ipv4_octets value ≡ some octets
    → (length (split b'.' value) ≡ 4)
      × (every in_octet_range (map octet (split b'.' value)) ≡ true)
      × (octets ≡ map octet_value (map octet (split b'.' value)))
unfolding ipv4_octets
ipv4_octets_parts value octets h = ground arith

pub ipv4_octets_bounds :
    (value : Text) (octets : List ℕ)
    → ipv4_octets value ≡ some octets
    → (length octets ≡ 4) × AreOctets octets
ipv4_octets_bounds value octets h =
    let (four, all, e) = ipv4_octets_parts value octets h in
    rw e (omega (arith, length-map_parts (split b'.' value)), octet_value_bound _ all)

octet-show : (n : ℕ) → n ≤ 255 → octet (show n) ≡ some n
unfolding octet
octet-show n h =
    let digits =
      (digits_re_iff 2 (show n)).1
        (show-ne-nil n, show-AllDigits n, length-show 2 n (omega arith)) in
    rw (digits, number-show n)

pub show-Lacks : (c n : ℕ) → is_digit c ≡ false → Lacks c (show n)
show-Lacks c n h = All-imp (show n) (λ d k. ground arith) (show-AllDigits n)

-- Four octets in the usual notation.
abbrev pub dotted : List ℕ → Text
dotted octets = join (text ".") (map show octets)

-- Octets are read back from the usual notation.
pub ipv4_octets-dotted :
    (a b c d : ℕ)
    → AreOctets (a ∷ b ∷ c ∷ d ∷ [])
    → ipv4_octets (dotted (a ∷ b ∷ c ∷ d ∷ [])) ≡ some (a ∷ b ∷ c ∷ d ∷ [])
unfolding ipv4_octets text
ipv4_octets-dotted a b c d (ha, (hb, (hc, (hd, _)))) =
    let parts =
      split-join b'.' (show a) (show b ∷ show c ∷ show d ∷ []) (show-Lacks b'.' a refl)
        (show-Lacks b'.' b refl, (show-Lacks b'.' c refl, (show-Lacks b'.' d refl, tt))) in
    ground (arith, parts, octet-show a ha, octet-show b hb, octet-show c hc, octet-show d hd)
