-- ===== src/Remediation/ByWorst.antt =====
-- The worst severity and the highest score of a product, and that the loops of `installedNeedingUpdate` find them.
use vantric.Prelude.{
  ℕ, min, max, ◌≤◌, ◌≡◌, refl, ap, ◌∙◌, Bool, true, false, Option, some, List, [], ◌∷◌, inl, inr,
  if◌then◌else◌, Bool-cases, arith,
}
use vantric.Prelude.Text.{Text, same_iff}
use vantric.Prelude.Text
use vantric.Remediation.{rank_of, get_key, set_key}
use vantric.Remediation.Items.{
  Installed, product_rank, product_score, worst_ranks, worst_scores, get_number,
}
use vantric.Remediation.Severity.{standing, rank_of-standing}
use vantric.Remediation.Worst.{get_key-set_key}

-- The worst severity, and the highest score, among the items of a product
unfoldable pub worst_of : Text → List Installed → ℕ
unfolding standing
worst_of product [] = 99
worst_of product (i ∷ items) =
    let rest = worst_of product items in
    if Text.same i.product product then min (standing i.severity) rest else rest

unfoldable pub highest_of : Text → List Installed → ℕ
highest_of product [] = 0
highest_of product (i ∷ items) =
    let rest = highest_of product items in
    if Text.same i.product product then max i.worst_score rest else rest

-- The loops find the worst severity and the highest score of a product.
abbrev now : ℕ → Text → List (Text × ℕ) → ℕ
now missing product known = get_number missing (get_key product known)

number_of_choice :
    (missing n : ℕ) (b : Bool) (o : Option ℕ)
    → get_number missing (if b then some n else o) ≡ (if b then n else get_number missing o)
number_of_choice missing n true o = refl
number_of_choice missing n false o = refl

now-set_key :
    (missing : ℕ) (product p : Text) (n : ℕ) (known : List (Text × ℕ))
    → now missing product (set_key p n known)
      ≡ (if Text.same p product then n else now missing product known)
now-set_key missing product p n known =
    ap (get_number missing) (get_key-set_key product p n known)
    ∙ number_of_choice missing n (Text.same p product) (get_key product known)

now-set_here :
    (missing : ℕ) (product p : Text) (n : ℕ) (known : List (Text × ℕ))
    → Text.same p product ≡ true
    → now missing product (set_key p n known) ≡ n
now-set_here missing product p n known e =
    now-set_key missing product p n known ∙ ap (λ b. if b then n else now missing product known) e

now-set_elsewhere :
    (missing : ℕ) (product p : Text) (n : ℕ) (known : List (Text × ℕ))
    → Text.same p product ≡ false
    → now missing product (set_key p n known) ≡ now missing product known
now-set_elsewhere missing product p n known e =
    now-set_key missing product p n known ∙ ap (λ b. if b then n else now missing product known) e

worst_of-here :
    (product : Text) (i : Installed) (items : List Installed)
    → Text.same i.product product ≡ true
    → worst_of product (i ∷ items) ≡ min (standing i.severity) (worst_of product items)
unfolding worst_of
worst_of-here product i items e = rw e refl

worst_of-elsewhere :
    (product : Text) (i : Installed) (items : List Installed)
    → Text.same i.product product ≡ false
    → worst_of product (i ∷ items) ≡ worst_of product items
unfolding worst_of
worst_of-elsewhere product i items e = rw e refl

highest_of-here :
    (product : Text) (i : Installed) (items : List Installed)
    → Text.same i.product product ≡ true
    → highest_of product (i ∷ items) ≡ max i.worst_score (highest_of product items)
unfolding highest_of
highest_of-here product i items e = rw e refl

highest_of-elsewhere :
    (product : Text) (i : Installed) (items : List Installed)
    → Text.same i.product product ≡ false
    → highest_of product (i ∷ items) ≡ highest_of product items
unfolding highest_of
highest_of-elsewhere product i items e = rw e refl

worst_ranks-worst_of :
    (product : Text) (known : List (Text × ℕ)) (items : List Installed)
    → now 99 product known ≤ 99
    → now 99 product (worst_ranks known items) ≡ min (now 99 product known) (worst_of product items)
unfolding worst_ranks worst_of
worst_ranks-worst_of product known [] h = omega arith
worst_ranks-worst_of product known (i ∷ items) h =
    let r = min (now 99 i.product known) (rank_of i.severity) in
    let next = worst_ranks-worst_of product (set_key i.product r known) items in
    elim (Bool-cases (Text.same i.product product)) [
      | inl e ↦
          let here = now-set_here 99 product i.product r known e in
          let own : r ≡ min (now 99 product known) (standing i.severity) =
            ap (λ p. min (now 99 p known) (rank_of i.severity)) ((same_iff i.product product).0 e)
            ∙ ap (min (now 99 product known)) (rank_of-standing i.severity) in
          next (omega (arith, here, own, h))
          ∙ omega (arith, here, own, worst_of-here product i items e)
      | inr e ↦
          let there = now-set_elsewhere 99 product i.product r known e in
          next (omega (arith, there, h))
          ∙ omega (arith, there, worst_of-elsewhere product i items e)
    ]

worst_scores-highest_of :
    (product : Text) (known : List (Text × ℕ)) (items : List Installed)
    → now 0 product (worst_scores known items)
      ≡ max (now 0 product known) (highest_of product items)
unfolding worst_scores highest_of
worst_scores-highest_of product known [] = omega arith
worst_scores-highest_of product known (i ∷ items) =
    let r = max (now 0 i.product known) i.worst_score in
    let next = worst_scores-highest_of product (set_key i.product r known) items in
    elim (Bool-cases (Text.same i.product product)) [
      | inl e ↦
          let here = now-set_here 0 product i.product r known e in
          let own : r ≡ max (now 0 product known) i.worst_score =
            ap (λ p. max (now 0 p known) i.worst_score) ((same_iff i.product product).0 e) in
          next ∙ omega (arith, here, own, highest_of-here product i items e)
      | inr e ↦
          let there = now-set_elsewhere 0 product i.product r known e in
          next ∙ omega (arith, there, highest_of-elsewhere product i items e)
    ]

worst_of_bound : (product : Text) (items : List Installed) → worst_of product items ≤ 99
unfolding worst_of
worst_of_bound product [] = omega arith
worst_of_bound product (i ∷ items) = ground (arith, worst_of_bound product items)

pub product_rank-worst_of :
    (items : List Installed) (i : Installed) → product_rank items i ≡ worst_of i.product items
unfolding product_rank get_key
product_rank-worst_of items i =
    worst_ranks-worst_of i.product [] items (omega arith)
    ∙ omega (arith, worst_of_bound i.product items)

pub product_score-highest_of :
    (items : List Installed) (i : Installed) → product_score items i ≡ highest_of i.product items
unfolding product_score get_key
product_score-highest_of items i = worst_scores-highest_of i.product [] items ∙ omega arith
