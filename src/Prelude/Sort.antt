-- ===== src/Prelude/Sort.antt =====
-- `xs.sort(compare)`: stable, by a comparator whose sign is one of three, and chains of comparators
-- `a || b`. What a comparator must satisfy for the result to be sorted is a record.
use Prim.Native.Nat.{ℕ, compare, Ordering}
use mathlib.Core.Path.{◌≡◌}
use mathlib.Core.Bool.{Bool, true, false}
use mathlib.Core.Logic.{inl, inr, ◌↔◌}
use mathlib.Core.List.{List, [], ◌∷◌, Perm}
use mathlib.Core.List.Perm
use native.Mathlib.Omega.{arith}
use vantric.Prelude.Tests.{if◌then◌else◌, Bool-cases}
use vantric.Prelude.Lists.{All, All-imp, In}

-- The sign of a comparison
pub data Sign : Type 0 where
  less same greater : Sign

abbrev pub flip : Sign → Sign
flip less = greater
flip same = same
flip greater = less

-- `a || b` on signs
abbrev pub or_else : Sign → Sign → Sign
or_else less s = less
or_else same s = s
or_else greater s = greater

abbrev pub is_after : Sign → Bool
is_after greater = true
is_after same = false
is_after less = false

-- The sign of `m - n`
abbrev pub sign_of : ℕ → ℕ → Sign
sign_of m n = elim (compare m n) [ Ordering.lt ↦ less | Ordering.eq ↦ same | Ordering.gt ↦ greater ]

pub then_by_signs :
    (ab ba bc cb ac ca ab' bc' ac' : Sign)
    → ba ≡ flip ab
    → cb ≡ flip bc
    → ca ≡ flip ac
    → (is_after bc ≡ false → is_after ca ≡ false → is_after ba ≡ false)
    → (is_after ca ≡ false → is_after ab ≡ false → is_after cb ≡ false)
    → (is_after ab ≡ false → is_after bc ≡ false → is_after ac ≡ false)
    → (is_after ab' ≡ false → is_after bc' ≡ false → is_after ac' ≡ false)
    → is_after (or_else ab ab') ≡ false
    → is_after (or_else bc bc') ≡ false
    → is_after (or_else ac ac') ≡ false
then_by_signs ab ba bc cb ac ca ab' bc' ac' e₁ e₂ e₃ t₁ t₂ t₃ t h k = ground arith

module _ {ℓ} {A : Type ℓ} where
  -- An element goes before the first one that it is not after.
  abbrev pub insert : (A → A → Sign) → A → List A → List A
  insert by x [] = x ∷ []
  insert by x (y ∷ ys) =
      let rest = insert by x ys in if is_after (by x y) then y ∷ rest else x ∷ y ∷ ys

  abbrev pub sort : (A → A → Sign) → List A → List A
  sort by [] = []
  sort by (x ∷ xs) = insert by x (sort by xs)

  -- `(a, b) => f(a, b) || g(a, b)`
  abbrev pub then_by : (A → A → Sign) → (A → A → Sign) → A → A → Sign
  then_by f g a b = or_else (f a b) (g a b)

  -- `(a, b) => key(a) - key(b)`, and the other way round
  abbrev pub ascending : (A → ℕ) → A → A → Sign
  ascending key a b = sign_of (key a) (key b)

  abbrev pub descending : (A → ℕ) → A → A → Sign
  descending key a b = sign_of (key b) (key a)

  -- Neither of two is put after the other in both directions, and what is not after is so in chains.
  abbrev pub IsPreorder : (A → A → Sign) → Type ℓ
  IsPreorder by =
      ((a b : A) → by b a ≡ flip (by a b))
      × ((a b c : A)
          → is_after (by a b) ≡ false
          → is_after (by b c) ≡ false
          → is_after (by a c) ≡ false)

  pub ascending-IsPreorder : (key : A → ℕ) → IsPreorder (ascending key)
  ascending-IsPreorder key = (λ a b. ground arith, λ a b c h k. ground arith)

  pub descending-IsPreorder : (key : A → ℕ) → IsPreorder (descending key)
  descending-IsPreorder key = (λ a b. ground arith, λ a b c h k. ground arith)

  pub then_by-IsPreorder :
      (f g : A → A → Sign) → IsPreorder f → IsPreorder g → IsPreorder (then_by f g)
  then_by-IsPreorder f g (swap, trans) (swap', trans') = (
    λ a b. rw (swap a b, swap' a b) (flip_or_else (f a b) (g a b)),
    λ a b c.
        then_by_signs (f a b) (f b a) (f b c) (f c b) (f a c) (f c a) (g a b) (g b c) (g a c)
          (swap a b) (swap b c) (swap a c) (trans b c a) (trans c a b) (trans a b c) (trans' a b c),
  )
    where
      flip_or_else : (s t : Sign) → or_else (flip s) (flip t) ≡ flip (or_else s t)
      flip_or_else s t = ground arith

  -- Every element is before or level with all that come later.
  abbrev pub Sorted : (A → A → Sign) → List A → Type ℓ
  Sorted by [] = Unit
  Sorted by (x ∷ xs) = All (λ y. is_after (by x y) ≡ false) xs × Sorted by xs

  All-insert {κ} :
      (by : A → A → Sign) (P : A → Type κ) (x : A) (ys : List A)
      → P x
      → All P ys
      → All P (insert by x ys)
  All-insert by P x [] px h = (px, tt)
  All-insert by P x (y ∷ ys) px (py, h) = elim (Bool-cases (is_after (by x y))) [
    | inl e ↦ rw e (py, All-insert by P x ys px h)
    | inr e ↦ rw e (px, (py, h))
  ]

  pub All-sort {κ} :
      (by : A → A → Sign) (P : A → Type κ) (xs : List A) → All P xs → All P (sort by xs)
  All-sort by P [] h = tt
  All-sort by P (x ∷ xs) (px, h) = All-insert by P x (sort by xs) px (All-sort by P xs h)

  insert-Sorted :
      (by : A → A → Sign) (x : A) (xs : List A)
      → IsPreorder by
      → Sorted by xs
      → Sorted by (insert by x xs)
  insert-Sorted by x [] order sorted = (tt, tt)
  insert-Sorted by x (y ∷ ys) (swap, trans) (before, sorted) =
      elim (Bool-cases (is_after (by x y))) [
        | inl e ↦ rw e (
          All-insert by (λ z. is_after (by y z) ≡ false) x ys
              (not_after (by x y) (by y x) (swap x y) e) before,
          insert-Sorted by x ys (swap, trans) sorted,
        )
        | inr e ↦ rw e ((e, All-imp ys (λ z k. trans x y z e k) before), (before, sorted))
      ]
    where
      not_after : (s t : Sign) → t ≡ flip s → is_after s ≡ true → is_after t ≡ false
      not_after s t e h = ground arith

  -- A sort by a preorder is sorted.
  pub sort-Sorted : (by : A → A → Sign) (xs : List A) → IsPreorder by → Sorted by (sort by xs)
  sort-Sorted by [] order = tt
  sort-Sorted by (x ∷ xs) order = insert-Sorted by x (sort by xs) order (sort-Sorted by xs order)

  insert-Perm : (by : A → A → Sign) (x : A) (xs : List A) → Perm (insert by x xs) (x ∷ xs)
  insert-Perm by x [] = Perm.refl (x ∷ [])
  insert-Perm by x (y ∷ ys) = elim (Bool-cases (is_after (by x y))) [
    | inl e ↦ rw e (Perm.trans (Perm.cons y (insert-Perm by x ys)) (Perm.swap x y ys))
    | inr e ↦ rw e (Perm.refl (x ∷ y ∷ ys))
  ]

  -- A sort drops nothing, adds nothing and repeats nothing.
  pub sort-Perm : (by : A → A → Sign) (xs : List A) → Perm (sort by xs) xs
  sort-Perm by [] = Perm.refl []
  sort-Perm by (x ∷ xs) = Perm.trans (insert-Perm by x (sort by xs)) (Perm.cons x (sort-Perm by xs))

module _ {A : Type 0} where
  -- A sort holds exactly what it was given.
  In-insert : (by : A → A → Sign) (a x : A) (ys : List A) → In a (insert by x ys) ↔ In a (x ∷ ys)
  In-insert by a x [] = (λ h. h, λ h. h)
  In-insert by a x (y ∷ ys) = elim (Bool-cases (is_after (by x y))) [
    | inl e ↦ rw e (
      λ h. elim h [
        | inl here ↦ inr (inl here)
        | inr later ↦ elim ((In-insert by a x ys).0 later) [
          | inl here ↦ inl here
          | inr further ↦ inr (inr further)
        ]
      ],
      λ h. elim h [
        | inl here ↦ inr ((In-insert by a x ys).1 (inl here))
        | inr later ↦ elim later [
          | inl here ↦ inl here
          | inr further ↦ inr ((In-insert by a x ys).1 (inr further))
        ]
      ],
    )
    | inr e ↦ rw e (λ h. h, λ h. h)
  ]

  pub In-sort : (by : A → A → Sign) (a : A) (xs : List A) → In a (sort by xs) ↔ In a xs
  In-sort by a [] = (λ h. h, λ h. h)
  In-sort by a (x ∷ xs) = (
    λ h. elim ((In-insert by a x (sort by xs)).0 h) [
      | inl here ↦ inl here
      | inr later ↦ inr ((In-sort by a xs).0 later)
    ],
    λ h.
        (In-insert by a x (sort by xs)).1
          (elim h [ inl here ↦ inl here | inr later ↦ inr ((In-sort by a xs).1 later) ]),
  )
