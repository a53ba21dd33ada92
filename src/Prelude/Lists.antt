-- ===== src/Prelude/Lists.antt =====
-- Lists measured by native numbers, under the library's names, with the predicate `All`.
use Prim.Native.Nat.{ℕ, zero, suc, ◌+◌}
use mathlib.Core.Path.{◌≡◌, refl, sym, ap}
use mathlib.Core.Logic.{◌↔◌, ◌⊎◌, inl, inr}
use mathlib.Core.Bool.{Bool, true, false, ◌&&◌, ◌||◌}
use mathlib.Core.List.{List, [], ◌∷◌, ◌++◌, map, reverse_aux, reverse}
use native.Mathlib.Omega.{arith}
use vantric.Prelude.Tests.{if◌then◌else◌, Bool-cases, and_iff}

module _ {ℓ} {A : Type ℓ} where
  abbrev pub length : List A → ℕ
  length [] = 0
  length (x ∷ xs) = suc (length xs)

  pub length-append : (xs ys : List A) → length (xs ++ ys) ≡ length xs + length ys
  length-append [] ys = omega arith
  length-append (x ∷ xs) ys = omega (arith, length-append xs ys)

  abbrev pub take : ℕ → List A → List A
  take zero xs = []
  take (suc n) [] = []
  take (suc n) (x ∷ xs) = x ∷ take n xs

  abbrev pub drop : ℕ → List A → List A
  drop zero xs = xs
  drop (suc n) [] = []
  drop (suc n) (x ∷ xs) = drop n xs

  -- `xs.filter(p)`, `xs.every(p)` and `xs.some(p)`
  abbrev pub filter_by : (A → Bool) → List A → List A
  filter_by p [] = []
  filter_by p (x ∷ xs) = if p x then x ∷ filter_by p xs else filter_by p xs

  abbrev pub every : (A → Bool) → List A → Bool
  every p [] = true
  every p (x ∷ xs) = p x && every p xs

  abbrev pub any_of : (A → Bool) → List A → Bool
  any_of p [] = false
  any_of p (x ∷ xs) = p x || any_of p xs

  pub every-append :
      (p : A → Bool) (xs ys : List A) → every p (xs ++ ys) ≡ (every p xs && every p ys)
  every-append p [] ys = refl
  every-append p (x ∷ xs) ys = ground (arith, every-append p xs ys)

module _ {A : Type 0} where
  -- `x` is one of the list, and what holds of every one then holds of it
  abbrev pub In : A → List A → Type 0
  In x [] = ⊥
  In x (y ∷ ys) = (x ≡ y) ⊎ In x ys

  pub every-In : (p : A → Bool) (x : A) (xs : List A) → every p xs ≡ true → In x xs → p x ≡ true
  every-In p x [] h member = absurd member
  every-In p x (y ∷ ys) h (inl e) = rw e (((and_iff _ _).0 h).0)
  every-In p x (y ∷ ys) h (inr member) = every-In p x ys (((and_iff _ _).0 h).1) member

module _ {ℓ κ} {A : Type ℓ} (P : A → Type κ) where
  abbrev pub All : List A → Type κ
  All [] = Unit
  All (x ∷ xs) = P x × All xs

  pub All-append : (xs ys : List A) → All xs → All ys → All (xs ++ ys)
  All-append [] ys hx hy = hy
  All-append (x ∷ xs) ys (px, hx) hy = (px, All-append xs ys hx hy)

  pub All-append_left : (xs ys : List A) → All (xs ++ ys) → All xs
  All-append_left [] ys h = tt
  All-append_left (x ∷ xs) ys (px, h) = (px, All-append_left xs ys h)

  pub All-append_right : (xs ys : List A) → All (xs ++ ys) → All ys
  All-append_right [] ys h = h
  All-append_right (x ∷ xs) ys (px, h) = All-append_right xs ys h

  pub All-reverse_aux : (xs ys : List A) → All xs → All ys → All (reverse_aux xs ys)
  All-reverse_aux [] ys _ k = k
  All-reverse_aux (x ∷ xs) ys (p, h) k = All-reverse_aux xs (x ∷ ys) h (p, k)

  pub All-reverse : (xs : List A) → All xs → All (reverse xs)
  All-reverse xs h = All-reverse_aux xs [] h tt

pub All-imp {ℓ κ μ} :
    {A : Type ℓ} {P : A → Type κ} {Q : A → Type μ} (xs : List A)
    → ((x : A) → P x → Q x)
    → All P xs
    → All Q xs
All-imp [] f h = tt
All-imp (x ∷ xs) f (p, h) = (f x p, All-imp xs f h)

pub All-imp₂ {ℓ κ μ ν} :
    {A : Type ℓ} {P : A → Type κ} {Q : A → Type μ} {R : A → Type ν} (xs : List A)
    → ((x : A) → P x → Q x → R x)
    → All P xs
    → All Q xs
    → All R xs
All-imp₂ [] f h k = tt
All-imp₂ (x ∷ xs) f (p, h) (q, k) = (f x p q, All-imp₂ xs f h k)

pub map-append {ℓ κ} :
    {A : Type ℓ} {B : Type κ} (f : A → B) (xs ys : List A) → map f (xs ++ ys) ≡ map f xs ++ map f ys
map-append f [] ys = refl
map-append f (x ∷ xs) ys = ap (λ l. f x ∷ l) (map-append f xs ys)

In-filter_sound :
    {A : Type 0} (p : A → Bool) (x : A) (xs : List A)
    → In x (filter_by p xs)
    → In x xs × (p x ≡ true)
In-filter_sound p x [] h = absurd h
In-filter_sound p x (y ∷ ys) h = elim (Bool-cases (p y)) [
  | inr e ↦ let rest = In-filter_sound p x ys (rw e at h) in (inr rest.0, rest.1)
  | inl e ↦ elim (rw e at h) [
    | inl here ↦ (inl here, rw here e)
    | inr later ↦ let rest = In-filter_sound p x ys later in (inr rest.0, rest.1)
  ]
]

In-filter_complete :
    {A : Type 0} (p : A → Bool) (x : A) (xs : List A) → In x xs → p x ≡ true → In x (filter_by p xs)
In-filter_complete p x [] h e = absurd h
In-filter_complete p x (y ∷ ys) (inl here) e = rw (sym here) (rw e (inl refl))
In-filter_complete p x (y ∷ ys) (inr later) e = elim (Bool-cases (p y)) [
  | inl kept ↦ rw kept (inr (In-filter_complete p x ys later e))
  | inr left ↦ rw left (In-filter_complete p x ys later e)
]

-- What a filter keeps
pub In-filter_iff :
    {A : Type 0} (p : A → Bool) (x : A) (xs : List A)
    → In x (filter_by p xs) ↔ (In x xs × (p x ≡ true))
In-filter_iff p x xs = (In-filter_sound p x xs, λ h. In-filter_complete p x xs h.0 h.1)
