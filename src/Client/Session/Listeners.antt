-- ===== src/Client/Session/Listeners.antt =====
-- The set of listeners of frontend/src/api/client.ts.
use vantric.Prelude.{
  ℕ, ◌≡◌, refl, false, List, [], ◌∷◌, ◌++◌, ◌==◌, if◌then◌else◌, arith, append-nil, ◌≤◌, suc, ◌+◌,
}
use vantric.Client.Session.{Listeners, holds, on_unauthorized, forget}

-- How often a listener is called when the set is told
unfoldable pub times_called : ℕ → List ℕ → ℕ
times_called listener [] = 0
times_called listener (l ∷ ls) =
    if l == listener then suc (times_called listener ls) else times_called listener ls

times_called-append :
    (x : ℕ) (xs ys : List ℕ) → times_called x (xs ++ ys) ≡ times_called x xs + times_called x ys
unfolding times_called
times_called-append x [] ys = omega arith
times_called-append x (l ∷ xs) ys = ground (arith, times_called-append x xs ys)

holds-times_called : (x : ℕ) (xs : List ℕ) → holds x xs ≡ false → times_called x xs ≡ 0
unfolding holds times_called
holds-times_called x [] h = refl
holds-times_called x (l ∷ xs) h = ground (arith, holds-times_called x xs)

-- Registering keeps it so that no listener is called twice.
pub on_unauthorized-once :
    (x y : ℕ) (xs : Listeners) → times_called y xs ≤ 1 → times_called y (on_unauthorized x xs) ≤ 1
unfolding on_unauthorized times_called
on_unauthorized-once x y xs h =
    ground
      (arith, times_called-append y xs (x ∷ []), holds-times_called y xs, holds-times_called x xs)

forget-absent : (x : ℕ) (xs : List ℕ) → holds x xs ≡ false → forget x xs ≡ xs
unfolding holds forget
forget-absent x [] h = refl
forget-absent x (l ∷ xs) h = ground (arith, forget-absent x xs)

forget-append : (x : ℕ) (xs ys : List ℕ) → forget x (xs ++ ys) ≡ forget x xs ++ forget x ys
unfolding forget
forget-append x [] ys = refl
forget-append x (l ∷ xs) ys = ground (arith, forget-append x xs ys)

on_unauthorized-new :
    (x : ℕ) (xs : Listeners) → holds x xs ≡ false → on_unauthorized x xs ≡ xs ++ x ∷ []
unfolding on_unauthorized
on_unauthorized-new x xs h = ground (arith)

forget-only : (x : ℕ) → forget x (x ∷ []) ≡ []
unfolding forget
forget-only x = ground (arith)

-- The function that registering returns takes the listener off again: of a set that did not hold it,
-- the set as it was.
pub forget-on_unauthorized :
    (x : ℕ) (xs : Listeners) → holds x xs ≡ false → forget x (on_unauthorized x xs) ≡ xs
forget-on_unauthorized x xs h =
    rw
      (on_unauthorized-new x xs h, forget-append x xs (x ∷ []), forget-only x, forget-absent x xs h)
      (append-nil xs)
