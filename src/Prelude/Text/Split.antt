-- ===== src/Prelude/Text/Split.antt =====
-- `split` and `join` undo one another.
use Prim.Native.Nat.{ℕ}
use mathlib.Core.Path.{◌≡◌, refl, ap, sym, ◌∙◌}
use mathlib.Core.Logic.{inl, inr}
use mathlib.Core.Bool.{Bool, true, false, ◌&&◌}
use mathlib.Core.List.{List, [], ◌∷◌, ◌++◌, append_assoc, append-nil}
use native.Mathlib.Omega.{arith}
use vantric.Prelude.Tests.{◌==◌, Bool-cases, and_iff}
use vantric.Prelude.Lists.{All, All-append, All-append_right}
use vantric.Prelude.Text.{Text, same, same_iff, split_from, split, join}

abbrev pub Lacks : ℕ → Text → Type 0
Lacks c = All (λ d. (d == c) ≡ false)

split_from_of_Lacks : (c : ℕ) (cur u : Text) → Lacks c u → split_from c cur u ≡ (cur ++ u) ∷ []
unfolding split_from
split_from_of_Lacks c cur [] h = rw append-nil
split_from_of_Lacks c cur (d ∷ u) (hd, h) =
    ground (arith, split_from_of_Lacks c (cur ++ d ∷ []) u h, append_assoc cur (d ∷ []) u)

split_from-append :
    (c : ℕ) (cur u s : Text)
    → Lacks c u
    → split_from c cur (u ++ c ∷ s) ≡ (cur ++ u) ∷ split_from c [] s
unfolding split_from
split_from-append c cur [] s h = ground (arith, append-nil cur)
split_from-append c cur (d ∷ u) s (hd, h) =
    ground (arith, split_from-append c (cur ++ d ∷ []) u s h, append_assoc cur (d ∷ []) u)

pub split_of_Lacks : (c : ℕ) (u : Text) → Lacks c u → split c u ≡ u ∷ []
unfolding split
split_of_Lacks c u h = split_from_of_Lacks c [] u h

pub split-append : (c : ℕ) (u s : Text) → Lacks c u → split c (u ++ c ∷ s) ≡ u ∷ split c s
unfolding split
split-append c u s h = split_from-append c [] u s h

-- Splitting a join gives the parts back, if there is a part and none holds the separator.
pub split-join :
    (c : ℕ) (p : Text) (ps : List Text)
    → Lacks c p
    → All (Lacks c) ps
    → split c (join (c ∷ []) (p ∷ ps)) ≡ p ∷ ps
unfolding join
split-join c p [] h hs = split_of_Lacks c p h
split-join c p (q ∷ ps) h (hq, hs) =
    split-append c p (join (c ∷ []) (q ∷ ps)) h ∙ ap (λ r. p ∷ r) (split-join c q ps hq hs)

split_from-Lacks : (c : ℕ) (cur s : Text) → Lacks c cur → All (Lacks c) (split_from c cur s)
unfolding split_from
split_from-Lacks c cur [] h = (h, tt)
split_from-Lacks c cur (d ∷ s) h = elim (Bool-cases (d == c)) [
  | inl e ↦ ground (arith, split_from-Lacks c [] s tt)
  | inr n ↦
      ground (arith, split_from-Lacks c (cur ++ d ∷ []) s (All-append _ cur (d ∷ []) h (n, tt)))
]

-- No part of a split holds the separator.
pub split-Lacks : (c : ℕ) (s : Text) → All (Lacks c) (split c s)
unfolding split
split-Lacks c s = split_from-Lacks c [] s tt

-- What holds of every unit of the parts and of the separator holds of every unit of a join.
pub All-join {ℓ} :
    (P : ℕ → Type ℓ) (sep : Text) (ps : List Text)
    → All P sep
    → All (All P) ps
    → All P (join sep ps)
unfolding join
All-join P sep [] h hs = tt
All-join P sep (p ∷ []) h (hp, _) = hp
All-join P sep (p ∷ q ∷ ps) h (hp, hs) =
    All-append P p (sep ++ join sep (q ∷ ps)) hp
      (All-append P sep (join sep (q ∷ ps)) h (All-join P sep (q ∷ ps) h hs))

-- The parts behind the first, each behind a separator.
abbrev pub behind : ℕ → List Text → Text
behind c [] = []
behind c (p ∷ ps) = c ∷ (p ++ behind c ps)

pub split-behind :
    (c : ℕ) (p : Text) (ps : List Text)
    → Lacks c p
    → All (Lacks c) ps
    → split c (p ++ behind c ps) ≡ p ∷ ps
split-behind c p [] h hs = rw append-nil (split_of_Lacks c p h)
split-behind c p (q ∷ ps) h (hq, hs) =
    split-append c p (q ++ behind c ps) h ∙ ap (λ r. p ∷ r) (split-behind c q ps hq hs)

behind-split_from :
    (c : ℕ) (cur s : Text)
    → (p : Text) × (ps : List Text) × (split_from c cur s ≡ p ∷ ps) × (cur ++ s ≡ p ++ behind c ps)
unfolding split_from
behind-split_from c cur [] = (cur, [], refl, refl)
behind-split_from c cur (d ∷ s) = elim (Bool-cases (d == c)) [
  | inl e ↦
      let (p, ps, cut, spell) = behind-split_from c [] s in
      (cur, p ∷ ps, ground (arith, cut), ground (arith, spell))
  | inr n ↦
      let (p, ps, cut, spell) = behind-split_from c (cur ++ d ∷ []) s in
      (p, ps, ground (arith, cut), sym (append_assoc cur (d ∷ []) s) ∙ spell)
]

-- The parts of a split spell the text.
pub behind-split :
    (c : ℕ) (s : Text)
    → (p : Text) × (ps : List Text) × (split c s ≡ p ∷ ps) × (s ≡ p ++ behind c ps)
unfolding split
behind-split c s = behind-split_from c [] s

mark_inside : (c : ℕ) (n t : Text) → ¬ Lacks c (n ++ c ∷ t)
mark_inside c n t h = let (mark, _) = All-append_right _ n (c ∷ t) h in ground arith

-- A mark that the second of two texts lacks tells the two apart.
pub marked_injective :
    (c : ℕ) (n m t u : Text) → Lacks c t → Lacks c u → n ++ c ∷ t ≡ m ++ c ∷ u → (n ≡ m) × (t ≡ u)
marked_injective c [] [] t u ht hu e = (refl, cc)
marked_injective c [] (d ∷ m) t u ht hu e =
    let inside : t ≡ m ++ c ∷ u = cc in absurd (mark_inside c m u (rw inside at ht))
marked_injective c (d ∷ n) [] t u ht hu e =
    let inside : u ≡ n ++ c ∷ t = cc in absurd (mark_inside c n t (rw inside at hu))
marked_injective c (d ∷ n) (b ∷ m) t u ht hu e =
    let tails : n ++ c ∷ t ≡ m ++ c ∷ u = cc in
    let (same_head, same_tail) = marked_injective c n m t u ht hu tails in (cc, same_tail)

-- So two marked texts are compared part by part.
pub same-marked :
    (c : ℕ) (n m t u : Text)
    → Lacks c t
    → Lacks c u
    → same (n ++ c ∷ t) (m ++ c ∷ u) ≡ same n m && same t u
same-marked c n m t u ht hu = elim (Bool-cases (same n m && same t u)) [
  | inl e ↦
      let both = (and_iff _ _).0 e in
      (same_iff _ _).1 (
        ap (λ a. a ++ c ∷ t) ((same_iff n m).0 both.0)
        ∙ ap (λ b. m ++ c ∷ b) ((same_iff t u).0 both.1))
      ∙ sym e
  | inr e ↦ elim (Bool-cases (same (n ++ c ∷ t) (m ++ c ∷ u))) [
    | inr k ↦ k ∙ sym e
    | inl k ↦
        let parts = marked_injective c n m t u ht hu ((same_iff _ _).0 k) in
        absurd
          (both_apart (same n m) (same t u) e ((same_iff n m).1 parts.0) ((same_iff t u).1 parts.1))
  ]
]
  where
    both_apart : (a b : Bool) → a && b ≡ false → a ≡ true → b ≡ true → ⊥
    both_apart a b h k l = ground arith
