-- ===== src/Regex/Classes.antt =====
-- The shapes of expression that the source uses, described by what holds of each code unit.
use vantric.Prelude.{
  ℕ, zero, suc, ◌+◌, ◌≤◌, Bool, true, [], ◌∷◌, ◌++◌, ◌≡◌, refl, ◌↔◌, ◌⊎◌, inl, inr, arith, All,
  All-append, All-append_left, length, length-append, ap,
}
use vantric.Prelude.Text.{Text}
use vantric.Prelude.Text.Ends.{last_of, last_of-append}
use vantric.Regex.{Regex, cls, seq, star, opt, up_to, label, bounded_label}
use vantric.Regex.Lang.{Lang, Star, stop, step}

-- Every unit of the text is in the class.
abbrev pub Only : (ℕ → Bool) → Text → Type 0
Only p = All (λ c. p c ≡ true)

Star-Only : {p : ℕ → Bool} {s : Text} → Star (Lang (cls p)) s → Only p s
Star-Only {p} (stop e) = rw e tt
Star-Only {p} (step u v e (c, eu, h) more) = let whole = Star-Only more in rw (e, eu) (h, whole)

Only-Star : (p : ℕ → Bool) (s : Text) → Only p s → Star (Lang (cls p)) s
Only-Star p [] h = stop refl
Only-Star p (c ∷ s) (h, hs) = step (c ∷ []) s refl (c, refl, h) (Only-Star p s hs)

-- `[p]*`
pub star_iff : (p : ℕ → Bool) (s : Text) → Lang (star (cls p)) s ↔ Only p s
star_iff p s = (Star-Only, Only-Star p s)

-- One unit of a class, then the rest.
pub cls-seq_iff :
    (p : ℕ → Bool) (r : Regex) (c : ℕ) (s : Text)
    → Lang (seq (cls p) r) (c ∷ s) ↔ ((p c ≡ true) × Lang r s)
cls-seq_iff p r c s = (take_first, λ h. (c ∷ [], s, refl, (c, refl, h.0), h.1))
  where
    take_first : Lang (seq (cls p) r) (c ∷ s) → (p c ≡ true) × Lang r s
    take_first (u, v, e, (d, eu, h), hv) =
        let whole : c ∷ s ≡ d ∷ v = rw eu at e in
        let same_unit : c ≡ d = cc in
        let same_rest : s ≡ v = cc in (rw same_unit h, rw same_rest hv)

pub not-cls-seq_nil : (p : ℕ → Bool) (r : Regex) → ¬ Lang (seq (cls p) r) []
not-cls-seq_nil p r (u, v, e, (d, eu, h), hv) = let whole : [] ≡ d ∷ v = rw eu at e in cc

-- `[p]{0,n}`
up_to_sound :
    (n : ℕ) (p : ℕ → Bool) (s : Text) → Lang (up_to n (cls p)) s → Only p s × (length s ≤ n)
up_to_sound zero p s e = rw e (tt, omega arith)
up_to_sound (suc n) p s (inr e) = rw e (tt, omega arith)
up_to_sound (suc n) p s (inl (u, v, e, (c, eu, h), more)) =
    let (all, short) = up_to_sound n p v more in rw (e, eu) ((h, all), omega arith)

up_to_complete :
    (n : ℕ) (p : ℕ → Bool) (s : Text) → Only p s → length s ≤ n → Lang (up_to n (cls p)) s
up_to_complete zero p [] h short = refl
up_to_complete zero p (c ∷ s) h short = absurd (omega arith)
up_to_complete (suc n) p [] h short = inr refl
up_to_complete (suc n) p (c ∷ s) (h, hs) short =
    inl (c ∷ [], s, refl, (c, refl, h), up_to_complete n p s hs (omega arith))

pub up_to_iff :
    (n : ℕ) (p : ℕ → Bool) (s : Text) → Lang (up_to n (cls p)) s ↔ (Only p s × (length s ≤ n))
up_to_iff n p s = (up_to_sound n p s, λ h. up_to_complete n p s h.0 h.1)

unsnoc :
    (c : ℕ) (s : Text) → (s ≡ []) ⊎ ((u : Text) × (d : ℕ) × (s ≡ u ++ d ∷ []) × (last_of c s ≡ d))
unsnoc c [] = inl refl
unsnoc c (x ∷ s) = elim (unsnoc x s) [
  | inl e ↦ inr ([], x, ap (λ t. x ∷ t) e, ap (last_of x) e)
  | inr (u, d, e, h) ↦ inr (x ∷ u, d, ap (λ t. x ∷ t) e, h)
]

-- A first unit in `f`, all later units in `m`, and the last of them in `e`.
abbrev pub IsLabel : (f m e : ℕ → Bool) → Text → Type 0
IsLabel f m e [] = ⊥
IsLabel f m e (c ∷ s) = (f c ≡ true) × Only m s × (e (last_of c s) ≡ true)

module _ (f m e : ℕ → Bool) (first_ends : (c : ℕ) → f c ≡ true → e c ≡ true)
    (end_inside : (c : ℕ) → e c ≡ true → m c ≡ true) where
  -- A middle that `R` describes, then an end.
  tail_sound :
      (r : Regex) (c : ℕ) (s : Text)
      → ((t : Text) → Lang r t → Only m t)
      → f c ≡ true
      → Lang (opt (seq r (cls e))) s
      → Only m s × (e (last_of c s) ≡ true)
  tail_sound r c s inside h (inr nothing) = rw nothing (tt, first_ends c h)
  tail_sound r c s inside h (inl (u, v, es, hu, (d, ev, hd))) =
      rw (es, ev)
        (
          All-append _ u (d ∷ []) (inside u hu) (end_inside d hd, tt),
          rw (last_of-append c u d []) hd,
        )

  pub label_iff : (s : Text) → Lang (label f m e) s ↔ IsLabel f m e s
  label_iff [] = (not-cls-seq_nil f (opt (seq (star (cls m)) (cls e))), absurd)
  label_iff (c ∷ s) = (sound, complete)
    where
      sound : Lang (label f m e) (c ∷ s) → IsLabel f m e (c ∷ s)
      sound h =
          let (hc, rest) = (cls-seq_iff f (opt (seq (star (cls m)) (cls e))) c s).0 h in
          let (inside, ending) = tail_sound (star (cls m)) c s (λ t. (star_iff m t).0) hc rest in
          (hc, inside, ending)

      complete : IsLabel f m e (c ∷ s) → Lang (label f m e) (c ∷ s)
      complete (hc, inside, ending) = (cls-seq_iff f (opt (seq (star (cls m)) (cls e))) c s).1 (
        hc,
        elim (unsnoc c s) [
          | inl nothing ↦ inr nothing
          | inr (u, d, es, last) ↦ inl (
            u,
            d ∷ [],
            es,
            (star_iff m u).1 (All-append_left _ u (d ∷ []) (rw es at inside)),
            (d, refl, rw last at ending),
          )
        ],
      )

  pub bounded_label_iff :
      (n : ℕ) (s : Text) → Lang (bounded_label n f m e) s ↔ (IsLabel f m e s × (length s ≤ n + 2))
  bounded_label_iff n [] =
      (λ h. absurd (not-cls-seq_nil f (opt (seq (up_to n (cls m)) (cls e))) h), λ h. absurd h.0)
  bounded_label_iff n (c ∷ s) = (sound, complete)
    where
      short : Lang (opt (seq (up_to n (cls m)) (cls e))) s → length s ≤ n + 1
      short (inr nothing) = rw nothing (omega arith)
      short (inl (u, v, es, hu, (d, ev, hd))) =
          rw (es, ev) (omega (arith, length-append u (d ∷ []), ((up_to_iff n m u).0 hu).1))

      sound :
          Lang (bounded_label n f m e) (c ∷ s) → IsLabel f m e (c ∷ s) × (suc (length s) ≤ n + 2)
      sound h =
          let (hc, rest) = (cls-seq_iff f (opt (seq (up_to n (cls m)) (cls e))) c s).0 h in
          let inside = λ (t : Text) (h : Lang (up_to n (cls m)) t). ((up_to_iff n m t).0 h).0 in
          let (all, ending) = tail_sound (up_to n (cls m)) c s inside hc rest in
          ((hc, all, ending), omega (arith, short rest))

      complete :
          IsLabel f m e (c ∷ s) × (suc (length s) ≤ n + 2) → Lang (bounded_label n f m e) (c ∷ s)
      complete ((hc, inside, ending), fits) =
          (cls-seq_iff f (opt (seq (up_to n (cls m)) (cls e))) c s).1 (
            hc,
            elim (unsnoc c s) [
              | inl nothing ↦ inr nothing
              | inr (u, d, es, last) ↦ inl (
                u,
                d ∷ [],
                es,
                (up_to_iff n m u).1 (
                  All-append_left _ u (d ∷ []) (rw es at inside),
                  omega (arith, ap length es, length-append u (d ∷ [])),
                ),
                (d, refl, rw last at ending),
              )
            ],
          )
