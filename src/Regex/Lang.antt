-- ===== src/Regex/Lang.antt =====
-- What a regular expression matches, and that `test` decides it.
use vantric.Prelude.{
  ℕ, true, [], ◌∷◌, ◌++◌, ◌≡◌, refl, sym, ◌↔◌, ◌⊎◌, inl, inr, Bool-cases, and_iff, or_iff,
}
use vantric.Prelude.Text.{Text}
use vantric.Regex.{Regex, fail, eps, cls, seq, alt, star, nullable, deriv, test}

pub data Star (P : Text → Type 0) : Text → Type 0 where
  stop : {s : Text} → s ≡ [] → Star P s
  step : {s : Text} (u v : Text) → s ≡ u ++ v → P u → Star P v → Star P s

abbrev pub Lang : Regex → Text → Type 0
Lang fail s = ⊥
Lang eps s = s ≡ []
Lang (cls p) s = (c : ℕ) × (s ≡ c ∷ []) × (p c ≡ true)
Lang (seq a b) s = (u : Text) × (v : Text) × (s ≡ u ++ v) × Lang a u × Lang b v
Lang (alt a b) s = Lang a s ⊎ Lang b s
Lang (star a) s = Star (Lang a) s

nil_of_append : (u v : Text) → [] ≡ u ++ v → (u ≡ []) × (v ≡ [])
nil_of_append [] v e = (refl, sym e)
nil_of_append (c ∷ u) v e = cc

-- A star that matches a text with a first unit has a round that starts with it.
Star-cons :
    (P : Text → Type 0) (c : ℕ) (s t : Text)
    → Star P t
    → t ≡ c ∷ s
    → (u : Text) × (v : Text) × (s ≡ u ++ v) × P (c ∷ u) × Star P v
Star-cons P c s t (stop e) h = cc
Star-cons P c s t (step [] v e p more) h = Star-cons P c s v more (cc)
Star-cons P c s t (step (d ∷ u) v e p more) h =
    let same_head : d ≡ c = cc in (u, v, cc, (rw same_head at p), more)

nullable_sound : (r : Regex) → nullable r ≡ true → Lang r []
unfolding nullable
nullable_sound fail h = cc
nullable_sound eps h = refl
nullable_sound (cls p) h = cc
nullable_sound (seq a b) h =
    let (ha, hb) = (and_iff _ _).0 h in ([], [], refl, nullable_sound a ha, nullable_sound b hb)
nullable_sound (alt a b) h = elim ((or_iff _ _).0 h) [
  | inl ha ↦ inl (nullable_sound a ha)
  | inr hb ↦ inr (nullable_sound b hb)
]
nullable_sound (star a) h = stop refl

nullable_complete : (r : Regex) → Lang r [] → nullable r ≡ true
unfolding nullable
nullable_complete fail h = absurd h
nullable_complete eps h = refl
nullable_complete (cls p) (c, e, h) = cc
nullable_complete (seq a b) (u, v, e, ha, hb) =
    let (eu, ev) = nil_of_append u v e in
    (and_iff _ _).1 (nullable_complete a (rw eu at ha), nullable_complete b (rw ev at hb))
nullable_complete (alt a b) (inl h) = (or_iff _ _).1 (inl (nullable_complete a h))
nullable_complete (alt a b) (inr h) = (or_iff _ _).1 (inr (nullable_complete b h))
nullable_complete (star a) h = refl

deriv_sound : (c : ℕ) (r : Regex) (s : Text) → Lang (deriv c r) s → Lang r (c ∷ s)
unfolding deriv
deriv_sound c fail s h = absurd h
deriv_sound c eps s h = absurd h
deriv_sound c (cls p) s h = elim (Bool-cases (p c)) [
  | inl yes_p ↦ let rest : s ≡ [] = rw yes_p at h in (c, cc, yes_p)
  | inr no_p ↦ absurd (rw no_p at h)
]
deriv_sound c (seq a b) s (inl (u, v, e, ha, hb)) = (c ∷ u, v, cc, deriv_sound c a u ha, hb)
deriv_sound c (seq a b) s (inr (u, v, e, ha, hb)) = elim (Bool-cases (nullable a)) [
  | inl yes_a ↦
      let none_left : u ≡ [] = rw yes_a at ha in
      let same_rest : s ≡ v = cc in
      ([], c ∷ s, refl, nullable_sound a yes_a, deriv_sound c b s (rw same_rest hb))
  | inr no_a ↦ absurd (rw no_a at ha)
]
deriv_sound c (alt a b) s (inl h) = inl (deriv_sound c a s h)
deriv_sound c (alt a b) s (inr h) = inr (deriv_sound c b s h)
deriv_sound c (star a) s (u, v, e, ha, more) = step (c ∷ u) v (cc) (deriv_sound c a u ha) more

deriv_complete : (c : ℕ) (r : Regex) (s : Text) → Lang r (c ∷ s) → Lang (deriv c r) s
unfolding deriv
deriv_complete c fail s h = absurd h
deriv_complete c eps s h = cc
deriv_complete c (cls p) s (d, e, h) =
    let same_unit : c ≡ d = cc in
    let accepted : p c ≡ true = rw same_unit h in let rest : s ≡ [] = cc in rw accepted rest
deriv_complete c (seq a b) s ([], v, e, ha, hb) =
    let whole : v ≡ c ∷ s = sym e in
    inr ([], s, refl, rw (nullable_complete a ha) refl, deriv_complete c b s (rw whole at hb))
deriv_complete c (seq a b) s (d ∷ u, v, e, ha, hb) =
    let same_unit : d ≡ c = cc in inl (u, v, cc, deriv_complete c a u (rw same_unit at ha), hb)
deriv_complete c (alt a b) s (inl h) = inl (deriv_complete c a s h)
deriv_complete c (alt a b) s (inr h) = inr (deriv_complete c b s h)
deriv_complete c (star a) s h =
    let (u, v, e, p, more) = Star-cons (Lang a) c s (c ∷ s) h refl in
    (u, v, e, deriv_complete c a u p, more)

pub test_sound : (r : Regex) (s : Text) → test r s ≡ true → Lang r s
unfolding test
test_sound r [] h = nullable_sound r h
test_sound r (c ∷ s) h = deriv_sound c r s (test_sound (deriv c r) s h)

pub test_complete : (r : Regex) (s : Text) → Lang r s → test r s ≡ true
unfolding test
test_complete r [] h = nullable_complete r h
test_complete r (c ∷ s) h = test_complete (deriv c r) s (deriv_complete c r s h)

-- The matcher decides the language of the expression.
pub test_iff : (r : Regex) (s : Text) → (test r s ≡ true) ↔ Lang r s
test_iff r s = (test_sound r s, test_complete r s)
