-- ===== src/Nav/Find.antt =====
-- `sectionFor`: no section's prefix begins another's, so the order of the sections decides nothing.
use vantric.Prelude.{
  ◌≡◌, refl, sym, Bool, true, false, not, some, List, [], ◌∷◌, ◌⊎◌, inl, inr, every, In, every-In,
  arith, Bool-cases, ◌&&◌, and_iff,
}
use vantric.Prelude.Text.{Text, text, starts}
use vantric.Nav.{Section}
use vantric.Nav.Table.{sections, find_section, section_for}

abbrev apart : Section → Section → Bool
apart s t = not (starts s.prefix t.prefix) && not (starts t.prefix s.prefix)

abbrev all_apart : List Section → Bool
all_apart [] = true
all_apart (s ∷ rest) = every (apart s) rest && all_apart rest

-- Of two prefixes of one text, one begins the other.
starts_comparable :
    (p q s : Text)
    → starts p s ≡ true
    → starts q s ≡ true
    → (starts p q ≡ true) ⊎ (starts q p ≡ true)
unfolding starts
starts_comparable [] q s hp hq = inl refl
starts_comparable (c ∷ p) [] s hp hq = inr refl
starts_comparable (c ∷ p) (d ∷ q) [] hp hq = absurd (cc)
starts_comparable (c ∷ p) (d ∷ q) (e ∷ s) hp hq = ground (arith, starts_comparable p q s)

apart-starts :
    (s t : Section) (p : Text)
    → apart s t ≡ true
    → starts t.prefix p ≡ true
    → starts s.prefix p ≡ false
apart-starts s t p far h = elim (Bool-cases (starts s.prefix p)) [
  | inr e ↦ e
  | inl e ↦ absurd (ground (arith, starts_comparable s.prefix t.prefix p e h))
]

find_section_unique :
    (p : Text) (ss : List Section) (s : Section)
    → all_apart ss ≡ true
    → In s ss
    → starts s.prefix p ≡ true
    → find_section p ss ≡ some s
unfolding find_section
find_section_unique p [] s far member h = absurd member
find_section_unique p (t ∷ ts) s far (inl e) h = rw (sym e) (rw h refl)
find_section_unique p (t ∷ ts) s far (inr member) h =
    rw (apart-starts t s p (every-In (apart t) s ts (((and_iff _ _).0 far).0) member) h)
      (find_section_unique p ts s (((and_iff _ _).0 far).1) member h)

sections-apart : all_apart sections ≡ true
unfolding starts text
sections-apart = refl

-- The section of an address is the one whose prefix begins it, wherever that section stands in the list.
pub section_for_unique :
    (pathname : Text) (s : Section)
    → In s sections
    → starts s.prefix pathname ≡ true
    → section_for pathname ≡ some s
unfolding section_for
section_for_unique pathname s member h =
    find_section_unique pathname sections s sections-apart member h
