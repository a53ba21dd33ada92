-- ===== src/Client/Roots.antt =====
-- What the source's own words at the head of a template literal say of the path that it becomes.
use vantric.Prelude.{
  ℕ, ◌≡◌, refl, Bool, true, false, Option, none, some, [], ◌∷◌, ◌++◌, ◌==◌, append_assoc, arith,
}
use vantric.Prelude.Text.{Text, starts, has}
use vantric.Client.Encode.Safe.{encode_uri_component-inert}
use vantric.Client.Wire.{Template, words, raw, enc, num, query, render, render_part}

-- The words before the first value
unfoldable pub lead : Template → Text
lead [] = []
lead (words s ∷ t) = s ++ lead t
lead (raw s ∷ t) = []
lead (enc s ∷ t) = []
lead (num n ∷ t) = []
lead (query q ∷ t) = []

-- Whether a text that starts with `s` starts with `p`, where `s` alone decides it
unfoldable pub decide : Text → Text → Option Bool
decide [] s = some true
decide (c ∷ p) [] = none
decide (c ∷ p) (d ∷ s) = elim (c == d) [ true ↦ decide p s | false ↦ some false ]

decide-starts : (p s t : Text) (b : Bool) → decide p s ≡ some b → starts p (s ++ t) ≡ b
unfolding decide starts
decide-starts [] s t b h = ground arith
decide-starts (c ∷ p) [] t b h = ground arith
decide-starts (c ∷ p) (d ∷ s) t b h = ground (arith, decide-starts p s t b)

render-words :
    (s : Text) (t : Template) (path : Text)
    → render (words s ∷ t) ≡ some path
    → (after : Text) × (render t ≡ some after) × (path ≡ s ++ after)
unfolding render render_part
render-words s t path h =
    elim (render t)
        as (λ r. render t ≡ r → (after : Text) × (render t ≡ some after) × (path ≡ s ++ after)) [
          | none ↦ λ e. absurd (cc)
          | some after ↦ λ e. (after, e, cc)
        ]
      refl

-- A path starts with the template's lead.
render-lead :
    (t : Template) (path : Text) → render t ≡ some path → (rest : Text) × (path ≡ lead t ++ rest)
unfolding lead render render_part
render-lead [] path h = ([], ground arith)
render-lead (words s ∷ t) path h =
    let (after, e, f) = render-words s t path h in
    let (rest, g) = render-lead t after e in (rest, ground (arith, append_assoc s (lead t) rest))
render-lead (raw s ∷ t) path h = (path, refl)
render-lead (enc s ∷ t) path h = (path, refl)
render-lead (num n ∷ t) path h = (path, refl)
render-lead (query q ∷ t) path h = (path, refl)

pub render-starts :
    (p : Text) (t : Template) (b : Bool) (path : Text)
    → decide p (lead t) ≡ some b
    → render t ≡ some path
    → starts p path ≡ b
render-starts p t b path decided rendered =
    let (rest, e) = render-lead t path rendered in rw e (decide-starts p (lead t) rest b decided)

-- A value that the source puts through `encodeURIComponent` stays within its part of the path: what
-- is written holds no slash, question mark, hash, ampersand, equals sign, plus or space.
pub render_part-enc :
    (s t : Text) (c : ℕ)
    → render_part (enc s) ≡ some t
    → has c (b'/' ∷ b'?' ∷ b'#' ∷ b'&' ∷ b'=' ∷ b'+' ∷ b' ' ∷ []) ≡ true
    → has c t ≡ false
unfolding render_part
render_part-enc s t c rendered ends = encode_uri_component-inert s t c rendered ends
