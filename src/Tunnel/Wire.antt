-- ===== src/Tunnel/Wire.antt =====
-- `encode` of frontend/src/guacTunnel.ts: an element is its length in characters, a full stop and its
-- value; elements are joined by commas and end with a semicolon.
pub mod Decode
use vantric.Prelude.{ℕ, suc, Bool, true, false, ◌&&◌, List, [], ◌∷◌, ◌++◌, leb, map}
use vantric.Prelude.Text.{Text, text, join, show}

-- A surrogate that leads a pair, and one that ends it
abbrev pub is_lead : ℕ → Bool
is_lead c = leb 0xd800 c && leb c 0xdbff

abbrev pub is_trail : ℕ → Bool
is_trail c = leb 0xdc00 c && leb c 0xdfff

-- `[...value].length`: a pair is one character, and a surrogate alone is one too. `lead` says that
-- the unit before led, and has been counted.
unfoldable pub characters_from : Bool → Text → ℕ
characters_from lead [] = 0
characters_from true (c ∷ s) = elim (is_trail c) [
  | true ↦ characters_from false s
  | false ↦ suc (characters_from (is_lead c) s)
]
characters_from false (c ∷ s) = suc (characters_from (is_lead c) s)

unfoldable pub characters : Text → ℕ
unfolding characters_from
characters value = characters_from false value

unfoldable pub encode_element : Text → Text
unfolding characters
encode_element value = show (characters value) ++ b'.' ∷ value

-- The elements as `String` gives them
unfoldable pub encode : List Text → Text
unfolding encode_element text
encode elements = join (text ",") (map encode_element elements) ++ text ";"
