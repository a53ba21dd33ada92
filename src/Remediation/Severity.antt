-- ===== src/Remediation/Severity.antt =====
-- Where a severity stands, as its place in the list from the worst to the mildest.
use vantric.Prelude.{ℕ, suc, List, [], ◌∷◌, ◌≡◌, refl, if◌then◌else◌}
use vantric.Prelude.Text.{Text, text, same}
use vantric.Remediation.{rank_of}

abbrev severities : List Text
severities = text "CRITICAL" ∷ text "HIGH" ∷ text "MEDIUM" ∷ text "LOW" ∷ text "MINIMAL" ∷ []

unfoldable pub place : ℕ → Text → List Text → ℕ
unfolding same
place n s [] = 9
place n s (t ∷ ts) = let rest = place (suc n) s ts in if same s t then n else rest

-- 0 is the worst; 9 is what the list does not have.
unfoldable pub standing : Text → ℕ
unfolding place text
standing s = place 0 s severities

pub rank_of-standing : (s : Text) → rank_of s ≡ standing s
unfolding rank_of standing place text
rank_of-standing s = refl
