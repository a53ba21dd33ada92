-- ===== src/Policies/Reading.antt =====
-- When a policy is warned of.
use vantric.Prelude.{true, none, List, [], ◌∷◌, ◌++◌, ◌≡◌, ◌≢◌, refl, ◌↔◌, ◌⊎◌, arith}
use vantric.Prelude.Text.{Text, text, same_iff}
use vantric.Policies.{service, grants_action, has_action, policy_warning}

-- An action that allows one of a name: itself, everything, or everything of its service.
abbrev pub Allows : Text → List Text → Type 0
Allows action [] = ⊥
Allows action (a ∷ actions) =
    ((a ≡ action) ⊎ ((a ≡ text "*") ⊎ (a ≡ service action ++ text ":*"))) ⊎ Allows action actions

grants_action_iff :
    (action a : Text)
    → (grants_action action a ≡ true)
      ↔ ((a ≡ action) ⊎ ((a ≡ text "*") ⊎ (a ≡ service action ++ text ":*")))
unfolding grants_action
grants_action_iff action a =
    ground
      (arith, same_iff a action, same_iff a (text "*"), same_iff a (service action ++ text ":*"))

has_action_iff :
    (actions : List Text) (action : Text)
    → (has_action actions action ≡ true) ↔ Allows action actions
unfolding has_action
has_action_iff [] action = (λ h. absurd (cc), λ h. absurd h)
has_action_iff (a ∷ actions) action =
    ground (arith, grants_action_iff action a, has_action_iff actions action)

-- A policy is not warned of exactly if it has actions, and allows listing a bucket if it allows reading
-- an object.
pub policy_warning-eq-none_iff :
    (actions : List Text)
    → (policy_warning actions ≡ none) ↔ (
        (actions ≢ [])
        × (Allows (text "s3:GetObject") actions → Allows (text "s3:ListBucket") actions))
unfolding policy_warning
policy_warning-eq-none_iff [] = (λ h. absurd (cc), λ (some_action, _). absurd (some_action refl))
policy_warning-eq-none_iff (a ∷ actions) = ground (
  arith,
  has_action_iff (a ∷ actions) (text "s3:GetObject"),
  has_action_iff (a ∷ actions) (text "s3:ListBucket"),
)
