-- ===== src/Policies.antt =====
-- frontend/src/storagePolicy.ts: what a policy of an object store allows, in a line.
pub mod Reading
use vantric.Prelude.{
  Bool, true, false, not, ◌&&◌, ◌||◌, Option, none, some, List, [], ◌∷◌, ◌++◌, if◌then◌else◌,
  filter_by, any_of, every,
}
use vantric.Prelude.Text.{Text, text, same, starts, split, join}

-- `action.split(':')[0]`
unfoldable pub service : Text → Text
unfolding split
service action = elim (split b':' action) [ [] ↦ [] | part ∷ parts ↦ part ]

unfoldable pub grants_action : Text → Text → Bool
unfolding same text service
grants_action action a = same a action || same a (text "*") || same a (service action ++ text ":*")

-- `has(actions, action)`
unfoldable pub has_action : List Text → Text → Bool
unfolding grants_action
has_action actions action = any_of (grants_action action) actions

unfoldable pub policy_warning : List Text → Option Text
unfolding has_action text
policy_warning [] = some (text "Grants nothing.")
policy_warning (a ∷ actions) =
    if has_action (a ∷ actions) (text "s3:GetObject")
      && not (has_action (a ∷ actions) (text "s3:ListBucket"))
    then some (
        text
          "Can read objects but not list them — a client that browses buckets will look broken. Add s3:ListBucket in a custom policy if it needs to.")
    else none

abbrev pub is_administrative : Text → Bool
is_administrative a = starts (text "admin:") a || starts (text "sts:") a

unfoldable pub policy_summary : List Text → Text
unfolding has_action text starts same
policy_summary [] = text "Nothing"
policy_summary (a ∷ actions) =
    let all = a ∷ actions in
    let write = has_action all (text "s3:PutObject") in
    let read = has_action all (text "s3:GetObject") in
    if has_action all (text "admin:CreateUser")
    then text "Full administration, including access keys"
    else if read && write
    then text "Read and write objects"
    else if write
    then text "Write objects only"
    else if read
    then text "Read objects"
    else if every is_administrative all
    then text "Administration, no object access"
    else join (text ", ") (filter_by (λ b. not (same b (text "sts:AssumeRole"))) all)
