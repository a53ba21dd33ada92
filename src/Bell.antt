-- ===== src/Bell.antt =====
-- frontend/src/components/NotificationBell.tsx: which operations have landed, what is asked for again when one does,
-- and what the bell shows. The list of operations is the server's and is polled; a set is the list of its members.
pub mod Firsts
pub mod Landed
pub mod Tests
use vantric.Prelude.{
  ℕ, Bool, true, false, not, ◌&&◌, ◌||◌, List, [], ◌∷◌, ◌++◌, any_of, if◌then◌else◌, ltb, ◌==◌,
  length, filter_by,
}
use vantric.Prelude.Text.{Text, text, same, among, is_empty}

pub data Status : Type 0 where
  running done warning error : Status

pub record Operation : Type 0 where
  pub id : Text
  pub resource_type : Text
  pub status : Status

abbrev pub is_running : Status → Bool
is_running running = true
is_running done = false
is_running warning = false
is_running error = false

-- The lists that an outcome makes stale
unfoldable pub affects : Text → List Text
unfolding same text
affects kind =
    if same kind (text "instance")
    then text "instances" ∷ text "instance" ∷ text "instanceDetail" ∷ text "overview" ∷ []
    else if same kind (text "snapshot")
    then text "snapshots" ∷ text "instance" ∷ text "instanceDetail" ∷ []
    else if same kind (text "container")
    then text "containers" ∷ text "container" ∷ text "overview" ∷ []
    else if same kind (text "image")
    then text "images" ∷ text "instances" ∷ []
    else if same kind (text "iso")
    then text "isos" ∷ []
    else if same kind (text "cloudImage")
    then text "cloudImages" ∷ []
    else if same kind (text "ctTemplate")
    then text "ctTemplates" ∷ []
    else if same kind (text "backup")
    then text "backups" ∷ []
    else []

-- The bell, with the keys that it has invalidated so far, the last one last
pub record Bell : Type 0 where
  pub operations : List Operation
  pub settled : List Text
  pub unseen : List Text
  pub is_open : Bool
  pub invalidated : List Text

abbrev pub new_bell : Bell
new_bell = record { operations = []; settled = []; unseen = []; is_open = false; invalidated = [] }

-- The operations that the loop of the effect finds landed: not running, and not settled before
unfoldable pub landed : List Text → List Operation → List Operation
unfolding among
landed settled [] = []
landed settled (op ∷ ops) =
    let rest = landed settled ops in
    let next = landed (settled ++ op.id ∷ []) ops in
    if is_running op.status || among op.id settled then rest else op ∷ next

abbrev pub ids_of : List Operation → List Text
ids_of [] = []
ids_of (op ∷ ops) = op.id ∷ ids_of ops

unfoldable pub keys_of : List Operation → List Text
unfolding affects
keys_of [] = []
keys_of (op ∷ ops) = affects op.resource_type ++ keys_of ops

-- `new Set([...current, ...landed])`
unfoldable pub union : List Text → List Text → List Text
unfolding among
union current [] = current
union current (id ∷ ids) =
    if among id current then union current ids else union (current ++ id ∷ []) ids

-- What happens: a poll brings the operations, and the menu opens and closes.
pub data BellEvent : Type 0 where
  polled : List Operation → BellEvent
  menu_opened menu_closed : BellEvent

unfoldable pub bell_step : BellEvent → Bell → Bell
unfolding landed keys_of union
bell_step (polled ops) bell =
    let found = landed bell.settled ops in
    record bell {
      operations = ops;
      settled = bell.settled ++ ids_of found;
      unseen = union bell.unseen (ids_of found);
      invalidated = bell.invalidated ++ keys_of found;
    }
bell_step menu_opened bell = record bell { is_open = true; unseen = [] }
bell_step menu_closed bell = record bell { is_open = false }

unfoldable pub bell_run : List BellEvent → Bell → Bell
unfolding bell_step
bell_run [] bell = bell
bell_run (e ∷ es) bell = bell_run es (bell_step e bell)

pub data BellMode : Type 0 where
  busy idle failed warned finished : BellMode

abbrev pub is_error : Status → Bool
is_error error = true
is_error _ = false

abbrev pub is_warning : Status → Bool
is_warning warning = true
is_warning _ = false

abbrev pub none_unseen : List Text → Bool
none_unseen [] = true
none_unseen (id ∷ ids) = false

unfoldable pub bell_mode : Bell → BellMode
unfolding among
bell_mode bell =
    if any_of (λ op. is_running op.status) bell.operations
    then busy
    else if none_unseen bell.unseen
    then idle
    else if any_of (λ op. among op.id bell.unseen && is_error op.status) bell.operations
    then failed
    else if any_of (λ op. among op.id bell.unseen && is_warning op.status) bell.operations
    then warned
    else finished
