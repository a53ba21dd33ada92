-- ===== src/Connect.antt =====
-- frontend/src/connect.ts: how one gets into a guest.
pub mod Chosen
use vantric.Prelude.{
  ℕ, Bool, true, false, ◌||◌, Option, none, some, List, [], ◌∷◌, ◌++◌, if◌then◌else◌,
}
use vantric.Prelude.Text.{Text, text, starts, lower_ascii, is_empty}
use vantric.Client.Wire.{Template, lit, raw, enc}

pub data Protocol : Type 0 where
  ssh rdp : Protocol

pub record Connection : Type 0 where
  pub kind : Protocol
  pub href : Template
  pub is_internal : Bool
  pub command : Text
  pub port : ℕ

-- `/^(win|w2k|wxp|wvista)/i`
unfoldable pub is_windows : Text → Bool
unfolding starts lower_ascii text
is_windows os_type =
    let low = lower_ascii os_type in
    starts (text "win") low
    || starts (text "w2k") low
    || starts (text "wxp") low
    || starts (text "wvista") low

unfoldable pub rdp_connection : Text → Connection
unfolding text
rdp_connection ip = record {
  kind = rdp;
  href = lit "rdp://full%20address=s:" ∷ raw ip ∷ lit ":3389" ∷ [];
  is_internal = false;
  command = text "mstsc /v:" ++ ip;
  port = 3389;
}

unfoldable pub ssh_connection : Text → Text → Connection
unfolding text
ssh_connection ip instance_name = record {
  kind = ssh;
  href = lit "/compute/instances/" ∷ enc instance_name ∷ lit "/ssh" ∷ [];
  is_internal = true;
  command = text "ssh " ++ ip;
  port = 22;
}

unfoldable pub connection_for : Text → Text → Text → Option Connection
unfolding is_windows rdp_connection ssh_connection
connection_for os_type ip instance_name =
    if is_empty ip
    then none
    else if is_windows os_type
    then some (rdp_connection ip)
    else some (ssh_connection ip instance_name)
