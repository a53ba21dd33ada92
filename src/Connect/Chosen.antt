-- ===== src/Connect/Chosen.antt =====
-- Which way in a guest has.
use vantric.Prelude.{true, false, some, ◌≡◌, ◌↔◌, arith}
use vantric.Prelude.Text.{Text}
use vantric.Connect.{Connection, is_windows, rdp_connection, ssh_connection, connection_for}

-- The way in stays inside the console exactly for a guest that has an address and is no Windows.
connection_for-internal :
    (os_type ip instance_name : Text) (c : Connection)
    → connection_for os_type ip instance_name ≡ some c
    → (c.is_internal ≡ true) ↔ (is_windows os_type ≡ false)
unfolding connection_for rdp_connection ssh_connection
connection_for-internal os_type ip instance_name c h = ground arith
