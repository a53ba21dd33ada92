-- ===== src/Reverse/Trees.antt =====
-- A network is read only of a reverse zone.
use vantric.Prelude.{true, some, ◌≡◌, arith}
use vantric.Prelude.Text.{Text}
use vantric.Reverse.{is_reverse_zone, network_for_reverse_zone}

-- A zone that a network is read of is a reverse zone.
network_for_reverse_zone-is_reverse :
    (low : Text → Text) (zone network : Text)
    → network_for_reverse_zone low zone ≡ some network
    → is_reverse_zone low zone ≡ true
unfolding network_for_reverse_zone is_reverse_zone
network_for_reverse_zone-is_reverse low zone network h = ground arith
