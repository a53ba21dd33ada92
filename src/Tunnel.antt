-- ===== src/Tunnel.antt =====
-- frontend/src/guacTunnel.ts: the tunnel of a remote desktop, which hands its credentials over as the
-- first frame of its socket.
pub mod Tests
pub mod FirstFrame
pub mod Order
pub mod Wire
pub mod Delivery
use vantric.Prelude.{
  ℕ, zero, suc, Option, none, some, List, [], ◌∷◌, ◌++◌, length, Bool, true, false,
}
use vantric.Prelude.Text.{Text}

-- `readyState` of a WebSocket
pub data Phase : Type 0 where
  is_connecting is_open is_closed : Phase

pub record Socket : Type 0 where
  pub phase : Phase
  -- the frames that were sent, the first one first
  pub frames : List Text

pub data TunnelState : Type 0 where
  state_initial state_connecting state_open state_closed : TunnelState

-- The sockets that were made so far, each known by its place; `socket` is the tunnel's own.
pub record Tunnel : Type 0 where
  pub sockets : List Socket
  pub socket : Option ℕ
  pub pending : List Text
  pub state : TunnelState

abbrev pub new_tunnel : Tunnel
new_tunnel = record { sockets = []; socket = none; pending = []; state = state_initial }

unfoldable pub phase_at : ℕ → List Socket → Option Phase
phase_at i [] = none
phase_at zero (s ∷ sockets) = some s.phase
phase_at (suc i) (s ∷ sockets) = phase_at i sockets

unfoldable pub change_at : ℕ → (Socket → Socket) → List Socket → List Socket
change_at i f [] = []
change_at zero f (s ∷ sockets) = f s ∷ sockets
change_at (suc i) f (s ∷ sockets) = s ∷ change_at i f sockets

-- `socket.send(frame)` for each frame
abbrev pub send_all : List Text → Socket → Socket
send_all frames s = record s { frames = s.frames ++ frames }

-- The calls of the client, and the events of the socket of that place.
pub data Event : Type 0 where
  connect disconnect : Event
  send_message : Text → Event
  on_open on_close on_error : ℕ → Event

unfoldable pub connect_step : Tunnel → Tunnel
connect_step t = record t {
  sockets = t.sockets ++ record { phase = is_connecting; frames = [] } ∷ [];
  socket = some (length t.sockets);
  state = state_connecting;
}

-- `onopen`: the credentials, then what waited
unfoldable pub opened : Text → ℕ → Tunnel → Tunnel
unfolding change_at
opened credentials i t = record t {
  sockets =
      change_at i (λ s. record s { phase = is_open; frames = s.frames ++ credentials ∷ t.pending })
        t.sockets;
  pending = [];
  state = state_open;
}

-- The browser opens a socket that is connecting, and no other.
unfoldable pub open_if : Text → ℕ → Tunnel → Option Phase → Tunnel
unfolding opened
open_if credentials i t (some is_connecting) = opened credentials i t
open_if credentials i t _ = t

unfoldable pub open_step : Text → ℕ → Tunnel → Tunnel
unfolding phase_at open_if
open_step credentials i t = open_if credentials i t (phase_at i t.sockets)

-- A socket that closes or fails; a failure is told to the client besides.
unfoldable pub close_step : ℕ → Tunnel → Tunnel
unfolding change_at
close_step i t = record t {
  sockets = change_at i (λ s. record s { phase = is_closed }) t.sockets;
  state = state_closed;
}

-- `this.socket?.close()`
unfoldable pub close_own : Option ℕ → List Socket → List Socket
unfolding change_at
close_own none sockets = sockets
close_own (some i) sockets = change_at i (λ s. record s { phase = is_closed }) sockets

unfoldable pub disconnect_step : Tunnel → Tunnel
unfolding close_own
disconnect_step t = record t {
  sockets = close_own t.socket t.sockets;
  socket = none;
  pending = [];
  state = state_closed;
}

-- A message goes out where the tunnel's socket is open, and waits where there is one that is not.
unfoldable pub send_if : Text → ℕ → Tunnel → Option Phase → Tunnel
unfolding change_at
send_if message i t (some is_open) = record t {
  sockets = change_at i (send_all (message ∷ [])) t.sockets;
}
send_if message i t _ = record t { pending = t.pending ++ message ∷ [] }

-- `message` is what `encode` makes of the elements.
unfoldable pub send_from : Text → Tunnel → Option ℕ → Tunnel
unfolding phase_at send_if
send_from message t none = t
send_from message t (some i) = send_if message i t (phase_at i t.sockets)

unfoldable pub send_step : Text → Tunnel → Tunnel
unfolding send_from
send_step message t = send_from message t t.socket

unfoldable pub step : Text → Event → Tunnel → Tunnel
unfolding connect_step open_step close_step disconnect_step send_step
step credentials connect t = connect_step t
step credentials disconnect t = disconnect_step t
step credentials (send_message message) t = send_step message t
step credentials (on_open i) t = open_step credentials i t
step credentials (on_close i) t = close_step i t
step credentials (on_error i) t = close_step i t

unfoldable pub run : Text → List Event → Tunnel → Tunnel
unfolding step
run credentials [] t = t
run credentials (e ∷ events) t = run credentials events (step credentials e t)
