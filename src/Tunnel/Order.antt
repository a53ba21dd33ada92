-- ===== src/Tunnel/Order.antt =====
-- The order in which a socket carries its messages.
use vantric.Prelude.{
  some, List, [], ◌∷◌, ◌++◌, ◌≡◌, refl, sym, ap, ◌∙◌, append_assoc, append-nil, length,
}
use vantric.Prelude.Text.{Text}
use vantric.Tunnel.{
  Phase, is_connecting, is_open, Socket, Tunnel, TunnelState, state_connecting, state_open, Event,
  connect, send_message, on_open, phase_at, change_at, opened, open_if, open_step, connect_step,
  send_if, send_from, send_step, step, run,
}

abbrev pub sends : List Text → List Event
sends [] = []
sends (m ∷ ms) = send_message m ∷ sends ms

-- A tunnel whose own socket is its last
abbrev pub with_socket : List Socket → Phase → List Text → List Text → TunnelState → Tunnel
with_socket others p frames waiting state = record {
  sockets = others ++ record { phase = p; frames = frames } ∷ [];
  socket = some (length others);
  pending = waiting;
  state = state;
}

phase_at-last :
    (others : List Socket) (s : Socket) → phase_at (length others) (others ++ s ∷ []) ≡ some s.phase
unfolding phase_at
phase_at-last [] s = refl
phase_at-last (o ∷ others) s = phase_at-last others s

change_at-last :
    (others : List Socket) (f : Socket → Socket) (s : Socket)
    → change_at (length others) f (others ++ s ∷ []) ≡ others ++ f s ∷ []
unfolding change_at
change_at-last [] f s = refl
change_at-last (o ∷ others) f s = ap (λ l. o ∷ l) (change_at-last others f s)

run-append :
    (credentials : Text) (es fs : List Event) (t : Tunnel)
    → run credentials (es ++ fs) t ≡ run credentials fs (run credentials es t)
unfolding run
run-append credentials [] fs t = refl
run-append credentials (e ∷ es) fs t = run-append credentials es fs (step credentials e t)

module _ (others : List Socket) where
  send_waiting :
      (m : Text) (frames waiting : List Text) (state : TunnelState)
      → send_step m (with_socket others is_connecting frames waiting state)
        ≡ with_socket others is_connecting frames (waiting ++ m ∷ []) state
  unfolding send_step send_from send_if
  send_waiting m frames waiting state =
      let own : Socket = record { phase = is_connecting; frames = frames } in
      let t = with_socket others is_connecting frames waiting state in
      ap (send_if m (length others) t) (phase_at-last others own)

  send_open :
      (m : Text) (frames waiting : List Text) (state : TunnelState)
      → send_step m (with_socket others is_open frames waiting state)
        ≡ with_socket others is_open (frames ++ m ∷ []) waiting state
  unfolding send_step send_from send_if
  send_open m frames waiting state =
      let own : Socket = record { phase = is_open; frames = frames } in
      let t = with_socket others is_open frames waiting state in
      ap (send_if m (length others) t) (phase_at-last others own)
      ∙ ap (λ l. record t { sockets = l }) (change_at-last others _ own)

  run-sends_waiting :
      (credentials : Text) (ms frames waiting : List Text) (state : TunnelState)
      → run credentials (sends ms) (with_socket others is_connecting frames waiting state)
        ≡ with_socket others is_connecting frames (waiting ++ ms) state
  unfolding run step
  run-sends_waiting credentials [] frames waiting state =
      ap (λ w. with_socket others is_connecting frames w state) (sym (append-nil waiting))
  run-sends_waiting credentials (m ∷ ms) frames waiting state =
      ap (run credentials (sends ms)) (send_waiting m frames waiting state)
      ∙ run-sends_waiting credentials ms frames (waiting ++ m ∷ []) state
      ∙ ap (λ w. with_socket others is_connecting frames w state) (append_assoc waiting (m ∷ []) ms)

  run-sends_open :
      (credentials : Text) (ms frames waiting : List Text) (state : TunnelState)
      → run credentials (sends ms) (with_socket others is_open frames waiting state)
        ≡ with_socket others is_open (frames ++ ms) waiting state
  unfolding run step
  run-sends_open credentials [] frames waiting state =
      ap (λ w. with_socket others is_open w waiting state) (sym (append-nil frames))
  run-sends_open credentials (m ∷ ms) frames waiting state =
      ap (run credentials (sends ms)) (send_open m frames waiting state)
      ∙ run-sends_open credentials ms (frames ++ m ∷ []) waiting state
      ∙ ap (λ w. with_socket others is_open w waiting state) (append_assoc frames (m ∷ []) ms)

  open_waiting :
      (credentials : Text) (waiting : List Text) (state : TunnelState)
      → run credentials
          (on_open (length others) ∷ [])
          (with_socket others is_connecting [] waiting state)
        ≡ with_socket others is_open (credentials ∷ waiting) [] state_open
  unfolding run step open_step open_if opened
  open_waiting credentials waiting state =
      let own : Socket = record { phase = is_connecting; frames = [] } in
      let t = with_socket others is_connecting [] waiting state in
      ap (open_if credentials (length others) t) (phase_at-last others own)
      ∙ ap (λ l. record t { sockets = l; pending = []; state = state_open })
          (change_at-last others _ own)

connect_last :
    (credentials : Text) (t : Tunnel)
    → run credentials (connect ∷ []) t
      ≡ with_socket t.sockets is_connecting [] t.pending state_connecting
unfolding run step connect_step
connect_last credentials t = refl

-- What the client sends before the socket opens is held, and not dropped: the socket carries the
-- credentials, then what waited, then that, then what is sent once it is open, each in its order.
pub run-in_order :
    (credentials : Text) (t : Tunnel) (before after : List Text)
    → run credentials (connect ∷ sends before ++ (on_open (length t.sockets) ∷ sends after)) t
      ≡ with_socket t.sockets is_open (credentials ∷ (t.pending ++ before) ++ after) [] state_open
run-in_order credentials t before after =
    let rest = on_open (length t.sockets) ∷ sends after in
    run-append credentials (connect ∷ []) (sends before ++ rest) t
    ∙ ap (run credentials (sends before ++ rest)) (connect_last credentials t)
    ∙ run-append credentials (sends before) rest
        (with_socket t.sockets is_connecting [] t.pending state_connecting)
    ∙ ap (run credentials rest)
        (run-sends_waiting t.sockets credentials before [] t.pending state_connecting)
    ∙ run-append credentials (on_open (length t.sockets) ∷ []) (sends after)
        (with_socket t.sockets is_connecting [] (t.pending ++ before) state_connecting)
    ∙ ap (run credentials (sends after))
        (open_waiting t.sockets credentials (t.pending ++ before) state_connecting)
    ∙ run-sends_open t.sockets credentials after (credentials ∷ (t.pending ++ before)) [] state_open
