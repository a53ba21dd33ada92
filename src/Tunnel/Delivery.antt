-- ===== src/Tunnel/Delivery.antt =====
-- The tunnel and its wire format together: what the far side reads out of the frames.
use vantric.Prelude.{
  ℕ, zero, suc, length, ◌≡◌, refl, ap, sym, ◌∙◌, Option, some, List, [], ◌∷◌, ◌++◌, map, map-append,
}
use vantric.Prelude.Text.{Text}
use vantric.Tunnel.{Socket, Tunnel, connect, on_open, run}
use vantric.Tunnel.Order.{sends, run-in_order}
use vantric.Tunnel.Wire.{encode}
use vantric.Tunnel.Wire.Decode.{decode, decode-encode}

-- A message has an opcode and its arguments.
abbrev pub Message : Type 0
Message = Text × List Text

abbrev pub encode_message : Message → Text
encode_message (opcode, arguments) = encode (opcode ∷ arguments)

-- The frames of the socket of a place
unfoldable pub frames_at : ℕ → List Socket → List Text
frames_at i [] = []
frames_at zero (s ∷ sockets) = s.frames
frames_at (suc i) (s ∷ sockets) = frames_at i sockets

frames_at-last :
    (others : List Socket) (s : Socket) → frames_at (length others) (others ++ s ∷ []) ≡ s.frames
unfolding frames_at
frames_at-last [] s = refl
frames_at-last (o ∷ others) s = frames_at-last others s

abbrev without_first : List Text → List Text
without_first [] = []
without_first (credentials ∷ frames) = frames

-- What the far side of a socket reads behind the credentials, in order
abbrev pub received : List Text → List (Option (List Text))
received frames = map decode (without_first frames)

decode-messages :
    (messages : List Message)
    → map decode (map encode_message messages) ≡ map (λ m. some (m.0 ∷ m.1)) messages
decode-messages [] = refl
decode-messages ((opcode, arguments) ∷ messages) =
    rw (decode-encode opcode arguments)
      (ap (λ l. some (opcode ∷ arguments) ∷ l) (decode-messages messages))

-- A tunnel connects that holds no message back, as a new one and one that was disconnected; the new socket
-- opens, and nothing else happens to it: its far side reads, behind the credentials, every message that
-- was sent since, before the socket opened and after, whole and in order.
pub run-messages_arrive :
    (credentials : Text) (t : Tunnel) (before after : List Message)
    → t.pending ≡ []
    → received (
        frames_at
          (length t.sockets)
          (run credentials
            (connect ∷ sends (map encode_message before)
              ++ (on_open (length t.sockets) ∷ sends (map encode_message after)))
            t).sockets)
      ≡ map (λ m. some (m.0 ∷ m.1)) (before ++ after)
run-messages_arrive credentials t before after empty =
    let early = map encode_message before in
    let late = map encode_message after in
    ap (λ u. received (frames_at (length t.sockets) u.sockets))
      (run-in_order credentials t early late)
    ∙ ap received (frames_at-last t.sockets _)
    ∙ ap (λ w. map decode ((w ++ early) ++ late)) empty
    ∙ ap (map decode) (sym (map-append encode_message before after))
    ∙ decode-messages (before ++ after)
