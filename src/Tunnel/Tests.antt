-- ===== src/Tunnel/Tests.antt =====
-- Concrete runs of a tunnel.
use vantric.Prelude.{List, [], ◌∷◌, ◌++◌, ◌≡◌, some, map, length, refl}
use vantric.Prelude.Text.{text}
use vantric.Tunnel.{
  Tunnel, step, disconnect_step, Event, connect, disconnect, send_message, on_open, on_close, run,
  new_tunnel,
}
use vantric.Tunnel.FirstFrame.{AllGuarded, run-AllGuarded}
use vantric.Tunnel.Wire.{encode}
use vantric.Tunnel.Wire.Decode.{decode, decode-encode}
use vantric.Tunnel.Delivery.{Message, encode_message, frames_at, received, run-messages_arrive}
use vantric.Tunnel.Order.{sends}

abbrev reconnects : List Event
reconnects =
    connect
    ∷ send_message (text "a")
    ∷ on_open 0
    ∷ disconnect
    ∷ connect
    ∷ on_close 0
    ∷ on_open 1
    ∷ []

run-AllGuarded_example : AllGuarded (text "key") (run (text "key") reconnects new_tunnel)
run-AllGuarded_example = run-AllGuarded (text "key") reconnects

decode-encode_example :
    decode (encode (text "size" ∷ text "a,1.b;" ∷ (0xd83d ∷ 0xde00 ∷ []) ∷ []))
    ≡ some (text "size" ∷ text "a,1.b;" ∷ (0xd83d ∷ 0xde00 ∷ []) ∷ [])
decode-encode_example = decode-encode (text "size") (text "a,1.b;" ∷ (0xd83d ∷ 0xde00 ∷ []) ∷ [])

abbrev moved_mouse : Message
moved_mouse = (text "mouse", text "10" ∷ text "20" ∷ [])

abbrev resized : Message
resized = (text "size", text "1024" ∷ text "768" ∷ [])

-- The second session of a tunnel
abbrev second : Tunnel
second = run (text "key") (connect ∷ on_open 0 ∷ disconnect ∷ []) new_tunnel

nothing_held : second.pending ≡ []
unfolding run step disconnect_step
nothing_held = refl

run-messages_arrive_example :
    received (
      frames_at
        (length second.sockets)
        (run
          (text "key")
          (connect ∷ sends (map encode_message (resized ∷ []))
            ++ (on_open (length second.sockets) ∷ sends (map encode_message (moved_mouse ∷ []))))
          second).sockets)
    ≡ map (λ m. some (m.0 ∷ m.1)) (resized ∷ moved_mouse ∷ [])
run-messages_arrive_example =
    run-messages_arrive (text "key") second (resized ∷ []) (moved_mouse ∷ []) nothing_held
