-- ===== src/Tunnel/FirstFrame.antt =====
-- What the sockets of a tunnel carry.
use vantric.Prelude.{
  ℕ, zero, suc, Option, none, some, List, [], ◌∷◌, ◌++◌, ◌≡◌, refl, ◌⊎◌, inl, inr, All, All-append,
  sym, subst,
}
use vantric.Prelude.Text.{Text}
use vantric.Tunnel.{
  Phase, is_connecting, is_open, is_closed, Socket, Tunnel, Event, connect, disconnect,
  send_message, on_open, on_close, on_error, phase_at, change_at, connect_step, close_own,
  send_from, open_if, open_step, opened, send_if, close_step, disconnect_step, send_step, step, run,
  new_tunnel,
}

-- A socket that has not opened has sent nothing, and one that is open has sent the credentials first.
-- One that is closed may have closed before it opened.
abbrev pub Guarded : Text → Phase → List Text → Type 0
Guarded credentials is_connecting frames = frames ≡ []
Guarded credentials is_open frames = (rest : List Text) × (frames ≡ credentials ∷ rest)
Guarded credentials is_closed frames =
    (frames ≡ []) ⊎ ((rest : List Text) × (frames ≡ credentials ∷ rest))

abbrev pub IsGuarded : Text → Socket → Type 0
IsGuarded credentials s = Guarded credentials s.phase s.frames

change_at-All :
    (P : Socket → Type 0) (i : ℕ) (p : Phase) (f : Socket → Socket) (sockets : List Socket)
    → phase_at i sockets ≡ some p
    → ((s : Socket) → s.phase ≡ p → P s → P (f s))
    → All P sockets
    → All P (change_at i f sockets)
unfolding phase_at change_at
change_at-All P i p f [] h step all = all
change_at-All P zero p f (s ∷ sockets) h step (ps, all) = (step s (cc) ps, all)
change_at-All P (suc i) p f (s ∷ sockets) h step (ps, all) =
    (ps, change_at-All P i p f sockets h step all)

change_at-every :
    (P : Socket → Type 0) (i : ℕ) (f : Socket → Socket) (sockets : List Socket)
    → ((s : Socket) → P s → P (f s))
    → All P sockets
    → All P (change_at i f sockets)
unfolding change_at
change_at-every P i f [] step all = all
change_at-every P zero f (s ∷ sockets) step (ps, all) = (step s ps, all)
change_at-every P (suc i) f (s ∷ sockets) step (ps, all) =
    (ps, change_at-every P i f sockets step all)

closed-Guarded :
    (credentials : Text) (p : Phase) (frames : List Text)
    → Guarded credentials p frames
    → Guarded credentials is_closed frames
closed-Guarded credentials is_connecting frames h = inl h
closed-Guarded credentials is_open frames h = inr h
closed-Guarded credentials is_closed frames h = h

opened-Guarded :
    (credentials : Text) (frames pending : List Text)
    → Guarded credentials is_connecting frames
    → Guarded credentials is_open (frames ++ credentials ∷ pending)
opened-Guarded credentials frames pending h = (pending, rw h refl)

sent-Guarded :
    (credentials : Text) (frames more : List Text)
    → Guarded credentials is_open frames
    → Guarded credentials is_open (frames ++ more)
sent-Guarded credentials frames more (rest, h) = (rest ++ more, rw h refl)

abbrev pub AllGuarded : Text → Tunnel → Type 0
AllGuarded credentials t = All (IsGuarded credentials) t.sockets

open_if-AllGuarded :
    (credentials : Text) (i : ℕ) (t : Tunnel) (o : Option Phase)
    → phase_at i t.sockets ≡ o
    → AllGuarded credentials t
    → AllGuarded credentials (open_if credentials i t o)
unfolding open_if opened
open_if-AllGuarded credentials i t (some is_connecting) e h =
    change_at-All (IsGuarded credentials) i is_connecting _ t.sockets e
      (λ s p g.
        opened-Guarded credentials s.frames t.pending
          (subst (λ q. Guarded credentials q s.frames) p g))
      h
open_if-AllGuarded credentials i t o e h = h

send_if-AllGuarded :
    (credentials message : Text) (i : ℕ) (t : Tunnel) (o : Option Phase)
    → phase_at i t.sockets ≡ o
    → AllGuarded credentials t
    → AllGuarded credentials (send_if message i t o)
unfolding send_if
send_if-AllGuarded credentials message i t (some is_open) e h =
    change_at-All (IsGuarded credentials) i is_open _ t.sockets e
      (λ s p g.
        subst (λ q. Guarded credentials q (s.frames ++ message ∷ [])) (sym p)
          (sent-Guarded credentials s.frames (message ∷ [])
            (subst (λ q. Guarded credentials q s.frames) p g)))
      h
send_if-AllGuarded credentials message i t o e h = h

close_any-Guarded :
    (credentials : Text) (i : ℕ) (sockets : List Socket)
    → All (IsGuarded credentials) sockets
    → All (IsGuarded credentials) (change_at i (λ s. record s { phase = is_closed }) sockets)
close_any-Guarded credentials i sockets h =
    change_at-every (IsGuarded credentials) i (λ s. record s { phase = is_closed }) sockets
      (λ s. closed-Guarded credentials s.phase s.frames) h

close_own-Guarded :
    (credentials : Text) (o : Option ℕ) (sockets : List Socket)
    → All (IsGuarded credentials) sockets
    → All (IsGuarded credentials) (close_own o sockets)
unfolding close_own
close_own-Guarded credentials none sockets h = h
close_own-Guarded credentials (some i) sockets h = close_any-Guarded credentials i sockets h

send_from-AllGuarded :
    (credentials message : Text) (t : Tunnel) (o : Option ℕ)
    → AllGuarded credentials t
    → AllGuarded credentials (send_from message t o)
unfolding send_from
send_from-AllGuarded credentials message t none h = h
send_from-AllGuarded credentials message t (some i) h =
    send_if-AllGuarded credentials message i t _ refl h

step-AllGuarded :
    (credentials : Text) (e : Event) (t : Tunnel)
    → AllGuarded credentials t
    → AllGuarded credentials (step credentials e t)
unfolding step connect_step open_step close_step disconnect_step send_step
step-AllGuarded credentials connect t h =
    All-append (IsGuarded credentials) t.sockets _ h (refl, tt)
step-AllGuarded credentials disconnect t h = close_own-Guarded credentials t.socket t.sockets h
step-AllGuarded credentials (send_message message) t h =
    send_from-AllGuarded credentials message t t.socket h
step-AllGuarded credentials (on_open i) t h = open_if-AllGuarded credentials i t _ refl h
step-AllGuarded credentials (on_close i) t h = close_any-Guarded credentials i t.sockets h
step-AllGuarded credentials (on_error i) t h = close_any-Guarded credentials i t.sockets h

run-AllGuarded_from :
    (credentials : Text) (events : List Event) (t : Tunnel)
    → AllGuarded credentials t
    → AllGuarded credentials (run credentials events t)
unfolding run
run-AllGuarded_from credentials [] t h = h
run-AllGuarded_from credentials (e ∷ events) t h =
    run-AllGuarded_from credentials events (step credentials e t)
      (step-AllGuarded credentials e t h)

-- Whatever the client calls and the sockets report, a socket that has not opened has sent nothing, and
-- the first frame of every other that has sent anything is the credentials.
pub run-AllGuarded :
    (credentials : Text) (events : List Event)
    → AllGuarded credentials (run credentials events new_tunnel)
run-AllGuarded credentials events = run-AllGuarded_from credentials events new_tunnel tt
