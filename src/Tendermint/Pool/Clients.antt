-- ===== src/Tendermint/Pool/Clients.antt =====
-- What a client (main-server/src/tendermint/ws_client.js) tells the pool of its connection.
use ndidplatform_api.Base.{
  ℕ, ◌≡◌, ◌⊎◌, includes, refl, sym, subst, ap, ◌∙◌, inl, inr, Bool, true, false, ◌&&◌, not,
  if◌then◌else◌, if_both, nat_eq, Bool-cases, arith,
}
use package.ndidplatform_api.Tendermint.Client.{
  Reply, Socket, no_socket, connecting, open_socket, closed, WsClient, reject_all, on_open,
  on_close, on_message, on_sent, call, close, close_if_any, connect, Event, connects, opens, closes,
  calls, closes_for_good, reconnects, message, sent, open_if_due, close_if_due, connect_if_none,
}
use package.ndidplatform_api.Tendermint.Client
use package.ndidplatform_api.Tendermint.Pool.{
  Emission, connected, disconnected, nothing, on_opens, on_closes, emitted,
}

abbrev pub is_open : Socket → Bool
is_open open_socket = true
is_open no_socket = false
is_open connecting = false
is_open closed = false

abbrev pub is_closed : Socket → Bool
is_closed closed = true
is_closed no_socket = false
is_closed connecting = false
is_closed open_socket = false

-- A client says that it is connected exactly while its socket is open, and waits to reconnect only
-- while its socket is closed.
unfoldable pub IsInStep : WsClient → Type 0
IsInStep c =
    (c.connected ≡ is_open c.socket) × ((c.reconnect_timeout && not (is_closed c.socket)) ≡ false)

abbrev pub one_if : Bool → ℕ
one_if true = 1
one_if false = 0

-- What a client emits tells how its connection changed.
abbrev pub Told : Emission → ℕ → ℕ → Type 0
Told connected before after = (before ≡ 0) × (after ≡ 1)
Told disconnected before after = (before ≡ 1) × (after ≡ 0)
Told nothing before after = before ≡ after

abbrev pub Follows : Event → WsClient → Type 0
Follows e c =
    IsInStep (Client.step e c)
    × Told (emitted e c) (one_if c.connected) (one_if (Client.step e c).connected)

connects-Follows :
    (s : Socket) (c : WsClient)
    → c.socket ≡ s
    → IsInStep c
    → IsInStep (connect_if_none s c) × (one_if c.connected ≡ one_if (connect_if_none s c).connected)
unfolding IsInStep connect_if_none connect
connects-Follows no_socket c q h = ((h.0 ∙ ap is_open q, timer q h.1), refl)
  where
    timer :
        c.socket ≡ no_socket
        → (c.reconnect_timeout && not (is_closed c.socket)) ≡ false
        → (c.reconnect_timeout && true) ≡ false
    timer q h = rw (ap is_closed q) at h
connects-Follows connecting c q h = (h, refl)
connects-Follows open_socket c q h = (h, refl)
connects-Follows closed c q h = (h, refl)

opens-Follows :
    (s : Socket) (c : WsClient)
    → c.socket ≡ s
    → IsInStep c
    → IsInStep (open_if_due s c)
      × Told (on_opens s) (one_if c.connected) (one_if (open_if_due s c).connected)
unfolding IsInStep open_if_due on_open on_opens
opens-Follows no_socket c q h = (h, refl)
opens-Follows connecting c q h = ((refl, refl), (ap one_if (h.0 ∙ ap is_open q), refl))
opens-Follows open_socket c q h = (h, refl)
opens-Follows closed c q h = (h, refl)

timer_off : (b : Bool) → (b && false) ≡ false
timer_off b = ground arith

closes-Follows :
    (s : Socket) (c : WsClient)
    → c.socket ≡ s
    → IsInStep c
    → IsInStep (close_if_due s c)
      × Told (on_closes s c.connected) (one_if c.connected) (one_if (close_if_due s c).connected)
unfolding IsInStep close_if_due on_close on_closes
closes-Follows no_socket c q h = (h, refl)
closes-Follows connecting c q h = (
  (refl, timer_off _),
  subst (λ b. Told (on_closes connecting b) (one_if b) 0) (sym (h.0 ∙ ap is_open q)) refl,
)
closes-Follows open_socket c q h = (
  (refl, timer_off _),
  subst (λ b. Told (on_closes open_socket b) (one_if b) 0) (sym (h.0 ∙ ap is_open q)) (refl, refl),
)
closes-Follows closed c q h = (h, refl)

-- A step that touches neither the socket nor the flag, and starts no timer.
abbrev Stays : WsClient → WsClient → Type 0
Stays c d =
    (d.socket ≡ c.socket)
    × (d.connected ≡ c.connected)
    × ((d.reconnect_timeout ≡ c.reconnect_timeout) ⊎ (d.reconnect_timeout ≡ false))

Stays-Follows :
    (c d : WsClient)
    → IsInStep c
    → Stays c d
    → IsInStep d × (one_if c.connected ≡ one_if d.connected)
unfolding IsInStep
Stays-Follows c d h k = ((k.1 ∙ h.0 ∙ ap is_open (sym k.0), timer k.2), ap one_if (sym k.1))
  where
    timer :
        (d.reconnect_timeout ≡ c.reconnect_timeout) ⊎ (d.reconnect_timeout ≡ false)
        → (d.reconnect_timeout && not (is_closed d.socket)) ≡ false
    timer (inl e) = rw (e, ap is_closed k.0) h.1
    timer (inr f) = rw f refl

close-Stays : (s : Socket) (c : WsClient) → Stays c (close_if_any s c)
unfolding close_if_any close
close-Stays no_socket c = (refl, refl, inl refl)
close-Stays connecting c = (refl, refl, inr refl)
close-Stays open_socket c = (refl, refl, inr refl)
close-Stays closed c = (refl, refl, inr refl)

message-Stays :
    (id : ℕ) (r : Reply) (c : WsClient) → Stays c (if c.connected then on_message id r c else c)
unfolding on_message
message-Stays id r c =
    if_both (Stays c) c.connected _ c
      (if_both (Stays c) (includes id c.queue) _ c (refl, refl, inl refl) (refl, refl, inl refl))
      (refl, refl, inl refl)

sent-Stays : (id : ℕ) (ok : Bool) (c : WsClient) → Stays c (on_sent id ok c)
unfolding on_sent
sent-Stays id ok c =
    if_both (Stays c) (includes id c.sending) _ c (refl, refl, inl refl) (refl, refl, inl refl)

call-Stays : (c : WsClient) → Stays c (call c)
unfolding call
call-Stays c = if_both (Stays c) c.connected _ c (refl, refl, inl refl) (refl, refl, inl refl)

-- The timer is only set while the socket is closed.
reconnects-Follows :
    (c : WsClient)
    → IsInStep c
    → let d = if c.reconnect_timeout then connect (record c { reconnect_timeout = false }) else c in
      IsInStep d × (one_if c.connected ≡ one_if d.connected)
unfolding IsInStep connect
reconnects-Follows c h = elim (Bool-cases c.reconnect_timeout) [
  | inl t ↦ simp t ((down c.socket (rw t at h.1) h.0, refl), refl)
  | inr f ↦ simp f ((h.0, refl), refl)
]
  where
    down :
        (s : Socket)
        → (true && not (is_closed s)) ≡ false
        → c.connected ≡ is_open s
        → c.connected ≡ false
    down no_socket k e = e
    down connecting k e = e
    down open_socket k e = cc
    down closed k e = e

pub step-Follows : (e : Event) (c : WsClient) → IsInStep c → Follows e c
unfolding emitted ndidplatform_api.Tendermint.Client.step
step-Follows connects c h = connects-Follows c.socket c refl h
step-Follows opens c h = opens-Follows c.socket c refl h
step-Follows closes c h = closes-Follows c.socket c refl h
step-Follows calls c h = Stays-Follows c (call c) h (call-Stays c)
step-Follows closes_for_good c h =
    Stays-Follows c (close_if_any c.socket c) h (close-Stays c.socket c)
step-Follows reconnects c h = reconnects-Follows c h
step-Follows (message id r) c h =
    Stays-Follows c (if c.connected then on_message id r c else c) h (message-Stays id r c)
step-Follows (sent id ok) c h = Stays-Follows c (on_sent id ok c) h (sent-Stays id ok c)
