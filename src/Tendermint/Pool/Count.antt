-- ===== src/Tendermint/Pool/Count.antt =====
-- What the pool's count says: `connectedWsCount` of main-server/src/tendermint/ws_pool.js.
use ndidplatform_api.Base.{
  ℕ, zero, suc, ◌+◌, ◌≡◌, refl, sym, subst, inl, inr, true, Option, none, some, List, [], ◌∷◌,
  if_both, ◌==◌, nat_eq, ltb, Bool-cases, All, length, ◌%◌, arith,
}
use ndidplatform_api.Base.Checked.{Checked}
use package.ndidplatform_api.Tendermint.Client.{
  Reply, Socket, no_socket, connecting, open_socket, closed, WsClient, reject_all, on_open,
  on_close, on_message, on_sent, call, close, close_if_any, connect, Event, connects, opens, closes,
  calls, closes_for_good, reconnects, message, sent, open_if_due, close_if_due, connect_if_none,
}
use package.ndidplatform_api.Tendermint.Client
use package.ndidplatform_api.Tendermint.Pool.{
  Pool, Failure, clients, initialize, Emission, connected, disconnected, nothing, emitted,
  count_emission, step_at, emitted_at, on_client, wait_for_available_connection, take_client,
  client_from, get_connection, PoolEvent, at_client, waits, takes, step, run,
}
use package.ndidplatform_api.Tendermint.Pool.Clients.{IsInStep, one_if, Told, step-Follows}

abbrev pub count_connected : List WsClient → ℕ
count_connected [] = 0
count_connected (c ∷ cs) = one_if c.connected + count_connected cs

-- The count is right, every client is in step, and a promise for a connection is open only while
-- there is none.
unfoldable pub IsCounted : Pool → Type 0
IsCounted p =
    All IsInStep p.ws_clients
    × (p.connected_ws_count ≡ count_connected p.ws_clients)
    × (p.is_awaited ≡ true → p.connected_ws_count ≡ 0)

abbrev Moved : Emission → ℕ → ℕ → Type 0
Moved connected before after = after ≡ suc before
Moved disconnected before after = suc after ≡ before
Moved nothing before after = after ≡ before

Told-Moved : (m : Emission) (a b n : ℕ) → Told m a b → Moved m (a + n) (b + n)
Told-Moved connected a b n h = omega arith
Told-Moved disconnected a b n h = omega arith
Told-Moved nothing a b n h = omega arith

behind-Moved : (m : Emission) (k a b : ℕ) → Moved m a b → Moved m (k + a) (k + b)
behind-Moved connected k a b h = omega arith
behind-Moved disconnected k a b h = omega arith
behind-Moved nothing k a b h = omega arith

step_at-Moved :
    (i : ℕ) (e : Event) (cs : List WsClient)
    → All IsInStep cs
    → All IsInStep (step_at i e cs)
      × Moved (emitted_at i e cs) (count_connected cs) (count_connected (step_at i e cs))
unfolding step_at emitted_at
step_at-Moved i e [] h = (tt, refl)
step_at-Moved zero e (c ∷ cs) h =
    let f = step-Follows e c h.0 in
    ((f.0, h.1), Told-Moved (emitted e c) _ _ (count_connected cs) f.1)
step_at-Moved (suc i) e (c ∷ cs) h =
    let r = step_at-Moved i e cs h.1 in
    ((h.0, r.0), behind-Moved (emitted_at i e cs) (one_if c.connected) _ _ r.1)

emission-IsCounted :
    (m : Emission) (p : Pool)
    → All IsInStep p.ws_clients
    → Moved m p.connected_ws_count (count_connected p.ws_clients)
    → (p.is_awaited ≡ true → p.connected_ws_count ≡ 0)
    → IsCounted (count_emission m p)
unfolding IsCounted count_emission
emission-IsCounted connected p s h w = (s, sym h, λ k. ground arith)
emission-IsCounted disconnected p s h w = (s, omega arith, λ k. let z = w k in omega arith)
emission-IsCounted nothing p s h w = (s, sym h, w)

on_client-IsCounted : (i : ℕ) (e : Event) (p : Pool) → IsCounted p → IsCounted (on_client i e p)
unfolding IsCounted on_client
on_client-IsCounted i e p h =
    let r = step_at-Moved i e p.ws_clients h.0 in
    emission-IsCounted (emitted_at i e p.ws_clients)
      (record p { ws_clients = step_at i e p.ws_clients }) r.0
      (subst
        (λ n. Moved (emitted_at i e p.ws_clients) n (count_connected (step_at i e p.ws_clients)))
        (sym h.1) r.1)
      h.2

waits-IsCounted : (p : Pool) → IsCounted p → IsCounted (wait_for_available_connection p)
unfolding IsCounted wait_for_available_connection
waits-IsCounted p h = elim (Bool-cases (ltb 0 p.connected_ws_count)) [
  | inl t ↦ rw t h
  | inr f ↦ rw f (h.0, h.1, λ k. ground arith)
]

-- To take a connection moves the index only.
taken-IsCounted : (o : Option ℕ) (p : Pool) → IsCounted p → IsCounted (take_client o p).0
unfolding IsCounted take_client
taken-IsCounted none p h = h
taken-IsCounted (some i) p h = h

takes-IsCounted : (p : Pool) → IsCounted p → IsCounted (get_connection p).0
unfolding IsCounted get_connection client_from
takes-IsCounted p h =
    if_both (λ (r : Pool × Checked Failure ℕ). IsCounted r.0) (length p.ws_clients == 0) _ _ h
      (taken-IsCounted _ (record p { ws_client_index = p.ws_client_index % length p.ws_clients }) h)

step-IsCounted : (e : PoolEvent) (p : Pool) → IsCounted p → IsCounted (step e p)
unfolding step
step-IsCounted (at_client i e) p h = on_client-IsCounted i e p h
step-IsCounted waits p h = waits-IsCounted p h
step-IsCounted takes p h = takes-IsCounted p h

after-IsCounted : (es : List PoolEvent) (p : Pool) → IsCounted p → IsCounted (run es p)
unfolding run
after-IsCounted [] p h = h
after-IsCounted (e ∷ es) p h = after-IsCounted es (step e p) (step-IsCounted e p h)

clients-IsInStep : (n : ℕ) → All IsInStep (clients n) × (count_connected (clients n) ≡ 0)
unfolding clients IsInStep ndidplatform_api.Tendermint.Client.new
clients-IsInStep zero = (tt, refl)
clients-IsInStep (suc n) =
    (((refl, refl), (clients-IsInStep n).0), ground (arith, (clients-IsInStep n).1))

-- Whatever the clients' connections do and whoever asks for a connection: `connectedWsCount` is the
-- number of connected clients, each client says that it is connected exactly while its socket is
-- open, and waits to reconnect only while its socket is closed; and a promise for an available
-- connection is open only while no client is connected.
pub run-IsCounted : (n : ℕ) (es : List PoolEvent) → IsCounted (run es (initialize n))
unfolding IsCounted initialize
run-IsCounted n es =
    after-IsCounted es (initialize n)
      ((clients-IsInStep n).0, sym (clients-IsInStep n).1, λ k. absurd (cc))
