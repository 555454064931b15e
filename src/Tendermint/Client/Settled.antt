-- ===== src/Tendermint/Client/Settled.antt =====
-- That every promise of `_call` (main-server/src/tendermint/ws_client.js) is in one place.
use ndidplatform_api.Base.{
  ℕ, suc, ◌+◌, ◌≡◌, inl, inr, Bool, true, false, ◌&&◌, List, [], ◌∷◌, ◌++◌, map, if◌then◌else◌,
  if_both, ◌==◌, nat_eq, leb, Bool-cases, includes, remove_first, arith,
}
use package.ndidplatform_api.Tendermint.Client.{
  Reply, Outcome, Socket, no_socket, connecting, open_socket, closed, WsClient, new, connect,
  on_open, closed_call, reject_all, on_close, on_message, on_sent, call, close, close_if_any, Event,
  connects, opens, closes, calls, closes_for_good, reconnects, message, sent, open_if_due,
  close_if_due, connect_if_none, step, run,
}

-- How often an id stands in a list of ids, and in the list of settled promises.
abbrev pub times : ℕ → List ℕ → ℕ
times id [] = 0
times id (x ∷ xs) = (if x == id then 1 else 0) + times id xs

abbrev pub times_settled : ℕ → List (ℕ × Outcome) → ℕ
times_settled id [] = 0
times_settled id ((x, o) ∷ xs) = (if x == id then 1 else 0) + times_settled id xs

times-append : (id : ℕ) (xs ys : List ℕ) → times id (xs ++ ys) ≡ times id xs + times id ys
times-append id [] ys = omega arith
times-append id (x ∷ xs) ys = omega (arith, times-append id xs ys)

times-remove_first :
    (a id : ℕ) (xs : List ℕ)
    → includes a xs ≡ true
    → times id (remove_first a xs) + (if a == id then 1 else 0) ≡ times id xs
unfolding includes remove_first
times-remove_first a id [] h = cc
times-remove_first a id (x ∷ xs) h = ground (arith, times-remove_first a id xs)

times_settled-closed :
    (id : ℕ) (xs : List ℕ) (done : List (ℕ × Outcome))
    → times_settled id (map closed_call xs ++ done) ≡ times id xs + times_settled id done
times_settled-closed id [] done = omega arith
times_settled-closed id (x ∷ xs) done = omega (arith, times_settled-closed id xs done)

-- In how many places a promise is.
unfoldable pub places : ℕ → WsClient → ℕ
places id c = times id c.sending + times id c.queue + times_settled id c.settled

-- Whether an id was given to a call.
unfoldable pub given : ℕ → WsClient → ℕ
given id c = if leb 1 id && leb id c.rpc_id then 1 else 0

unfoldable pub IsPlaced : ℕ → WsClient → Type 0
IsPlaced id c = places id c ≡ given id c

call-IsPlaced : (id : ℕ) (c : WsClient) → IsPlaced id c → IsPlaced id (call c)
unfolding IsPlaced places given call
call-IsPlaced id c h =
    if_both (IsPlaced id) c.connected _ c
      (ground (arith, times-append id c.sending (suc c.rpc_id ∷ []))) h

on_message-IsPlaced :
    (id : ℕ) (i : ℕ) (r : Reply) (c : WsClient) → IsPlaced id c → IsPlaced id (on_message i r c)
unfolding IsPlaced places given on_message
on_message-IsPlaced id i r c h = elim (Bool-cases (includes i c.queue)) [
  | inl t ↦ rw t (let e = times-remove_first i id c.queue t in ground arith)
  | inr f ↦ rw f h
]

on_sent-IsPlaced :
    (id : ℕ) (i : ℕ) (ok : Bool) (c : WsClient) → IsPlaced id c → IsPlaced id (on_sent i ok c)
unfolding IsPlaced places given on_sent
on_sent-IsPlaced id i ok c h = elim (Bool-cases (includes i c.sending)) [
  | inl t ↦ rw t (
      let e = times-remove_first i id c.sending t in
      ground (arith, times-append id c.queue (i ∷ [])))
  | inr f ↦ rw f h
]

reject_all-IsPlaced : (id : ℕ) (c : WsClient) → IsPlaced id c → IsPlaced id (reject_all c)
unfolding IsPlaced places given reject_all
reject_all-IsPlaced id c h =
    if_both (IsPlaced id) c.connected _ c
      (ground (arith, times_settled-closed id c.queue c.settled)) h

on_close-IsPlaced : (id : ℕ) (c : WsClient) → IsPlaced id c → IsPlaced id (on_close c)
unfolding IsPlaced places given on_close
on_close-IsPlaced id c h = reject_all-IsPlaced id c h

connects-IsPlaced :
    (id : ℕ) (s : Socket) (c : WsClient) → IsPlaced id c → IsPlaced id (connect_if_none s c)
unfolding IsPlaced places given connect_if_none connect
connects-IsPlaced id no_socket c h = h
connects-IsPlaced id connecting c h = h
connects-IsPlaced id open_socket c h = h
connects-IsPlaced id closed c h = h

opens-IsPlaced :
    (id : ℕ) (s : Socket) (c : WsClient) → IsPlaced id c → IsPlaced id (open_if_due s c)
unfolding IsPlaced places given open_if_due on_open
opens-IsPlaced id no_socket c h = h
opens-IsPlaced id connecting c h = h
opens-IsPlaced id open_socket c h = h
opens-IsPlaced id closed c h = h

closes-IsPlaced :
    (id : ℕ) (s : Socket) (c : WsClient) → IsPlaced id c → IsPlaced id (close_if_due s c)
unfolding close_if_due
closes-IsPlaced id no_socket c h = h
closes-IsPlaced id connecting c h = on_close-IsPlaced id c h
closes-IsPlaced id open_socket c h = on_close-IsPlaced id c h
closes-IsPlaced id closed c h = h

close-IsPlaced :
    (id : ℕ) (s : Socket) (c : WsClient) → IsPlaced id c → IsPlaced id (close_if_any s c)
unfolding IsPlaced places given close_if_any close
close-IsPlaced id no_socket c h = h
close-IsPlaced id connecting c h = h
close-IsPlaced id open_socket c h = h
close-IsPlaced id closed c h = h

reconnects-IsPlaced :
    (id : ℕ) (c : WsClient)
    → IsPlaced id c
    → IsPlaced id (connect (record c { reconnect_timeout = false }))
unfolding IsPlaced places given connect
reconnects-IsPlaced id c h = h

step-IsPlaced : (id : ℕ) (e : Event) (c : WsClient) → IsPlaced id c → IsPlaced id (step e c)
unfolding step
step-IsPlaced id connects c h = connects-IsPlaced id c.socket c h
step-IsPlaced id opens c h = opens-IsPlaced id c.socket c h
step-IsPlaced id closes c h = closes-IsPlaced id c.socket c h
step-IsPlaced id calls c h = call-IsPlaced id c h
step-IsPlaced id closes_for_good c h = close-IsPlaced id c.socket c h
step-IsPlaced id reconnects c h =
    if_both (IsPlaced id) c.reconnect_timeout _ c (reconnects-IsPlaced id c h) h
step-IsPlaced id (message i r) c h =
    if_both (IsPlaced id) c.connected _ c (on_message-IsPlaced id i r c h) h
step-IsPlaced id (sent i ok) c h = on_sent-IsPlaced id i ok c h

after-IsPlaced : (id : ℕ) (es : List Event) (c : WsClient) → IsPlaced id c → IsPlaced id (run es c)
unfolding run
after-IsPlaced id [] c h = h
after-IsPlaced id (e ∷ es) c h = after-IsPlaced id es (step e c) (step-IsPlaced id e c h)

new-IsPlaced : (id : ℕ) → IsPlaced id new
unfolding IsPlaced places given new
new-IsPlaced id = ground arith

-- However a client connects, loses its connection, reconnects, calls, sends and is answered: the
-- promise of each call that it took is in exactly one place, being sent, waiting for its answer or
-- settled, so that it is settled at most once and not forgotten; and no other id is in any.
pub run-new-IsPlaced : (id : ℕ) (es : List Event) → IsPlaced id (run es new)
run-new-IsPlaced id es = after-IsPlaced id es new (new-IsPlaced id)
