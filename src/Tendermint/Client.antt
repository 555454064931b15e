-- ===== src/Tendermint/Client.antt =====
-- `TendermintWsClient` of main-server/src/tendermint/ws_client.js: a WebSocket connection that
-- reconnects by itself, with the calls that wait for their answers.
-- The WebSocket library tells the client of events; an event that is not due, such as an `open` of
-- a socket that is not connecting, changes nothing. Backoff times, the subscriptions and the messages
-- that belong to no call are left out. A promise is known by its rpc id.
pub mod Settled
mod Tests
use ndidplatform_api.Base.{
  ℕ, zero, suc, ◌+◌, Bool, true, false, ◌&&◌, not, Option, none, some, List, [], ◌∷◌, ◌++◌, map,
  if◌then◌else◌, ◌==◌, nat_eq, includes, remove_first,
}

pub data Reply : Type 0 where
  result mempool_full other_error : Reply

-- What became of a call's promise.
pub data Outcome : Type 0 where
  resolved tendermint_mempool_full json_rpc_error connection_closed send_error : Outcome

pub data Socket : Type 0 where
  no_socket connecting open_socket closed : Socket

pub record WsClient : Type 0 where
  pub socket : Socket
  pub connected : Bool
  pub reconnect : Bool
  pub reconnect_timeout : Bool
  pub ping_timeout : Bool
  pub rpc_id : ℕ
  -- Sent, and the callback of `send` is still to come.
  pub sending : List ℕ
  -- The keys of `this.queue`.
  pub queue : List ℕ
  -- The promises that are settled, with what they came to.
  pub settled : List (ℕ × Outcome)

unfoldable pub new : WsClient
new = record {
  socket = no_socket;
  connected = false;
  reconnect = true;
  reconnect_timeout = false;
  ping_timeout = false;
  rpc_id = 0;
  sending = [];
  queue = [];
  settled = [];
}

unfoldable pub connect : WsClient → WsClient
connect c = record c { socket = connecting }

unfoldable pub on_open : WsClient → WsClient
on_open c = record c {
  socket = open_socket;
  reconnect_timeout = false;
  connected = true;
  ping_timeout = true;
}

abbrev pub closed_call : ℕ → ℕ × Outcome
closed_call id = (id, connection_closed)

-- `Reject all _call promises`, which is done only if the connection was open.
unfoldable pub reject_all : WsClient → WsClient
reject_all c =
    if c.connected
    then record c { queue = []; settled = map closed_call c.queue ++ c.settled }
    else c

unfoldable pub on_close : WsClient → WsClient
on_close c =
    let d = reject_all c in
    record d {
      socket = closed;
      connected = false;
      ping_timeout = false;
      reconnect_timeout = if d.reconnect then true else d.reconnect_timeout;
    }

unfoldable pub outcome_of : Reply → Outcome
outcome_of result = resolved
outcome_of mempool_full = tendermint_mempool_full
outcome_of other_error = json_rpc_error

unfoldable pub on_message : ℕ → Reply → WsClient → WsClient
on_message id reply c =
    if includes id c.queue
    then record c { queue = remove_first id c.queue; settled = (id, outcome_of reply) ∷ c.settled }
    else c

-- The callback of `send`.
unfoldable pub on_sent : ℕ → Bool → WsClient → WsClient
on_sent id is_ok c =
    if includes id c.sending
    then record c {
      sending = remove_first id c.sending;
      queue = if is_ok then c.queue ++ id ∷ [] else c.queue;
      settled = if is_ok then c.settled else (id, send_error) ∷ c.settled;
    }
    else c

-- `_call`; a call on a client that is not connected is rejected at once and gets no id.
unfoldable pub call : WsClient → WsClient
call c =
    if c.connected
    then record c { rpc_id = suc c.rpc_id; sending = c.sending ++ suc c.rpc_id ∷ [] }
    else c

unfoldable pub close : WsClient → WsClient
close c = record c { reconnect = false; reconnect_timeout = false }

unfoldable pub close_if_any : Socket → WsClient → WsClient
close_if_any no_socket c = c
close_if_any s c = close c

pub data Event : Type 0 where
  connects opens closes calls closes_for_good reconnects : Event
  message : ℕ → Reply → Event
  sent : ℕ → Bool → Event

unfoldable pub open_if_due : Socket → WsClient → WsClient
open_if_due connecting c = on_open c
open_if_due s c = c

unfoldable pub close_if_due : Socket → WsClient → WsClient
close_if_due no_socket c = c
close_if_due closed c = c
close_if_due s c = on_close c

unfoldable pub connect_if_none : Socket → WsClient → WsClient
connect_if_none no_socket c = connect c
connect_if_none s c = c

unfoldable pub step : Event → WsClient → WsClient
step connects c = connect_if_none c.socket c
step opens c = open_if_due c.socket c
step closes c = close_if_due c.socket c
step calls c = call c
step closes_for_good c = close_if_any c.socket c
step reconnects c =
    if c.reconnect_timeout then connect (record c { reconnect_timeout = false }) else c
step (message id reply) c = if c.connected then on_message id reply c else c
step (sent id is_ok) c = on_sent id is_ok c

unfoldable pub run : List Event → WsClient → WsClient
run [] c = c
run (e ∷ es) c = run es (step e c)
