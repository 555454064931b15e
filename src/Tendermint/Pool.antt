-- ===== src/Tendermint/Pool.antt =====
-- The pool of connections of main-server/src/tendermint/ws_pool.js. An event of a client is one of
-- Tendermint.Client; the pool hears of it when the client emits `connected` or `disconnected`. The
-- count of connected clients is a natural number: Pool.Count proves that it is never taken below zero.
pub mod Clients
pub mod Count
pub mod RoundRobin
pub mod Available
mod Tests
use ndidplatform_api.Base.{
  ℕ, zero, suc, ◌+◌, ◌-◌, ◌%◌, Bool, true, false, ◌&&◌, ◌||◌, not, Option, none, some, List, [],
  ◌∷◌, if◌then◌else◌, ◌==◌, nat_eq, ltb, leb, length,
}
use ndidplatform_api.Base.Checked.{Checked, refused, passed}
use package.ndidplatform_api.Tendermint.Client.{
  Socket, no_socket, connecting, open_socket, closed, WsClient, Event, opens, closes,
}
use package.ndidplatform_api.Tendermint.Client

pub record Pool : Type 0 where
  pub ws_clients : List WsClient
  pub ws_client_index : ℕ
  pub connected_ws_count : ℕ
  -- A promise of `waitForAvailableConnection` is not resolved yet.
  pub is_awaited : Bool

unfoldable pub clients : ℕ → List WsClient
clients zero = []
clients (suc n) = Client.new ∷ clients n

-- `initialize` makes `config.tendermintWsConnections` clients.
unfoldable pub initialize : ℕ → Pool
initialize n = record {
  ws_clients = clients n;
  ws_client_index = 0;
  connected_ws_count = 0;
  is_awaited = false;
}

pub data Emission : Type 0 where
  connected disconnected nothing : Emission

-- What a client emits for its pool.
unfoldable pub on_opens : Socket → Emission
on_opens connecting = connected
on_opens s = nothing

unfoldable pub on_closes : Socket → Bool → Emission
on_closes connecting true = disconnected
on_closes open_socket true = disconnected
on_closes s b = nothing

unfoldable pub emitted : Event → WsClient → Emission
emitted opens c = on_opens c.socket
emitted closes c = on_closes c.socket c.connected
emitted e c = nothing

-- `incrementWsConnectedConnectionCount` and `decrementWsConnectedConnectionCount`.
unfoldable pub count_emission : Emission → Pool → Pool
count_emission connected p = record p {
  connected_ws_count = suc p.connected_ws_count;
  is_awaited = if ltb 0 (suc p.connected_ws_count) then false else p.is_awaited;
}
count_emission disconnected p = record p { connected_ws_count = p.connected_ws_count - 1 }
count_emission nothing p = p

unfoldable pub step_at : ℕ → Event → List WsClient → List WsClient
step_at i e [] = []
step_at zero e (c ∷ cs) = Client.step e c ∷ cs
step_at (suc i) e (c ∷ cs) = c ∷ step_at i e cs

unfoldable pub emitted_at : ℕ → Event → List WsClient → Emission
emitted_at i e [] = nothing
emitted_at zero e (c ∷ cs) = emitted e c
emitted_at (suc i) e (c ∷ cs) = emitted_at i e cs

unfoldable pub on_client : ℕ → Event → Pool → Pool
on_client i e p =
    count_emission (emitted_at i e p.ws_clients)
      (record p { ws_clients = step_at i e p.ws_clients })

unfoldable pub wait_for_available_connection : Pool → Pool
wait_for_available_connection p =
    if ltb 0 p.connected_ws_count then p else record p { is_awaited = true }

-- `wsClients[i].connected`, for an index within the array.
unfoldable pub connected_at : ℕ → List WsClient → Bool
connected_at i [] = false
connected_at zero (c ∷ cs) = c.connected
connected_at (suc i) (c ∷ cs) = connected_at i cs

-- `for (let i = from; i < to; i++)` for the first connected client, with the rounds left.
unfoldable pub first_connected : ℕ → ℕ → List WsClient → Option ℕ
first_connected zero i cs = none
first_connected (suc rounds) i cs =
    if connected_at i cs then some i else first_connected rounds (suc i) cs

unfoldable pub from_start : Option ℕ → ℕ → List WsClient → Option ℕ
from_start (some i) current cs = some i
from_start none current cs = if not (current == 0) then first_connected current 0 cs else none

unfoldable pub get_next_connected_connection_client_index : ℕ → List WsClient → Option ℕ
get_next_connected_connection_client_index current cs =
    from_start (first_connected (length cs - current) current cs) current cs

pub data Failure : Type 0 where
  type_error no_connected_ws : Failure

unfoldable pub take_client : Option ℕ → Pool → Pool × Checked Failure ℕ
take_client none p = (p, refused no_connected_ws)
take_client (some i) p = (record p { ws_client_index = suc i }, passed i)

unfoldable pub client_from : ℕ → Pool → Pool × Checked Failure ℕ
client_from i p =
    take_client
      (if not (connected_at i p.ws_clients)
        then get_next_connected_connection_client_index i p.ws_clients
        else some i)
      (record p { ws_client_index = i })

-- The pool, and the index of the client that is returned. An index modulo zero is no number, and
-- stays none.
unfoldable pub get_connection : Pool → Pool × Checked Failure ℕ
get_connection p =
    if length p.ws_clients == 0
    then (p, refused type_error)
    else client_from (p.ws_client_index % length p.ws_clients) p

pub data PoolEvent : Type 0 where
  at_client : ℕ → Event → PoolEvent
  waits takes : PoolEvent

unfoldable pub step : PoolEvent → Pool → Pool
step (at_client i e) p = on_client i e p
step waits p = wait_for_available_connection p
step takes p = (get_connection p).0

unfoldable pub run : List PoolEvent → Pool → Pool
run [] p = p
run (e ∷ es) p = run es (step e p)
