-- ===== src/Tendermint/Pool/Tests.antt =====
-- A pool of three clients, and the theorems about it.
use ndidplatform_api.Base.{ℕ, ◌≡◌, refl, ◌%◌, List, [], ◌∷◌, length, arith}
use package.ndidplatform_api.Tendermint.Client.{connects, opens, closes, reconnects}
use package.ndidplatform_api.Tendermint.Pool.{
  Pool, initialize, take_client, get_connection, PoolEvent, at_client, waits, takes, run,
}
use package.ndidplatform_api.Tendermint.Pool.Count.{IsCounted, run-IsCounted}
use package.ndidplatform_api.Tendermint.Pool.RoundRobin.{
  Gives, next_in_turn, get_connection-next_in_turn,
}

-- All connect, the third is lost, and two connections are taken.
abbrev used : List PoolEvent
used =
    waits
    ∷ at_client 0 connects
    ∷ at_client 1 connects
    ∷ at_client 2 connects
    ∷ at_client 1 opens
    ∷ at_client 2 opens
    ∷ at_client 0 opens
    ∷ at_client 2 closes
    ∷ takes
    ∷ takes
    ∷ []

run-IsCounted_example : IsCounted (run used (initialize 3))
run-IsCounted_example = run-IsCounted 3 used

three_clients : length (run used (initialize 3)).ws_clients ≡ 3
unfolding ndidplatform_api.Tendermint.Pool.run ndidplatform_api.Tendermint.Pool.step
    ndidplatform_api.Tendermint.Pool.get_connection ndidplatform_api.Tendermint.Pool.on_client
    ndidplatform_api.Tendermint.Pool.initialize ndidplatform_api.Tendermint.Pool.clients
    ndidplatform_api.Tendermint.Pool.count_emission ndidplatform_api.Tendermint.Pool.emitted_at
    ndidplatform_api.Tendermint.Pool.step_at ndidplatform_api.Tendermint.Pool.emitted
    ndidplatform_api.Tendermint.Pool.on_opens ndidplatform_api.Tendermint.Pool.on_closes
    ndidplatform_api.Tendermint.Pool.wait_for_available_connection
    ndidplatform_api.Tendermint.Pool.client_from ndidplatform_api.Tendermint.Pool.take_client
    ndidplatform_api.Tendermint.Pool.connected_at
    ndidplatform_api.Tendermint.Pool.get_next_connected_connection_client_index
    ndidplatform_api.Tendermint.Pool.from_start ndidplatform_api.Tendermint.Pool.first_connected
    ndidplatform_api.Tendermint.Client.new ndidplatform_api.Tendermint.Client.step
    ndidplatform_api.Tendermint.Client.connect_if_none ndidplatform_api.Tendermint.Client.connect
    ndidplatform_api.Tendermint.Client.open_if_due ndidplatform_api.Tendermint.Client.on_open
    ndidplatform_api.Tendermint.Client.close_if_due ndidplatform_api.Tendermint.Client.on_close
    ndidplatform_api.Tendermint.Client.reject_all
three_clients = refl

two_connected : (run used (initialize 3)).connected_ws_count ≡ 2
unfolding ndidplatform_api.Tendermint.Pool.run ndidplatform_api.Tendermint.Pool.step
    ndidplatform_api.Tendermint.Pool.get_connection ndidplatform_api.Tendermint.Pool.on_client
    ndidplatform_api.Tendermint.Pool.initialize ndidplatform_api.Tendermint.Pool.clients
    ndidplatform_api.Tendermint.Pool.count_emission ndidplatform_api.Tendermint.Pool.emitted_at
    ndidplatform_api.Tendermint.Pool.step_at ndidplatform_api.Tendermint.Pool.emitted
    ndidplatform_api.Tendermint.Pool.on_opens ndidplatform_api.Tendermint.Pool.on_closes
    ndidplatform_api.Tendermint.Pool.wait_for_available_connection
    ndidplatform_api.Tendermint.Pool.client_from ndidplatform_api.Tendermint.Pool.take_client
    ndidplatform_api.Tendermint.Pool.connected_at
    ndidplatform_api.Tendermint.Pool.get_next_connected_connection_client_index
    ndidplatform_api.Tendermint.Pool.from_start ndidplatform_api.Tendermint.Pool.first_connected
    ndidplatform_api.Tendermint.Client.new ndidplatform_api.Tendermint.Client.step
    ndidplatform_api.Tendermint.Client.connect_if_none ndidplatform_api.Tendermint.Client.connect
    ndidplatform_api.Tendermint.Client.open_if_due ndidplatform_api.Tendermint.Client.on_open
    ndidplatform_api.Tendermint.Client.close_if_due ndidplatform_api.Tendermint.Client.on_close
    ndidplatform_api.Tendermint.Client.reject_all
two_connected = refl

abbrev start : ℕ
start = (run used (initialize 3)).ws_client_index % length (run used (initialize 3)).ws_clients

get_connection-next_in_turn_example :
    Gives
      (run used (initialize 3))
      start
      (next_in_turn start (run used (initialize 3)).ws_clients)
      (get_connection (run used (initialize 3)))
get_connection-next_in_turn_example =
    get_connection-next_in_turn (run used (initialize 3)) (omega (arith, three_clients))
