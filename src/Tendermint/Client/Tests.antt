-- ===== src/Tendermint/Client/Tests.antt =====
-- A client that loses its connection, and the theorem about it.
use ndidplatform_api.Base.{true, false, List, [], ◌∷◌}
use package.ndidplatform_api.Tendermint.Client.{
  mempool_full, Event, connects, opens, closes, calls, reconnects, message, sent, new, run,
}
use package.ndidplatform_api.Tendermint.Client.Settled.{IsPlaced, run-new-IsPlaced}

-- Three calls: one is answered, one is lost with the connection, one fails to be sent.
abbrev lossy : List Event
lossy =
    connects
    ∷ opens
    ∷ calls
    ∷ calls
    ∷ calls
    ∷ sent 1 true
    ∷ sent 2 true
    ∷ message 2 mempool_full
    ∷ closes
    ∷ sent 3 false
    ∷ reconnects
    ∷ opens
    ∷ calls
    ∷ []

run-new-IsPlaced_example : IsPlaced 2 (run lossy new)
run-new-IsPlaced_example = run-new-IsPlaced 2 lossy
