-- ===== src/Workers/Returned.antt =====
-- A job from its delegation to its result, in main-server/src/master-worker-interface/server.js.
use ndidplatform_api.Base.{String, ◌≡◌, Option, none, nat_eq, string_eq}
use package.ndidplatform_api.Workers.{Master}
use package.ndidplatform_api.Workers.Events.{return_result_call}

-- What a result that came back does: the callback that it calls, and the books without the call.
unfoldable pub IsReturned : Option String → Master → Master → Type 0
IsReturned callback s t =
    let r = return_result_call s.call_counter t in
    (r.1 ≡ callback)
    × (r.0.worker_list ≡ s.worker_list)
    × (r.0.grpc_call ≡ s.grpc_call)
    × (return_result_call s.call_counter r.0 ≡ (r.0, none))
