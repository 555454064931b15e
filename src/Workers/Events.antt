-- ===== src/Workers/Events.antt =====
-- What workers and the rest of the program call on the master, in
-- main-server/src/master-worker-interface/server.js.
use ndidplatform_api.Base.{
  ℕ, zero, suc, ◌+◌, ◌-◌, String, true, false, ◌&&◌, ◌||◌, Option, none, some, List, [], ◌∷◌, ◌++◌,
  if◌then◌else◌, ◌==◌, nat_eq, string_eq, length, get, put, delete, is_some, includes,
}
use package.ndidplatform_api.Workers.{
  Worker, Job, Call, Remaining, Master, Ran, ended, ◌>>=◌, state, none_available, find_worker,
  recount, take_one, assign, next_call, delegate_to_worker, handle_lost_worker_remaining_tasks,
}

unfoldable pub element_at : ℕ → List String → Option String
element_at i [] = none
element_at zero (id ∷ ids) = some id
element_at (suc i) (id ∷ ids) = element_at i ids

unfoldable pub visit : Option String → ℕ → Master → Ran
visit none now s = ended s
visit (some id) now s = handle_lost_worker_remaining_tasks id now s

-- `lostWorkerIdsToHandle.forEach(...)`: as many rounds as the array was long at first; a round looks
-- at its index in the array as it is by then, and is skipped past the end.
unfoldable pub for_each_lost : ℕ → ℕ → ℕ → Master → Ran
for_each_lost zero i now s = ended s
for_each_lost (suc rounds) i now s =
    visit (element_at i s.lost_worker_ids) now s >>= for_each_lost rounds (suc i) now

abbrev pub new_worker : ℕ → String → Worker
new_worker connection id = record {
  connection = connection;
  worker_id = id;
  job_count = 0;
  stopping = false;
}

unfoldable pub add_worker : String → Master → Master
add_worker id s = record s {
  worker_list = s.worker_list ++ new_worker s.connection_counter id ∷ [];
  connection_counter = suc s.connection_counter;
}

unfoldable pub subscribe : String → ℕ → Master → Ran
subscribe id now s =
    if is_some (find_worker id s.worker_list)
    then ended s
    else for_each_lost (length s.lost_worker_ids) 0 now (add_worker id s)

-- The loop of a connection's `cancelled` handler: `splice(i, 1)` in a loop over `i` skips the next.
unfoldable pub drop_worker : String → List Worker → List Worker
drop_worker id [] = []
drop_worker id (w ∷ []) = if w.worker_id == id then [] else w ∷ []
drop_worker id (w ∷ v ∷ ws) =
    if w.worker_id == id then v ∷ drop_worker id ws else w ∷ drop_worker id (v ∷ ws)

unfoldable pub stopping_dropped : String → List Worker → ℕ
stopping_dropped id [] = 0
stopping_dropped id (w ∷ []) = if w.worker_id == id && w.stopping then 1 else 0
stopping_dropped id (w ∷ v ∷ ws) =
    if w.worker_id == id
    then (if w.stopping then 1 else 0) + stopping_dropped id ws
    else stopping_dropped id (v ∷ ws)

unfoldable pub handle_worker_lost : String → ℕ → Master → Ran
handle_worker_lost id now s =
    if is_some (get id s.worker_lost_handling)
    then if none_available s
      then ended (record s { lost_worker_ids = s.lost_worker_ids ++ id ∷ [] })
      else handle_lost_worker_remaining_tasks id now s
    else ended s

unfoldable pub drop_connection : String → Master → Master
drop_connection id s = record s {
  worker_list = drop_worker id s.worker_list;
  stopping_worker_count = s.stopping_worker_count - stopping_dropped id s.worker_list;
}

unfoldable pub cancelled : String → ℕ → Master → Ran
cancelled id now s = handle_worker_lost id now (drop_connection id s)

unfoldable pub mark_stopping : String → List Worker → List Worker
mark_stopping id [] = []
mark_stopping id (w ∷ ws) =
    if w.worker_id == id then record w { stopping = true } ∷ ws else w ∷ mark_stopping id ws

unfoldable pub stop_found : String → Option Worker → Master → Master
stop_found id none s = s
stop_found id (some w) s = record s {
  stopping_worker_count =
      if w.stopping then s.stopping_worker_count else suc s.stopping_worker_count;
  worker_list = mark_stopping id s.worker_list;
}

unfoldable pub worker_stopping_call : String → Master → Master
worker_stopping_call id s = stop_found id (find_worker id s.worker_list) s

unfoldable pub tasks_before_shutdown : String → Remaining → Master → Master
tasks_before_shutdown id jobs s = record s {
  worker_lost_handling = put id jobs s.worker_lost_handling;
}

unfoldable pub finish_call : ℕ → Option Call → Master → Master
finish_call ref none s = s
finish_call ref (some c) s = record s {
  worker_list = recount take_one c.connection s.worker_list;
  grpc_call = delete ref s.grpc_call;
}

-- The state after a result came back, and the callback that is called with it.
unfoldable pub callback_of : Option Call → Option String
callback_of none = none
callback_of (some c) = c.callback

unfoldable pub return_result_call : ℕ → Master → Master × Option String
return_result_call ref s =
    (finish_call ref (get ref s.grpc_call) s, callback_of (get ref s.grpc_call))

-- One worker's share of a call to all workers.
unfoldable pub call_on : Job → Option String → List String → Worker → Master → Master
call_on job callback excluded w s =
    if w.stopping || includes w.worker_id excluded
    then s
    else assign job callback s.call_counter w (next_call s)

unfoldable pub call_on_each : Job → Option String → List String → List Worker → Master → Master
call_on_each job callback excluded [] s = s
call_on_each job callback excluded (w ∷ ws) s =
    call_on_each job callback excluded ws (call_on job callback excluded w s)

unfoldable pub remote_fn_call_to_workers : Job → Option String → List String → Master → Master
remote_fn_call_to_workers job callback excluded s =
    call_on_each job callback excluded s.worker_list s

pub data Event : Type 0 where
  subscribes lost : String → ℕ → Event
  stops : String → Event
  leaves : String → Remaining → Event
  returns : ℕ → Event
  delegates : Job → Option String → Option String → Event
  calls_all : Job → Option String → List String → Event

unfoldable pub step : Event → Master → Master
step (subscribes id now) s = state (subscribe id now s)
step (lost id now) s = state (cancelled id now s)
step (stops id) s = worker_stopping_call id s
step (leaves id jobs) s = tasks_before_shutdown id jobs s
step (returns ref) s = (return_result_call ref s).0
step (delegates job callback specific) s = state (delegate_to_worker job callback specific s)
step (calls_all job callback excluded) s = remote_fn_call_to_workers job callback excluded s

unfoldable pub run : List Event → Master → Master
run [] s = s
run (e ∷ es) s = run es (step e s)
