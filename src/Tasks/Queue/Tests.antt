-- ===== src/Tasks/Queue/Tests.antt =====
-- The manager on small inputs.
use ndidplatform_api.Base.{◌≡◌, refl, true, some, List, [], ◌∷◌, ◌++◌, String, string_eq, get, put}
use ndidplatform_api.Tasks.Queue.{
  standalone, master, Task, nothing, Manager, new, add_task, enqueue, execute_task, tick,
  queue_missing,
}
use ndidplatform_api.Tasks.Queue.Invariant.{Inv}
use ndidplatform_api.Tasks.Queue.Steps.{
  AllCanStart, Op, arrives, ticks, returns, workers_change, step, run, run-Inv,
}
use ndidplatform_api.Tasks.Queue.Order.{all_accepted, all_begun, queue_of, run-fifo}
use ndidplatform_api.Tasks.Queue.Stale.{Seen, stale_call_throws}

abbrev task_named : String → Task
task_named f = record {
  node_id = "idp1";
  callback_fn_name = f;
  callback_args = [];
  on_callback_finished = nothing;
  start_time = 0;
}

abbrev two_tasks : List Op
two_tasks = arrives "r" (task_named "a") ∷ ticks ∷ arrives "r" (task_named "b") ∷ []

abbrev two : Manager
two = run two_tasks (new standalone)

two_start : AllCanStart two_tasks (new standalone)
unfolding new step add_task enqueue
two_start = (tt, (refl, (tt, tt)))

run-Inv_example : Inv two
run-Inv_example = run-Inv standalone two_tasks two_start

-- A worker connects to a master process first.
abbrev with_worker : List Op
with_worker = workers_change true ∷ two_tasks

with_worker_start : AllCanStart with_worker (new master)
unfolding new step add_task enqueue
with_worker_start = (tt, (tt, (refl, (tt, tt))))

run-fifo_example :
    all_accepted "r" with_worker (new master)
    ≡ all_begun "r" with_worker (new master) ++ queue_of "r" (run with_worker (new master))
run-fifo_example = run-fifo master "r" with_worker with_worker_start

two-Seen : Seen "r" (some (task_named "b" ∷ [])) (some (task_named "a")) ("r" ∷ []) two
unfolding run step new tick execute_task add_task enqueue get put
two-Seen = record { main = refl; queue = refl; flying = refl; running = refl; immediates = refl }

stale_call_throws_example :
    (tick (run (returns "r" ∷ ticks ∷ returns "r" ∷ []) two)).fault ≡ some queue_missing
stale_call_throws_example = stale_call_throws "r" (task_named "a") (task_named "b") two two-Seen
