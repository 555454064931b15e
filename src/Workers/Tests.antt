-- ===== src/Workers/Tests.antt =====
-- Runs of the master, and the theorems about them at concrete ones.
use ndidplatform_api.Base.{
  ◌≡◌, refl, ℕ, String, Bool, true, false, Option, none, some, List, [], ◌∷◌, get, string_eq,
}
use package.ndidplatform_api.Workers.{
  Worker, Job, other, Call, Remaining, Master, new, state, chosen, get_worker, find_worker,
  drop_last, delegate_to_worker,
}
use package.ndidplatform_api.Workers.Events.{
  subscribe, cancelled, drop_connection, Event, subscribes, lost, stops, leaves, returns, delegates,
  calls_all, run,
}
use package.ndidplatform_api.Workers.Books.{IsSound}
use package.ndidplatform_api.Workers.LeastBusy.{IsLeastBusy, get_worker-IsLeastBusy}
use package.ndidplatform_api.Workers.Runs.{books_are_right}
use package.ndidplatform_api.Workers.Lost.{second_lost_is_skipped}

abbrev tasks : Remaining
tasks = record {
  request_timeout = ("request", 90) ∷ [];
  callback = ("callback", 40) ∷ [];
  mq = "message" ∷ [];
}

-- Two workers with jobs, the first of which is stopping.
abbrev busy : List Event
busy =
    subscribes "a" 10
    ∷ subscribes "b" 10
    ∷ delegates (other "f") (some "done") none
    ∷ delegates (other "g") none (some "b")
    ∷ calls_all (other "h") none ("a" ∷ [])
    ∷ stops "a"
    ∷ returns 1
    ∷ []

-- Both are lost while nobody is there to take over.
abbrev deserted : List Event
deserted =
    subscribes "a" 10
    ∷ subscribes "b" 10
    ∷ stops "a"
    ∷ stops "b"
    ∷ leaves "a" tasks
    ∷ leaves "b" tasks
    ∷ lost "a" 20
    ∷ lost "b" 20
    ∷ []

-- Three workers stop one after another, and a new one connects before the third is lost.
abbrev restarted : List Event
restarted =
    subscribes "a" 10
    ∷ subscribes "b" 10
    ∷ subscribes "d" 10
    ∷ stops "a"
    ∷ stops "b"
    ∷ stops "d"
    ∷ leaves "a" tasks
    ∷ leaves "b" tasks
    ∷ leaves "d" tasks
    ∷ lost "a" 20
    ∷ lost "b" 20
    ∷ subscribes "c" 30
    ∷ []

books_are_right_example : IsSound (run busy new)
books_are_right_example = books_are_right busy

get_worker-IsLeastBusy_example :
    IsLeastBusy (run busy new).worker_list (get_worker none (run busy new))
get_worker-IsLeastBusy_example = get_worker-IsLeastBusy (run busy new) (books_are_right busy)

abbrev worker_b : Worker
worker_b = record { connection = 1; worker_id = "b"; job_count = 1; stopping = false }

second_lost_is_skipped_example :
    ((state (subscribe "c" 30 (run deserted new))).lost_worker_ids ≡ "b" ∷ [])
    × (get "b" (state (subscribe "c" 30 (run deserted new))).worker_lost_handling
        ≡ get "b" (run deserted new).worker_lost_handling)
unfolding ndidplatform_api.Workers.get_worker ndidplatform_api.Workers.none_available
    ndidplatform_api.Workers.Events.run ndidplatform_api.Workers.Events.step
    ndidplatform_api.Workers.Events.return_result_call ndidplatform_api.Workers.Events.finish_call
    ndidplatform_api.Base.get ndidplatform_api.Workers.Events.worker_stopping_call
    ndidplatform_api.Workers.Events.stop_found ndidplatform_api.Workers.find_worker
    ndidplatform_api.Workers.Events.remote_fn_call_to_workers
    ndidplatform_api.Workers.Events.call_on_each ndidplatform_api.Workers.delegate_to_worker
    ndidplatform_api.Workers.delegate_to_chosen ndidplatform_api.Workers.Events.subscribe
    ndidplatform_api.Workers.new ndidplatform_api.Workers.Events.for_each_lost
    ndidplatform_api.Base.delete ndidplatform_api.Base.put ndidplatform_api.Base.includes
    ndidplatform_api.Base.remove_first ndidplatform_api.Workers.Events.add_worker
    ndidplatform_api.Workers.Events.call_on ndidplatform_api.Workers.Events.callback_of
    ndidplatform_api.Workers.Events.cancelled ndidplatform_api.Workers.Events.drop_connection
    ndidplatform_api.Workers.Events.drop_worker ndidplatform_api.Workers.Events.element_at
    ndidplatform_api.Workers.Events.handle_worker_lost ndidplatform_api.Workers.Events.mark_stopping
    ndidplatform_api.Workers.Events.stopping_dropped
    ndidplatform_api.Workers.Events.tasks_before_shutdown ndidplatform_api.Workers.Events.visit
    ndidplatform_api.Workers.assign ndidplatform_api.Workers.choose
    ndidplatform_api.Workers.delegate_all ndidplatform_api.Workers.drop_last
    ndidplatform_api.Workers.due_jobs ndidplatform_api.Workers.forget_lost
    ndidplatform_api.Workers.found_or ndidplatform_api.Workers.handle_lost_worker_remaining_tasks
    ndidplatform_api.Workers.handle_remaining ndidplatform_api.Workers.is_better
    ndidplatform_api.Workers.least_busy ndidplatform_api.Workers.mq_jobs
    ndidplatform_api.Workers.next_call ndidplatform_api.Workers.recount
    ndidplatform_api.Workers.splice_index_of
second_lost_is_skipped_example =
    second_lost_is_skipped "c" "a" "b" 30 tasks (run deserted new) (books_are_right deserted) refl
      refl refl refl
