-- ===== src/Workers/Resumed.antt =====
-- That resuming the tasks of a lost worker keeps the books of the master
-- (main-server/src/master-worker-interface/server.js).
use ndidplatform_api.Base.{
  ℕ, zero, suc, String, Option, none, some, List, [], ◌∷◌, nat_eq, string_eq, get,
}
use package.ndidplatform_api.Workers.{
  Job, Remaining, Master, Ran, ended, thrown, ◌>>=◌, state, delegate_to_worker, delegate_all,
  due_jobs, mq_jobs, forget_lost, handle_remaining, handle_lost_worker_remaining_tasks,
  run_timeout_scheduler, continue_callback_with_retry,
}
use package.ndidplatform_api.Workers.Events.{element_at, visit, for_each_lost}
use package.ndidplatform_api.Workers.Books.{IsSound}
use package.ndidplatform_api.Workers.Sound.{delegate_to_worker-IsSound}

-- One call after another, the second only if the first ended.
and_then-IsSound :
    (r : Ran) (next : Master → Ran)
    → IsSound (state r)
    → ((s : Master) → IsSound s → IsSound (state (next s)))
    → IsSound (state (r >>= next))
and_then-IsSound (ended s) next h k = k s h
and_then-IsSound (thrown f s) next h k = h

delegate_all-IsSound :
    (jobs : List Job) (s : Master) → IsSound s → IsSound (state (delegate_all jobs s))
unfolding delegate_all
delegate_all-IsSound [] s h = h
delegate_all-IsSound (job ∷ jobs) s h =
    and_then-IsSound (delegate_to_worker job none none s) (delegate_all jobs)
      (delegate_to_worker-IsSound job none none s h) (delegate_all-IsSound jobs)

pub forget_lost-IsSound :
    (id : String) (s : Master) → IsSound s → IsSound (state (forget_lost id s))
unfolding forget_lost
forget_lost-IsSound id s h = record {
  counted = h.counted;
  opened = h.opened;
  keyed = h.keyed;
  stopping = h.stopping;
  unique = h.unique;
}

handle_remaining-IsSound :
    (id : String) (now : ℕ) (o : Option Remaining) (s : Master)
    → IsSound s
    → IsSound (state (handle_remaining id now o s))
unfolding handle_remaining
handle_remaining-IsSound id now none s h = h
handle_remaining-IsSound id now (some r) s h =
    and_then-IsSound (after_timeouts >>= after_callbacks >>= delegate_all (mq_jobs r.mq))
      (forget_lost id)
      (and_then-IsSound (after_timeouts >>= after_callbacks) (delegate_all (mq_jobs r.mq))
        (and_then-IsSound after_timeouts after_callbacks
          (delegate_all-IsSound (due_jobs run_timeout_scheduler now r.request_timeout) s h)
          (delegate_all-IsSound (due_jobs continue_callback_with_retry now r.callback)))
        (delegate_all-IsSound (mq_jobs r.mq)))
      (forget_lost-IsSound id)
  where
    after_timeouts : Ran
    after_timeouts = delegate_all (due_jobs run_timeout_scheduler now r.request_timeout) s

    after_callbacks : Master → Ran
    after_callbacks = delegate_all (due_jobs continue_callback_with_retry now r.callback)

pub handle_lost-IsSound :
    (id : String) (now : ℕ) (s : Master)
    → IsSound s
    → IsSound (state (handle_lost_worker_remaining_tasks id now s))
unfolding handle_lost_worker_remaining_tasks
handle_lost-IsSound id now s h = handle_remaining-IsSound id now (get id s.worker_lost_handling) s h

visit-IsSound :
    (o : Option String) (now : ℕ) (s : Master) → IsSound s → IsSound (state (visit o now s))
unfolding visit
visit-IsSound none now s h = h
visit-IsSound (some id) now s h = handle_lost-IsSound id now s h

pub for_each_lost-IsSound :
    (rounds i now : ℕ) (s : Master) → IsSound s → IsSound (state (for_each_lost rounds i now s))
unfolding for_each_lost
for_each_lost-IsSound zero i now s h = h
for_each_lost-IsSound (suc rounds) i now s h =
    and_then-IsSound (visit (element_at i s.lost_worker_ids) now s)
      (for_each_lost rounds (suc i) now) (visit-IsSound (element_at i s.lost_worker_ids) now s h)
      (for_each_lost-IsSound rounds (suc i) now)
