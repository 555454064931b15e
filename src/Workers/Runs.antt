-- ===== src/Workers/Runs.antt =====
-- The books of the master (main-server/src/master-worker-interface/server.js) over any run of calls.
use ndidplatform_api.Base.{
  ℕ, suc, ◌<◌, String, ◌≡◌, refl, sym, subst, ◌∙◌, inl, inr, ◌||◌, Option, none, some, Option-cases,
  List, [], ◌∷◌, ◌++◌, if_both, nat_eq, string_eq, All, All-append, All-imp, All-delete, length,
  get, is_some, includes, Distinct-delete, arith,
}
use package.ndidplatform_api.Workers.{
  Worker, Job, Call, Remaining, Master, new, ended, state, none_available, find_worker, take_one,
  assign, next_call,
}
use package.ndidplatform_api.Workers.Events.{
  new_worker, add_worker, subscribe, handle_worker_lost, drop_connection, cancelled, stop_found,
  worker_stopping_call, tasks_before_shutdown, finish_call, return_result_call, call_on,
  call_on_each, remote_fn_call_to_workers, Event, subscribes, lost, stops, leaves, returns,
  delegates, calls_all, step, run,
}
use package.ndidplatform_api.Workers.Books.{
  IsCounted, IsOpen, IsSound, count_stopping-append, count_stopping-recount, count_stopping-drop,
  count_stopping-mark, HasUniqueIds-recount, HasUniqueIds-drop, HasUniqueIds-mark,
  HasUniqueIds-append, calls_on-new, All-recount_down, All-drop, All-mark,
}
use package.ndidplatform_api.Workers.Sound.{
  IsKnown, known, assign-IsSound, delegate_to_worker-IsSound,
}
use package.ndidplatform_api.Workers.Resumed.{for_each_lost-IsSound, handle_lost-IsSound}

pub add_worker-IsSound :
    (id : String) (s : Master)
    → IsSound s
    → find_worker id s.worker_list ≡ none
    → IsSound (add_worker id s)
unfolding add_worker
add_worker-IsSound id s h n = record {
  counted =
      All-append (IsCounted s.grpc_call (suc s.connection_counter)) s.worker_list
        (new_worker s.connection_counter id ∷ [])
        (All-imp (IsCounted s.grpc_call s.connection_counter)
          (IsCounted s.grpc_call (suc s.connection_counter)) (λ w c. (c.0, omega arith))
          s.worker_list h.counted)
        (
          (
            sym (calls_on-new s.call_counter s.connection_counter s.grpc_call h.opened),
            omega arith,
          ),
          tt,
        );
  opened =
      All-imp (IsOpen s.call_counter s.connection_counter)
        (IsOpen s.call_counter (suc s.connection_counter)) (λ e o. (o.0, omega arith)) s.grpc_call
        h.opened;
  keyed = h.keyed;
  stopping =
      h.stopping
      ∙ omega
          (arith, count_stopping-append s.worker_list (new_worker s.connection_counter id ∷ []));
  unique = HasUniqueIds-append s.connection_counter id s.worker_list n h.unique;
}

subscribe-IsSound :
    (id : String) (now : ℕ) (s : Master) → IsSound s → IsSound (state (subscribe id now s))
unfolding subscribe
subscribe-IsSound id now s h = elim (Option-cases (find_worker id s.worker_list)) [
  | inl n ↦ rw n (
      for_each_lost-IsSound (length s.lost_worker_ids) 0 now (add_worker id s)
        (add_worker-IsSound id s h n))
  | inr (w, f) ↦ rw f h
]

pub drop_connection-IsSound :
    (id : String) (s : Master) → IsSound s → IsSound (drop_connection id s)
unfolding drop_connection
drop_connection-IsSound id s h = record {
  counted = All-drop (IsCounted s.grpc_call s.connection_counter) id s.worker_list h.counted;
  opened = h.opened;
  keyed = h.keyed;
  stopping = let e = count_stopping-drop id s.worker_list in let f = h.stopping in omega arith;
  unique = HasUniqueIds-drop id s.worker_list h.unique;
}

push_lost-IsSound :
    (id : String) (s : Master)
    → IsSound s
    → IsSound (record s { lost_worker_ids = s.lost_worker_ids ++ id ∷ [] })
push_lost-IsSound id s h = record {
  counted = h.counted;
  opened = h.opened;
  keyed = h.keyed;
  stopping = h.stopping;
  unique = h.unique;
}

handle_worker_lost-IsSound :
    (id : String) (now : ℕ) (s : Master) → IsSound s → IsSound (state (handle_worker_lost id now s))
unfolding handle_worker_lost
handle_worker_lost-IsSound id now s h =
    if_both (λ r. IsSound (state r)) (is_some (get id s.worker_lost_handling)) _ (ended s)
      (if_both (λ r. IsSound (state r)) (none_available s) _ _ (push_lost-IsSound id s h)
        (handle_lost-IsSound id now s h))
      h

stop_found-IsSound :
    (id : String) (o : Option Worker) (s : Master)
    → find_worker id s.worker_list ≡ o
    → IsSound s
    → IsSound (stop_found id o s)
unfolding stop_found
stop_found-IsSound id none s e h = h
stop_found-IsSound id (some w) s e h = record {
  counted = All-mark s.grpc_call s.connection_counter id s.worker_list h.counted;
  opened = h.opened;
  keyed = h.keyed;
  stopping = ground (arith, h.stopping, count_stopping-mark id w s.worker_list e);
  unique = HasUniqueIds-mark id s.worker_list h.unique;
}

tasks-IsSound :
    (id : String) (jobs : Remaining) (s : Master)
    → IsSound s
    → IsSound (tasks_before_shutdown id jobs s)
unfolding tasks_before_shutdown
tasks-IsSound id jobs s h = record {
  counted = h.counted;
  opened = h.opened;
  keyed = h.keyed;
  stopping = h.stopping;
  unique = h.unique;
}

finish_call-IsSound :
    (ref : ℕ) (o : Option Call) (s : Master)
    → get ref s.grpc_call ≡ o
    → IsSound s
    → IsSound (finish_call ref o s)
unfolding finish_call
finish_call-IsSound ref none s e h = h
finish_call-IsSound ref (some c) s e h = record {
  counted =
      All-recount_down c ref s.connection_counter s.grpc_call s.worker_list h.keyed e h.counted;
  opened = All-delete (IsOpen s.call_counter s.connection_counter) ref s.grpc_call h.opened;
  keyed = Distinct-delete ref s.grpc_call h.keyed;
  stopping = h.stopping ∙ sym (count_stopping-recount take_one c.connection s.worker_list);
  unique = HasUniqueIds-recount take_one c.connection s.worker_list h.unique;
}

-- A worker's share of a call to all keeps the books and gives out no connection.
call_on-IsSound :
    (job : Job) (callback : Option String) (excluded : List String) (w : Worker) (s : Master)
    → IsSound s
    → w.connection < s.connection_counter
    → IsSound (call_on job callback excluded w s)
      × ((call_on job callback excluded w s).connection_counter ≡ s.connection_counter)
unfolding call_on assign next_call
call_on-IsSound job callback excluded w s h k =
    if_both (λ t. IsSound t × (t.connection_counter ≡ s.connection_counter))
      (w.stopping || includes w.worker_id excluded) s
      (assign job callback s.call_counter w (next_call s)) (h, refl)
      (assign-IsSound job callback w s h k, refl)

call_on_each-IsSound :
    (job : Job) (callback : Option String) (excluded : List String) (ws : List Worker) (s : Master)
    → IsSound s
    → All (IsKnown s.connection_counter) ws
    → IsSound (call_on_each job callback excluded ws s)
unfolding call_on_each
call_on_each-IsSound job callback excluded [] s h k = h
call_on_each-IsSound job callback excluded (w ∷ ws) s h k =
    let kept = call_on-IsSound job callback excluded w s h k.0 in
    call_on_each-IsSound job callback excluded ws (call_on job callback excluded w s) kept.0
      (subst (λ b. All (IsKnown b) ws) (sym kept.1) k.1)

step-IsSound : (e : Event) (s : Master) → IsSound s → IsSound (step e s)
unfolding step return_result_call worker_stopping_call cancelled remote_fn_call_to_workers
step-IsSound (subscribes id now) s h = subscribe-IsSound id now s h
step-IsSound (lost id now) s h =
    handle_worker_lost-IsSound id now (drop_connection id s) (drop_connection-IsSound id s h)
step-IsSound (stops id) s h = stop_found-IsSound id (find_worker id s.worker_list) s refl h
step-IsSound (leaves id jobs) s h = tasks-IsSound id jobs s h
step-IsSound (returns ref) s h = finish_call-IsSound ref (get ref s.grpc_call) s refl h
step-IsSound (delegates job callback specific) s h =
    delegate_to_worker-IsSound job callback specific s h
step-IsSound (calls_all job callback excluded) s h =
    call_on_each-IsSound job callback excluded s.worker_list s h (known s h)

new-IsSound : IsSound new
unfolding new
new-IsSound = record { counted = tt; opened = tt; keyed = tt; stopping = refl; unique = tt }

after-IsSound : (es : List Event) (s : Master) → IsSound s → IsSound (run es s)
unfolding run
after-IsSound [] s h = h
after-IsSound (e ∷ es) s h = after-IsSound es (step e s) (step-IsSound e s h)

-- After any sequence of subscriptions, lost connections, workers that stop or leave their tasks,
-- results and delegated jobs on a new master: no two workers have one id, the count of stopping
-- workers is right, every worker's job count is the number of calls in flight on its connection, and
-- each call has a reference of its own that was given out.
pub books_are_right : (es : List Event) → IsSound (run es new)
books_are_right es = after-IsSound es new new-IsSound
