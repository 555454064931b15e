-- ===== src/Tasks/Queue/Steps.antt =====
-- Every sequence of arrivals, `setImmediate` calls, returns and stops keeps the manager's books.
use ndidplatform_api.Base.{
  String, Bool, true, ◌≡◌, refl, Option, none, some, List, [], ◌∷◌, string_eq, get,
}
use ndidplatform_api.Tasks.Queue.{
  Mode, can_start, Task, Manager, new, add_task, run_immediate, tick, finish_found, finish, stop,
}
use ndidplatform_api.Tasks.Queue.Invariant.{
  Inv, new-Inv, add_task-Inv, execute_task-Inv, finished_lem, after_finished-Inv,
}

finish_found-Inv :
    (o : Option Task) (r : String) (s : Manager)
    → get r s.in_flight ≡ o
    → Inv s
    → Inv (finish_found o r s).state × ((finish_found o r s).fault ≡ none)
unfolding finish_found
finish_found-Inv none r s e v = (v, refl)
finish_found-Inv (some t) r s e v =
    let (locks, es, p) = finished_lem r t.on_callback_finished s in
    rw p (after_finished-Inv r t locks s v e (get r s.request_queue) es refl)

-- From a state that meets the invariant, a task that comes back is booked out: its queue is there,
-- nothing is thrown, and the invariant holds again.
pub finish-Inv :
    (r : String) (s : Manager) → Inv s → Inv (finish r s).state × ((finish r s).fault ≡ none)
unfolding finish
finish-Inv r s v = finish_found-Inv (get r s.in_flight) r s refl v

-- The list of `setImmediate` calls is no part of the books.
pub immediates-Inv : (rs : List String) (s : Manager) → Inv s → Inv (record s { immediates = rs })
immediates-Inv rs s v = record {
  queues = v.queues;
  requests = v.requests;
  pending = v.pending;
  flying = v.flying;
  processing = v.processing;
  running = v.running;
  served = v.served;
  busy = v.busy;
}

run_immediate-Inv :
    (rs : List String) (s : Manager)
    → can_start s.mode s.has_worker ≡ true
    → Inv s
    → Inv (run_immediate rs s).state
unfolding run_immediate
run_immediate-Inv [] s n v = v
run_immediate-Inv (r ∷ rs) s n v = execute_task-Inv r _ n (immediates-Inv rs s v)

pub tick-Inv : (s : Manager) → can_start s.mode s.has_worker ≡ true → Inv s → Inv (tick s).state
unfolding tick
tick-Inv s n v = run_immediate-Inv s.immediates s n v

pub data Op : Type 0 where
  arrives : String → Task → Op
  ticks : Op
  returns : String → Op
  stops : Op
  -- In a master process: workers are available, or no longer.
  workers_change : Bool → Op

-- A fault of a `setImmediate` call leaves the state as that call had made it.
unfoldable pub step : Op → Manager → Manager
step (arrives r t) s = add_task r t s
step ticks s = (tick s).state
step (returns r) s = (finish r s).state
step stops s = stop s
step (workers_change available) s = record s { has_worker = available }

unfoldable pub run : List Op → Manager → Manager
run [] s = s
run (o ∷ os) s = run os (step o s)

-- A `setImmediate` call comes only while a task can be started: in a standalone process, or in a master
-- process with a worker available.
abbrev pub CanStart : Op → Manager → Type 0
CanStart ticks s = can_start s.mode s.has_worker ≡ true
CanStart o s = Unit

abbrev pub AllCanStart : List Op → Manager → Type 0
AllCanStart [] s = Unit
AllCanStart (o ∷ os) s = CanStart o s × AllCanStart os (step o s)

same_books-Inv :
    (stopping available : Bool) (s : Manager)
    → Inv s
    → Inv (record s { stopping = stopping; has_worker = available })
same_books-Inv b a s v = record {
  queues = v.queues;
  requests = v.requests;
  pending = v.pending;
  flying = v.flying;
  processing = v.processing;
  running = v.running;
  served = v.served;
  busy = v.busy;
}

pub step-Inv : (o : Op) (s : Manager) → CanStart o s → Inv s → Inv (step o s)
unfolding step stop
step-Inv (arrives r t) s n v = add_task-Inv r t s v
step-Inv ticks s n v = tick-Inv s n v
step-Inv (returns r) s n v = (finish-Inv r s v).0
step-Inv stops s n v = same_books-Inv true s.has_worker s v
step-Inv (workers_change b) s n v = same_books-Inv s.stopping b s v

run_from-Inv : (os : List Op) (s : Manager) → AllCanStart os s → Inv s → Inv (run os s)
unfolding run
run_from-Inv [] s n v = v
run_from-Inv (o ∷ os) s n v = run_from-Inv os (step o s) n.1 (step-Inv o s n.0 v)

-- In a standalone process, or in a master process that has a worker whenever a `setImmediate` call comes,
-- whatever tasks arrive and return in whatever order: the three counters are the numbers of queues, of
-- waiting tasks and of tasks at work; a request never has two tasks at work; and a request is marked as
-- running exactly while it has one.
pub run-Inv : (mode : Mode) (os : List Op) → AllCanStart os (new mode) → Inv (run os (new mode))
run-Inv mode os n = run_from-Inv os (new mode) n (new-Inv mode)
