-- ===== src/Workers.antt =====
-- The master of main-server/src/master-worker-interface/server.js: which workers are connected, which
-- jobs each of them has, and what becomes of the tasks of a worker that is lost.
-- A worker is an object that the list of workers and the calls in flight share; it is known by the
-- number of its connection, and each call holds that number. A call's reference id is its counter.
-- `stoppingWorkerCount` and the job counts are natural numbers: each goes down only for a worker or a
-- call that was counted, as Workers.Books proves. The gRPC server, the encoding of arguments and
-- results, and the logs are left out.
pub mod Books
pub mod Events
pub mod LeastBusy
pub mod Lost
pub mod Sound
pub mod Resumed
pub mod Runs
pub mod Returned
mod Tests
use ndidplatform_api.Base.{
  ℕ, zero, suc, ◌+◌, ◌-◌, String, Bool, true, false, ◌&&◌, ◌||◌, not, Option, none, some, List, [],
  ◌∷◌, ◌++◌, if◌then◌else◌, ◌==◌, nat_eq, string_eq, ltb, length, select, get, put, delete, is_some,
  includes, remove_first,
}

pub record Worker : Type 0 where
  pub connection : ℕ
  pub worker_id : String
  pub job_count : ℕ
  pub stopping : Bool

-- A function to run on a worker, with its arguments.
pub data Job : Type 0 where
  run_timeout_scheduler : String → ℕ → Job
  continue_callback_with_retry : String → ℕ → Job
  resume_pending_outbound_message : String → Job
  other : String → Job

-- An entry of `grpcCall`: the job, the caller's callback and the worker's connection.
pub record Call : Type 0 where
  pub job : Job
  pub callback : Option String
  pub connection : ℕ

-- What a worker leaves when it shuts down: ids with their deadlines, and ids of messages.
pub record Remaining : Type 0 where
  pub request_timeout : List (String × ℕ)
  pub callback : List (String × ℕ)
  pub mq : List String

pub record Master : Type 0 where
  pub worker_list : List Worker
  pub stopping_worker_count : ℕ
  pub worker_lost_handling : List (String × Remaining)
  pub lost_worker_ids : List String
  pub grpc_call : List (ℕ × Call)
  pub call_counter : ℕ
  -- How many workers have subscribed so far.
  pub connection_counter : ℕ

unfoldable pub new : Master
new = record {
  worker_list = [];
  stopping_worker_count = 0;
  worker_lost_handling = [];
  lost_worker_ids = [];
  grpc_call = [];
  call_counter = 0;
  connection_counter = 0;
}

pub data Fault : Type 0 where
  no_worker_available worker_not_found type_error : Fault

-- A function that may throw, with the state that it leaves in either case.
pub data Ran : Type 0 where
  ended : Master → Ran
  thrown : Fault → Master → Ran

infixl 5 ◌>>=◌
abbrev pub ◌>>=◌ : Ran → (Master → Ran) → Ran
ended s >>= next = next s
thrown f s >>= next = thrown f s

abbrev pub state : Ran → Master
state (ended s) = s
state (thrown f s) = s

unfoldable pub none_available : Master → Bool
none_available s = length s.worker_list == 0 || length s.worker_list == s.stopping_worker_count

-- The loop of `getWorker`: the first of those with the fewest jobs that is not stopping, with the
-- best so far, where `none` stands for `Infinity` and index -1.
unfoldable pub is_better : Worker → Option Worker → Bool
is_better w none = not w.stopping
is_better w (some best) = ltb w.job_count best.job_count && not w.stopping

unfoldable pub least_busy : Option Worker → List Worker → Option Worker
least_busy best [] = best
least_busy best (w ∷ ws) = least_busy (if is_better w best then some w else best) ws

unfoldable pub find_worker : String → List Worker → Option Worker
find_worker id [] = none
find_worker id (w ∷ ws) = if w.worker_id == id then some w else find_worker id ws

pub data Choice : Type 0 where
  chosen : Worker → Choice
  failed : Fault → Choice

-- `workerList[-1]` is undefined, and the caller reads a property of it.
unfoldable pub found_or : Fault → Option Worker → Choice
found_or f none = failed f
found_or f (some w) = chosen w

unfoldable pub choose : Option String → Master → Choice
choose none s = found_or type_error (least_busy none s.worker_list)
choose (some id) s = found_or worker_not_found (find_worker id s.worker_list)

unfoldable pub get_worker : Option String → Master → Choice
get_worker specific s = if none_available s then failed no_worker_available else choose specific s

-- `worker.jobCount++` and `worker.jobCount--` on the shared object.
unfoldable pub recount : (ℕ → ℕ) → ℕ → List Worker → List Worker
recount change c [] = []
recount change c (w ∷ ws) =
    (if w.connection == c then record w { job_count = change w.job_count } else w)
    ∷ recount change c ws

abbrev pub take_one : ℕ → ℕ
take_one n = n - 1

-- A job goes to a worker: the call is noted and the worker's count goes up.
unfoldable pub assign : Job → Option String → ℕ → Worker → Master → Master
assign job callback ref w s = record s {
  grpc_call =
      put ref (record { job = job; callback = callback; connection = w.connection }) s.grpc_call;
  worker_list = recount suc w.connection s.worker_list;
}

unfoldable pub delegate_to_chosen : Job → Option String → ℕ → Choice → Master → Ran
delegate_to_chosen job callback ref (chosen w) s = ended (assign job callback ref w s)
delegate_to_chosen job callback ref (failed f) s = thrown f s

unfoldable pub next_call : Master → Master
next_call s = record s { call_counter = suc s.call_counter }

unfoldable pub delegate_to_worker : Job → Option String → Option String → Master → Ran
delegate_to_worker job callback specific s =
    delegate_to_chosen job callback s.call_counter (get_worker specific s) (next_call s)

unfoldable pub delegate_all : List Job → Master → Ran
delegate_all [] s = ended s
delegate_all (job ∷ jobs) s = delegate_to_worker job none none s >>= delegate_all jobs

-- Those that are not past their deadlines.
unfoldable pub due_jobs : (String → ℕ → Job) → ℕ → List (String × ℕ) → List Job
due_jobs job now [] = []
due_jobs job now ((id, deadline) ∷ rest) =
    if ltb now deadline then job id deadline ∷ due_jobs job now rest else due_jobs job now rest

unfoldable pub mq_jobs : List String → List Job
mq_jobs [] = []
mq_jobs (id ∷ ids) = resume_pending_outbound_message id ∷ mq_jobs ids

-- `ids.splice(ids.indexOf(id), 1)`, which takes out the last one if the id is not there.
unfoldable pub drop_last : List String → List String
drop_last [] = []
drop_last (i ∷ []) = []
drop_last (i ∷ j ∷ ids) = i ∷ drop_last (j ∷ ids)

unfoldable pub splice_index_of : String → List String → List String
splice_index_of id ids = if includes id ids then remove_first id ids else drop_last ids

unfoldable pub forget_lost : String → Master → Ran
forget_lost id s = ended (record s {
  worker_lost_handling = delete id s.worker_lost_handling;
  lost_worker_ids = splice_index_of id s.lost_worker_ids;
})

unfoldable pub handle_remaining : String → ℕ → Option Remaining → Master → Ran
handle_remaining id now none s = thrown type_error s
handle_remaining id now (some r) s =
    delegate_all (due_jobs run_timeout_scheduler now r.request_timeout) s
    >>= delegate_all (due_jobs continue_callback_with_retry now r.callback)
    >>= delegate_all (mq_jobs r.mq)
    >>= forget_lost id

unfoldable pub handle_lost_worker_remaining_tasks : String → ℕ → Master → Ran
handle_lost_worker_remaining_tasks id now s =
    handle_remaining id now (get id s.worker_lost_handling) s
