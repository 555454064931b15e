-- ===== src/Tasks/Queue.antt =====
-- main-server/src/core/request_process_manager.js: tasks of one request run one after another, in
-- the order in which they came; tasks of different requests run side by side.
-- The state holds the module's variables, the runtime's queue of `setImmediate` calls, and the tasks
-- that were handed to a function or a worker and have not come back. Each function below runs to its
-- end without interruption, as the code between two `await`s does.
pub mod Invariant
pub mod Order
pub mod Steps
pub mod Stale
mod Tests
use ndidplatform_api.Base.{
  ℕ, zero, suc, String, ◌≡◌, Bool, true, false, Option, none, some, List, [], ◌∷◌, ◌++◌,
  if◌then◌else◌, ◌==◌, nat_eq, string_eq, get, put, delete, is_some,
}
use ndidplatform_api.Tasks.Count.{ℤ, pos, increment, decrement, is_zero}

pub data Mode : Type 0 where
  standalone master worker : Mode

pub record Message : Type 0 where
  pub request_id : String
  pub chain_id : String
  pub height : ℕ

-- What tasks are called with: node and message ids, and messages.
pub data Arg : Type 0 where
  text : String → Arg
  message : Message → Arg

-- The function to call when a task is over, with its arguments.
pub data OnFinished : Type 0 where
  nothing : OnFinished
  release_lock : String → OnFinished
  release_lock_and_clean_up : String → String → OnFinished

pub record Task : Type 0 where
  pub node_id : String
  pub callback_fn_name : String
  pub callback_args : List Arg
  pub on_callback_finished : OnFinished
  pub start_time : ℕ

pub record Manager : Type 0 where
  pub mode : Mode
  -- In a master process, whether a worker is available.
  pub has_worker : Bool
  pub message_process_lock : List (String × Bool)
  pub request_queue : List (String × List Task)
  pub request_queue_running : List (String × Bool)
  pub stopping : Bool
  pub pending_tasks_count : ℤ
  pub processing_tasks_count : ℤ
  pub requests_count : ℤ
  pub immediates : List String
  pub in_flight : List (String × Task)

unfoldable pub new : Mode → Manager
new mode = record {
  mode = mode;
  has_worker = false;
  message_process_lock = [];
  request_queue = [];
  request_queue_running = [];
  stopping = false;
  pending_tasks_count = pos 0;
  processing_tasks_count = pos 0;
  requests_count = pos 0;
  immediates = [];
  in_flight = [];
}

-- Calls to the cache DB, and the event that `stop` waits for. What a failing DB call does beyond
-- its log entry is nothing.
pub data Effect : Type 0 where
  remove_first_task : String → Effect
  remove_all_tasks : String → Effect
  remove_message : String → String → Effect
  request_process_queue_empty : Effect

-- A thrown error that no caller catches.
pub data Fault : Type 0 where
  queue_missing unsupported_mode no_worker_available : Fault

pub record Outcome : Type 0 where
  pub state : Manager
  pub effects : List Effect
  pub fault : Option Fault

abbrev pub done : Manager → List Effect → Outcome
done s es = record { state = s; effects = es; fault = none }

abbrev pub fails : Manager → Fault → Outcome
fails s f = record { state = s; effects = []; fault = some f }

abbrev pub tasks_of : Option (List Task) → List Task
tasks_of none = []
tasks_of (some ts) = ts

unfoldable pub enqueue : String → Task → Manager → Manager
enqueue r task s = record s {
  request_queue = put r (tasks_of (get r s.request_queue) ++ task ∷ []) s.request_queue;
  requests_count =
      if is_some (get r s.request_queue) then s.requests_count else increment s.requests_count;
  pending_tasks_count = increment s.pending_tasks_count;
  immediates = s.immediates ++ r ∷ [];
}

-- What `addTaskToQueue` does once the task is saved in the cache DB.
unfoldable pub add_task : String → Task → Manager → Manager
unfolding enqueue
add_task r task s = if s.stopping then s else enqueue r task s

unfoldable pub clean_up_queue : String → Manager → Outcome
clean_up_queue r s =
    let count = decrement s.requests_count in
    done (record s { request_queue = delete r s.request_queue; requests_count = count })
      (remove_all_tasks r ∷ (if is_zero count then request_process_queue_empty ∷ [] else []))

-- The call of the task's function, or of a worker that is to call it, which throws without one.
unfoldable pub start : Mode → Bool → String → Task → Manager → Outcome
start worker available r task s = fails s unsupported_mode
start master false r task s = fails s no_worker_available
start mode available r task s = done (record s { in_flight = s.in_flight ++ (r, task) ∷ [] }) []

-- Whether `start` starts a task.
abbrev pub can_start : Mode → Bool → Bool
can_start standalone available = true
can_start master available = available
can_start worker available = false

pub take_first : Option (List Task) → String → Manager → Outcome
unfolding start clean_up_queue
take_first none r s = fails s queue_missing
take_first (some []) r s = clean_up_queue r s
take_first (some (task ∷ rest)) r s = start s.mode s.has_worker r task (record s {
  request_queue = put r rest s.request_queue;
  request_queue_running = put r true s.request_queue_running;
  pending_tasks_count = decrement s.pending_tasks_count;
  processing_tasks_count = increment s.processing_tasks_count;
})

unfoldable pub execute_task : String → Manager → Outcome
unfolding take_first
execute_task r s =
    if is_some (get r s.request_queue_running)
    then done s []
    else take_first (get r s.request_queue) r s

call_finished : OnFinished → Manager → Manager × List Effect
call_finished nothing s = (s, [])
call_finished (release_lock m) s =
    (record s { message_process_lock = delete m s.message_process_lock }, [])
call_finished (release_lock_and_clean_up node m) s = (
  record s { message_process_lock = delete m s.message_process_lock },
  remove_message node m ∷ [],
)

pub after_finished : Option (List Task) → String → List Effect → Manager → Outcome
unfolding clean_up_queue
after_finished none r es s = record { state = s; effects = es; fault = some queue_missing }
after_finished (some []) r es s =
    let o = clean_up_queue r s in done o.state (es ++ o.effects ++ remove_first_task r ∷ [])
after_finished (some (t ∷ ts)) r es s =
    done (record s { immediates = s.immediates ++ r ∷ [] }) (es ++ remove_first_task r ∷ [])

unfoldable pub on_task_execution_finished : String → OnFinished → Manager → Outcome
unfolding call_finished after_finished
on_task_execution_finished r f s =
    let (s', es) =
      call_finished f (record s { processing_tasks_count = decrement s.processing_tasks_count }) in
    after_finished (get r s'.request_queue) r es
      (record s' { request_queue_running = delete r s'.request_queue_running })

-- The runtime takes the oldest `setImmediate` call.
run_immediate : List String → Manager → Outcome
run_immediate [] s = done s []
run_immediate (r ∷ rs) s = execute_task r (record s { immediates = rs })

unfoldable pub tick : Manager → Outcome
unfolding run_immediate
tick s = run_immediate s.immediates s

finish_found : Option Task → String → Manager → Outcome
finish_found none r s = done s []
finish_found (some task) r s =
    on_task_execution_finished r task.on_callback_finished
      (record s { in_flight = delete r s.in_flight })

-- The task of the request that is in flight comes back, with success or with an error.
unfoldable pub finish : String → Manager → Outcome
unfolding finish_found
finish r s = finish_found (get r s.in_flight) r s

unfoldable pub stop : Manager → Manager
stop s = record s { stopping = true }
