-- ===== src/Messages/Inbound.antt =====
-- Messages received from the message queue, in main-server/src/mq/index.js: `onMessage` with its memory
-- of ids against duplicates, the retries and the backlog of raw messages. Processing a message is an
-- event, and so are a timer that runs off, with the time, and a restart, which leaves the rows in the
-- cache DB only. In a worker process no message comes in. Rows are written and acknowledgements sent at once; the first row of a message may fail.
mod Remembered
mod Bounded
mod Duplicates
mod Saved
mod InHand
mod Kept
mod Faults
mod Tests
use ndidplatform_api.Base.{
  ℕ, ◌+◌, ◌-◌, String, Bool, true, Option, none, some, List, [], ◌∷◌, if◌then◌else◌, string_eq, get,
  put, delete, is_some, leb,
}

unfoldable pub mq_send_total_timeout : ℕ
mq_send_total_timeout = 600000

pub record Inbound : Type 0 where
  -- In a master process, whether a worker is available; in a standalone process, which needs none, true.
  pub has_worker : Bool
  -- Timers by message id, each with the time at which it runs off.
  pub timer : List (String × ℕ)
  -- In the cache DB: timeouts by message id, and messages that are not processed yet.
  pub duplicate_message_timeouts : List (String × ℕ)
  pub raw_messages : List (String × String)
  pub raw_messages_to_retry : List (String × String)
  -- Messages in `processRawMessage`.
  pub in_progress : List (String × String)
  -- What was acknowledged, given to `processRawMessageSwitch`, and processed, with success or an error.
  pub acknowledged : List (String × String)
  pub processed : List (String × String)
  pub finished : List (String × String)

unfoldable pub new : Inbound
new = record {
  has_worker = true;
  timer = [];
  duplicate_message_timeouts = [];
  raw_messages = [];
  raw_messages_to_retry = [];
  in_progress = [];
  acknowledged = [];
  processed = [];
  finished = [];
}

-- Without a worker the call throws, which its callers at most report: the message is not in progress.
unfoldable pub process_raw_message_switch : String → String → Inbound → Inbound
process_raw_message_switch id message s = record s {
  in_progress = if s.has_worker then put id message s.in_progress else s.in_progress;
  processed = (id, message) ∷ s.processed;
}

-- The id is remembered.
unfoldable pub remember : ℕ → String → Inbound → Inbound
remember now id s = record s {
  timer = put id (now + mq_send_total_timeout) s.timer;
  duplicate_message_timeouts = put id (now + mq_send_total_timeout) s.duplicate_message_timeouts;
}

unfoldable pub save_and_acknowledge : String → String → Inbound → Inbound
save_and_acknowledge id message s = record s {
  raw_messages = put id message s.raw_messages;
  acknowledged = (id, message) ∷ s.acknowledged;
}

-- Whether Tendermint and both databases can be reached is asked where it says `ready`.
unfoldable pub process_or_keep : String → String → Bool → Inbound → Inbound
process_or_keep id message ready s =
    if ready
    then process_raw_message_switch id message s
    else record s { raw_messages_to_retry = put id message s.raw_messages_to_retry }

unfoldable pub on_new_message : ℕ → String → String → Bool → Bool → Inbound → Inbound
on_new_message now id message saved ready s =
    if saved
    then process_or_keep id message ready (save_and_acknowledge id message (remember now id s))
    else remember now id s

unfoldable pub on_message : ℕ → String → String → Bool → Bool → Inbound → Inbound
on_message now id message saved ready s =
    if is_some (get id s.timer) then s else on_new_message now id message saved ready s

-- A timer's listener, once its time has come.
unfoldable pub forget : String → Inbound → Inbound
forget id s = record s {
  timer = delete id s.timer;
  duplicate_message_timeouts = delete id s.duplicate_message_timeouts;
}

unfoldable pub run_off : ℕ → String → Option ℕ → Inbound → Inbound
run_off now id none s = s
run_off now id (some time) s = if leb time now then forget id s else s

unfoldable pub process_each : List (String × String) → Inbound → Inbound
process_each [] s = s
process_each ((id, message) ∷ rest) s = process_each rest (process_raw_message_switch id message s)

-- All messages are handed over and taken out.
unfoldable pub retry_process_messages : Bool → Inbound → Inbound
retry_process_messages ready s =
    if ready
    then process_each s.raw_messages_to_retry (record s { raw_messages_to_retry = [] })
    else s

unfoldable pub load_and_process_backlog_messages : Inbound → Inbound
load_and_process_backlog_messages s = process_each s.raw_messages s

-- `processRawMessage` returns or throws: the row goes in either case.
unfoldable pub finish : String → Option String → Inbound → Inbound
finish id none s = s
finish id (some message) s = record s {
  in_progress = delete id s.in_progress;
  raw_messages = delete id s.raw_messages;
  finished = (id, message) ∷ s.finished;
}

-- One row as the server starts.
unfoldable pub init_timeout : ℕ → String → ℕ → Inbound → Inbound
init_timeout now id unix_timeout s =
    if leb now unix_timeout
    then record s { duplicate_message_timeouts = delete id s.duplicate_message_timeouts }
    else record s { timer = put id (now + (now - unix_timeout)) s.timer }

unfoldable pub init_each : ℕ → List (String × ℕ) → Inbound → Inbound
init_each now [] s = s
init_each now ((id, unix_timeout) ∷ rest) s =
    init_each now rest (init_timeout now id unix_timeout s)

unfoldable pub init_duplicate_inbound_message_timeout : ℕ → Inbound → Inbound
init_duplicate_inbound_message_timeout now s = init_each now s.duplicate_message_timeouts s

unfoldable pub restart : ℕ → Inbound → Inbound
restart now s =
    init_duplicate_inbound_message_timeout now
      (record s { timer = []; raw_messages_to_retry = []; in_progress = [] })

pub data Event : Type 0 where
  receives : ℕ → String → String → Bool → Bool → Event
  timer_fires : ℕ → String → Event
  is_ready : Bool → Event
  finishes : String → Event
  restarts : ℕ → Event
  loads_backlog : Event
  -- Workers are available, or no longer.
  workers_change : Bool → Event

unfoldable pub step : Event → Inbound → Inbound
step (receives now id message saved ready) s = on_message now id message saved ready s
step (timer_fires now id) s = run_off now id (get id s.timer) s
step (is_ready ready) s = retry_process_messages ready s
step (finishes id) s = finish id (get id s.in_progress) s
step (restarts now) s = restart now s
step loads_backlog s = load_and_process_backlog_messages s
step (workers_change available) s = record s { has_worker = available }

unfoldable pub run : List Event → Inbound → Inbound
run [] s = s
run (e ∷ es) s = run es (step e s)
