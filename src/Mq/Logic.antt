-- ===== src/Mq/Logic.antt =====
-- mq-server/src/mq_module/mq_logic.js: when a message is sent, sent again, and given up.
-- A method returns the new state and the events that it emits, in order. The timers that the
-- runtime holds for this object are the field `timers`; `fire` is the runtime calling one of them.
pub mod Invariant
pub mod CleanUp
pub mod Retry
pub mod Unacknowledged
mod Tests
use ndidplatform_api.Base.{
  ℕ, suc, ◌+◌, ◌*◌, String, ◌≡◌, Bool, true, false, Option, none, some, List, [], ◌∷◌, ◌++◌, map,
  if◌then◌else◌, ◌==◌, leb, nat_eq, string_eq, select, get, put, delete, is_some, not,
}

pub record Dest : Type 0 where
  pub ip : String
  pub port : ℕ

-- What a caller may hand over as a payload: `Buffer.isBuffer` tells the two apart.
pub data Payload : Type 0 where
  buffer : List ℕ → Payload
  other : Payload

pub record SeqEntry : Type 0 where
  pub seq_id : ℕ
  pub msg_id : String
  pub timer_id : ℕ

-- A pending `setTimeout(this._retry.bind(this), this.timeout, ...)` with its arguments.
pub record Timer : Type 0 where
  pub timer_id : ℕ
  pub dest : Dest
  pub payload : List ℕ
  pub msg_id : String
  pub seq_id : ℕ
  pub retry_count : ℕ

pub record MqLogic : Type 0 where
  pub timeout : ℕ
  pub total_timeout : ℕ
  pub max_seq_id : ℕ
  pub id : String
  pub seq_map : List (ℕ × SeqEntry)
  pub timers : List Timer
  pub next_timer_id : ℕ

pub record Config : Type 0 where
  pub total_timeout : Option ℕ
  pub timeout : Option ℕ
  pub id : Option String

pub data Event : Type 0 where
  performs_clean_up : String → ℕ → Event
  performs_send : String → Dest → List ℕ → String → ℕ → Event
  performs_total_timeout : String → String → Event
  retries_send : String → String → ℕ → Event

pub data Error : Type 0 where
  payload_not_buffer missing_msg_id : Error

pub data Result {ℓ} (A : Type ℓ) : Type ℓ where
  err : Error → Result A
  ok : A → Result A

-- `value || fallback` on a number that may be missing.
abbrev or_number : Option ℕ → ℕ → ℕ
or_number none d = d
or_number (some n) d = if n == 0 then d else n

abbrev or_text : Option String → String
or_text none = ""
or_text (some s) = s

unfoldable pub new : Config → MqLogic
new c = record {
  timeout = or_number c.timeout 30000;
  total_timeout = or_number c.total_timeout 120000;
  max_seq_id = 0;
  id = or_text c.id;
  seq_map = [];
  timers = [];
  next_timer_id = 0;
}

-- `clearTimeout`: a timer that has fired, or that never was, is no error.
unfoldable pub clear_timeout : ℕ → List Timer → List Timer
clear_timeout t ts = select (λ x. not (x.timer_id == t)) ts

-- The first loop of `_cleanUp`: the keys to delete, the timers cleared, the events.
unfoldable pub clean_up_loop :
    String → List (ℕ × SeqEntry) → List Timer → List ℕ × List Timer × List Event
clean_up_loop m [] ts = ([], ts, [])
clean_up_loop m ((key, value) ∷ entries) ts =
    let hit = value.msg_id == m in
    let (keys, ts', events) =
      clean_up_loop m entries (if hit then clear_timeout value.timer_id ts else ts) in
    if hit
    then (key ∷ keys, ts', performs_clean_up m value.seq_id ∷ events)
    else (keys, ts', events)

unfoldable pub delete_all : List ℕ → List (ℕ × SeqEntry) → List (ℕ × SeqEntry)
delete_all [] m = m
delete_all (k ∷ ks) m = delete_all ks (delete k m)

unfoldable pub clean_up : String → MqLogic → MqLogic × List Event
unfolding clean_up_loop clear_timeout delete_all
clean_up m s =
    let (keys, ts, events) = clean_up_loop m s.seq_map s.timers in
    (record s { seq_map = delete_all keys s.seq_map; timers = ts }, events)

unfoldable pub perform_send : Dest → List ℕ → String → ℕ → MqLogic → MqLogic × List Event
perform_send dest payload m retry_count s =
    let seq = suc s.max_seq_id in
    let timer : Timer = record {
      timer_id = s.next_timer_id;
      dest = dest;
      payload = payload;
      msg_id = m;
      seq_id = seq;
      retry_count = suc retry_count;
    } in
    let entry : SeqEntry = record { seq_id = seq; msg_id = m; timer_id = s.next_timer_id } in
    (
      record s {
        max_seq_id = seq;
        next_timer_id = suc s.next_timer_id;
        timers = s.timers ++ timer ∷ [];
        seq_map = put seq entry s.seq_map;
      },
      performs_send s.id dest payload m seq ∷ [],
    )

-- `retryCount >= this.maxRetries`, where `maxRetries` is the quotient `totalTimeout / timeout`,
-- which JavaScript does not round down.
unfoldable pub reached_max : MqLogic → ℕ → Bool
reached_max s retry_count = leb s.total_timeout (retry_count * s.timeout)

unfoldable pub retry : Timer → MqLogic → MqLogic × List Event
unfolding reached_max
retry t s =
    let (cleaned, clean_events) = clean_up t.msg_id s in
    let (sent, send_events) = perform_send t.dest t.payload t.msg_id t.retry_count s in
    if is_some (get t.seq_id s.seq_map)
    then (if reached_max s t.retry_count
        then (cleaned, clean_events ++ performs_total_timeout s.id t.msg_id ∷ [])
        else (sent, retries_send s.id t.msg_id t.retry_count ∷ send_events))
    else (s, [])

unfoldable pub find_timer : ℕ → List Timer → Option Timer
find_timer i [] = none
find_timer i (t ∷ ts) = if t.timer_id == i then some t else find_timer i ts

unfoldable pub fire_found : Option Timer → ℕ → MqLogic → MqLogic × List Event
fire_found none i s = (s, [])
fire_found (some t) i s = retry t (record s { timers = clear_timeout i s.timers })

-- The runtime calls the pending timer `i`; one that is not pending does nothing.
unfoldable pub fire : ℕ → MqLogic → MqLogic × List Event
unfolding fire_found
fire i s = fire_found (find_timer i s.timers) i s

send_buffer : Dest → Payload → String → MqLogic → Result (MqLogic × List Event)
send_buffer dest (buffer bytes) m s =
    if m == "" then err missing_msg_id else ok (perform_send dest bytes m 0 s)
send_buffer dest other m s = err payload_not_buffer

-- `send`: the payload is looked at first, then the message id.
unfoldable pub send : Dest → Payload → String → MqLogic → Result (MqLogic × List Event)
unfolding send_buffer
send dest payload m s = send_buffer dest payload m s

unfoldable pub clear_entries : List (ℕ × SeqEntry) → List Timer → List Timer
clear_entries [] ts = ts
clear_entries ((key, value) ∷ entries) ts = clear_entries entries (clear_timeout value.timer_id ts)

unfoldable pub stop_all_retries : MqLogic → MqLogic
unfolding clear_entries
stop_all_retries s = record s { timers = clear_entries s.seq_map s.timers }
