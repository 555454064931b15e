-- ===== src/Mq/SendController.antt =====
-- mq-server/src/mq_module/mq_send_controller.js: the sending logic and the socket pool put together.
-- What the logic emits is handled at once, so a method runs the logic and then handles its events.
pub mod Books
pub mod Sending
pub mod Steps
mod Tests
use ndidplatform_api.Base.{
  ℕ, suc, String, Bool, Option, none, some, List, [], ◌∷◌, ◌++◌, map, if◌then◌else◌, ◌==◌,
  string_eq, get, put, delete,
}
use ndidplatform_api.Mq.Logic.{
  MqLogic, Dest, Payload, Config, Result, ok, err, performs_clean_up, performs_send,
  performs_total_timeout, retries_send,
}
use ndidplatform_api.Mq.Logic
use ndidplatform_api.Mq.SendSocket.{SendSocket, Fault}
use ndidplatform_api.Mq.SendSocket
use ndidplatform_api.Mq.Protocol.{
  Codec, ProtocolMessage, Extracted, message, version_mismatch, malformed, generate_send_msg,
  extract_msg,
}

-- What a controller is made with: the settings, the coding of messages, `ip:port` of a destination,
-- and the id that a socket opened for a sequence number gets.
pub record Env : Type 0 where
  pub max_messages_per_socket : ℕ
  pub sender_id : String
  pub codec : Codec
  pub dest_key : Dest → String
  pub socket_id : ℕ → String

-- A callback is the number by which its caller knows it.
pub record MqSend : Type 0 where
  pub logic : MqLogic
  pub socket : SendSocket
  pub callbacks_after_ack : List (String × ℕ)

unfoldable pub new : Config → MqSend
new c = record {
  logic = Logic.new (record c { id = none });
  socket = SendSocket.new;
  callbacks_after_ack = [];
}

pub data Output : Type 0 where
  on_socket : SendSocket.Event → Output
  retry_send : String → ℕ → Output
  mq_send_timeout : String → Output
  mq_send_clean_up_error : Fault → Output
  calls_back : ℕ → Output
  ack_received : String → Output
  throws : Output

-- `_cleanUp` catches what the socket throws.
unfoldable pub clean_up_error : Option Fault → List Output
clean_up_error none = []
clean_up_error (some f) = mq_send_clean_up_error f ∷ []

send_on_socket : Env → Dest → Option (List ℕ) → String → ℕ → SendSocket → SendSocket × List Output
send_on_socket e dest none m seq s = (s, throws ∷ [])
send_on_socket e dest (some bytes) m seq s =
    let (s', events) =
      SendSocket.send e.max_messages_per_socket (e.dest_key dest) bytes m seq (e.socket_id seq) s in
    (s', map on_socket events)

-- The handlers of the logic's events.
unfoldable pub handle : Env → Logic.Event → SendSocket → SendSocket × List Output
unfolding send_on_socket
handle e (performs_send id dest payload m seq) s =
    send_on_socket e dest (generate_send_msg e.codec e.sender_id payload m seq) m seq s
handle e (performs_clean_up m seq) s =
    let (s', events, fault) = SendSocket.clean_up m s in
    (s', map on_socket events ++ clean_up_error fault)
handle e (retries_send id m n) s = (s, retry_send m n ∷ [])
handle e (performs_total_timeout id m) s = (s, mq_send_timeout m ∷ [])

unfoldable pub handle_all : Env → List Logic.Event → SendSocket → SendSocket × List Output
handle_all e [] s = (s, [])
handle_all e (event ∷ events) s =
    let (s', out) = handle e event s in
    let (s'', more) = handle_all e events s' in (s'', out ++ more)

-- The logic has moved on; its events are handled.
unfoldable pub emitted : Env → MqLogic × List Logic.Event → MqSend → MqSend × List Output
emitted e (l, events) s =
    let (socket, out) = handle_all e events s.socket in
    (record s { logic = l; socket = socket }, out)

unfoldable pub stop_send : Env → String → MqSend → MqSend × List Output
stop_send e m s = emitted e (Logic.clean_up m s.logic) s

-- The runtime calls the logic's timer `i`.
unfoldable pub timer : Env → ℕ → MqSend → MqSend × List Output
timer e i s = emitted e (Logic.fire i s.logic) s

with_callback : String → Option ℕ → MqSend → MqSend
with_callback m none s = s
with_callback m (some callback) s = record s {
  callbacks_after_ack = put m callback s.callbacks_after_ack;
}

sent : Env → Result (MqLogic × List Logic.Event) → MqSend → MqSend × List Output
sent e (ok r) s = emitted e r s
sent e (err f) s = (s, throws ∷ [])

-- `send`: the callback is kept before the logic looks at the payload.
unfoldable pub send : Env → Dest → Payload → String → Option ℕ → MqSend → MqSend × List Output
unfolding with_callback sent
send e dest payload m callback s =
    let s' = with_callback m callback s in
    if m == "" then (s, throws ∷ []) else sent e (Logic.send dest payload m s.logic) s'

run_callback : String → Option ℕ → MqSend → MqSend × List Output
run_callback m none s = (s, [])
run_callback m (some callback) s =
    (record s { callbacks_after_ack = delete m s.callbacks_after_ack }, calls_back callback ∷ [])

acknowledge : Env → String → MqSend → MqSend × List Output
acknowledge e m s =
    let (s1, out) = stop_send e m s in
    let (s2, called) = run_callback m (get m s1.callbacks_after_ack) s1 in
    (s2, out ++ called ++ ack_received m ∷ [])

on_extracted : Env → Extracted → MqSend → MqSend × List Output
on_extracted e (message msg) s = acknowledge e msg.msg_id s
on_extracted e (version_mismatch expected got) s = (s, throws ∷ [])
on_extracted e malformed s = (s, throws ∷ [])

-- A buffer comes back on a socket: an acknowledgement.
unfoldable pub on_message : Env → List ℕ → MqSend → MqSend × List Output
unfolding on_extracted acknowledge run_callback
on_message e buffer s = on_extracted e (extract_msg e.codec buffer) s

-- `closeAll`: the number of sockets closed is returned.
unfoldable pub close_all : MqSend → MqSend × List Output × ℕ
close_all s =
    let (socket, events, closed) = SendSocket.close_all s.socket in
    (
      record s { logic = Logic.stop_all_retries s.logic; socket = socket },
      map on_socket events,
      closed,
    )
