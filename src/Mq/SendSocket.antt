-- ===== src/Mq/SendSocket.antt =====
-- mq-server/src/mq_module/mq_send_socket.js: the pool of sockets that messages are sent through.
-- A socket is the id that `_init` draws for it; `count` and `max_conn` are the module's variables.
-- A throw leaves the state as it is at that point, so a method returns it beside the fault.
pub mod Invariant
pub mod Keep
pub mod Close
pub mod Clean
pub mod Attach
pub mod Send
pub mod Messages
use ndidplatform_api.Base.{
  ℕ, suc, ◌+◌, ◌-◌, String, Bool, true, false, Option, none, some, List, [], ◌∷◌, ◌++◌, length,
  if◌then◌else◌, ◌==◌, ltb, nat_eq, string_eq, get, put, delete, is_nil, includes, remove_first,
}

pub record SendSocket : Type 0 where
  pub socket_map : List (ℕ × String)
  pub socket_used_by : List (String × List ℕ)
  pub socket_dest_map : List (String × String)
  pub socket_list_by_dest : List (String × List String)
  pub seq_id_list : List (String × List ℕ)
  pub count : ℕ
  pub max_conn : ℕ

unfoldable pub new : SendSocket
new = record {
  socket_map = [];
  socket_used_by = [];
  socket_dest_map = [];
  socket_list_by_dest = [];
  seq_id_list = [];
  count = 0;
  max_conn = 0;
}

pub data Event : Type 0 where
  opens : String → String → Event
  new_socket_connection : ℕ → Event
  sends : String → List ℕ → Event
  closes : String → Event
  socket_connection_closed : ℕ → Event

-- Reading a property of `undefined`, and the code's own throw.
pub data Fault : Type 0 where
  type_error something_is_wrong : Fault

abbrev pub Outcome : Type 0
Outcome = SendSocket × List Event × Option Fault

abbrev pub list_or_empty {ℓ} : {A : Type ℓ} → Option (List A) → List A
list_or_empty none = []
list_or_empty (some xs) = xs

-- Whether a socket takes one more message.
abbrev pub has_room : ℕ → Option (List ℕ) → Bool
has_room max none = false
has_room max (some seqs) = ltb (length seqs) max

-- The first socket of a destination that takes one more.
unfoldable pub find_socket : ℕ → List (String × List ℕ) → List String → Option String
find_socket max used [] = none
find_socket max used (i ∷ is) =
    if has_room max (get i used) then some i else find_socket max used is

-- `fresh` is the id that a new socket gets.
unfoldable pub choose_socket :
    Option String → String → String → SendSocket → SendSocket × String × List Event
choose_socket (some i) dest_key fresh s = (s, i, [])
choose_socket none dest_key fresh s = (
  record s {
    socket_dest_map = put fresh dest_key s.socket_dest_map;
    count = suc s.count;
    max_conn = if ltb s.max_conn (suc s.count) then suc s.count else s.max_conn;
    socket_list_by_dest =
        put dest_key (list_or_empty (get dest_key s.socket_list_by_dest) ++ fresh ∷ [])
          s.socket_list_by_dest;
  },
  fresh,
  opens fresh dest_key ∷ new_socket_connection (suc s.count) ∷ [],
)

-- The first lines of `send`: the message's list of sequence numbers, the destination's of sockets.
unfoldable pub register : String → ℕ → String → SendSocket → SendSocket
register m seq dest_key s = record s {
  seq_id_list = put m (list_or_empty (get m s.seq_id_list) ++ seq ∷ []) s.seq_id_list;
  socket_list_by_dest =
      put dest_key (list_or_empty (get dest_key s.socket_list_by_dest)) s.socket_list_by_dest;
}

unfoldable pub attach : ℕ → String → SendSocket → SendSocket
attach seq i s = record s {
  socket_used_by = put i (list_or_empty (get i s.socket_used_by) ++ seq ∷ []) s.socket_used_by;
  socket_map = put seq i s.socket_map;
}

-- `send`, with `maxConcurrentMessagesPerMqSocket`, the key `ip:port` of the destination, and the id
-- that a new socket would get.
unfoldable pub send :
    ℕ → String → List ℕ → String → ℕ → String → SendSocket → SendSocket × List Event
unfolding register
send max dest_key payload m seq fresh s =
    let s1 = register m seq dest_key s in
    let found =
      find_socket max s1.socket_used_by (list_or_empty (get dest_key s1.socket_list_by_dest)) in
    let (s2, i, events) = choose_socket found dest_key fresh s1 in
    (attach seq i s2, events ++ sends i payload ∷ [])

drop_from_list : String → String → Option (List String) → SendSocket → SendSocket × Option Fault
drop_from_list i dest_key none s = (s, some type_error)
drop_from_list i dest_key (some is) s =
    if includes i is
    then (
      record s {
        socket_list_by_dest =
            if is_nil (remove_first i is)
            then delete dest_key s.socket_list_by_dest
            else put dest_key (remove_first i is) s.socket_list_by_dest;
        socket_dest_map = delete i s.socket_dest_map;
      },
      none,
    )
    else (s, some something_is_wrong)

drop_socket : String → Option String → SendSocket → SendSocket × Option Fault
drop_socket i none s = (s, some type_error)
drop_socket i (some dest_key) s = drop_from_list i dest_key (get dest_key s.socket_list_by_dest) s

-- The socket's last message is done: the socket is closed and taken out of the books.
unfoldable pub close_socket : String → SendSocket → Outcome
unfolding drop_socket drop_from_list
close_socket i s =
    let (s', fault) =
      drop_socket i (get i s.socket_dest_map)
        (record s { count = s.count - 1; socket_used_by = delete i s.socket_used_by }) in
    (s', closes i ∷ socket_connection_closed (s.count - 1) ∷ [], fault)

unfoldable pub forget_seq : ℕ → Outcome → Outcome
forget_seq seq (s, events, none) = (record s { socket_map = delete seq s.socket_map }, events, none)
forget_seq seq (s, events, some f) = (s, events, some f)

unfoldable pub release : ℕ → String → Option (List ℕ) → SendSocket → Outcome
release seq i none s = (s, [], some type_error)
release seq i (some seqs) s =
    let rest = remove_first seq seqs in
    let s' = record s { socket_used_by = put i rest s.socket_used_by } in
    if includes seq seqs
    then forget_seq seq (if is_nil rest then close_socket i s' else (s', [], none))
    else (s, [], some something_is_wrong)

release_from : ℕ → Option String → SendSocket → Outcome
release_from seq none s = (s, [], some type_error)
release_from seq (some i) s = release seq i (get i s.socket_used_by) s

-- `_cleanUp`.
unfoldable pub clean_up_seq : ℕ → SendSocket → Outcome
unfolding release_from
clean_up_seq seq s = release_from seq (get seq s.socket_map) s

-- What comes after, unless there was a throw.
unfoldable pub and_then : Outcome → (SendSocket → Outcome) → Outcome
and_then (s, events, none) next = let (s', more, fault) = next s in (s', events ++ more, fault)
and_then (s, events, some f) next = (s, events, some f)

-- The `forEach` of `cleanUp`.
unfoldable pub clean_up_seqs : List ℕ → SendSocket → Outcome
clean_up_seqs [] s = (s, [], none)
clean_up_seqs (seq ∷ seqs) s = and_then (clean_up_seq seq s) (λ s'. clean_up_seqs seqs s')

-- `delete this.seqIdList[msgId]`.
unfoldable pub forget_message : String → SendSocket → Outcome
forget_message m s = (record s { seq_id_list = delete m s.seq_id_list }, [], none)

clean_up_of : String → Option (List ℕ) → SendSocket → Outcome
clean_up_of m none s = (s, [], none)
clean_up_of m (some seqs) s = and_then (clean_up_seqs seqs s) (forget_message m)

-- `cleanUp`; its second argument is not used.
unfoldable pub clean_up : String → SendSocket → Outcome
unfolding clean_up_of
clean_up m s = clean_up_of m (get m s.seq_id_list) s

close_each : List (ℕ × String) → List Event
close_each [] = []
close_each ((seq, i) ∷ m) = closes i ∷ close_each m

-- `closeAll`: each entry's socket is closed; the number of entries is returned.
unfoldable pub close_all : SendSocket → SendSocket × List Event × ℕ
unfolding close_each
close_all s = (record s { socket_map = [] }, close_each s.socket_map, length s.socket_map)
