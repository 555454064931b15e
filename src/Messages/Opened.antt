-- ===== src/Messages/Opened.antt =====
-- How a message is sealed for its receiver and opened and checked there: `send` and `processRawMessage`
-- of main-server/src/mq/index.js. Buffers are of any type. Encryption, signatures, protobuf, schemas and
-- the coding of messages are a record of functions, and a function that may throw gives none then.
-- Of the log of messages the model has whether a message can be added.
mod Authentic
mod Delivered
mod Tests
use ndidplatform_api.Base.{
  ℕ, String, Bool, true, false, Option, none, some, if◌then◌else◌, ◌==◌, ◌||◌, not, nat_eq,
  string_eq, is_some,
}
use ndidplatform_api.Base.Checked.{Checked, refused, passed, ◌>>=◌, ◌>>◌, refuse_if, need}

pub record Message : Type 0 where
  pub message_type : String
  pub idp_id : Option String
  pub rp_id : Option String
  pub as_id : Option String
  pub content : String

-- Missing ids are empty, as protobuf decodes them.
pub record MqMessage (B : Type 0) : Type 0 where
  pub version : ℕ
  pub message_type : String
  pub message : Option B
  pub signature : Option B
  pub receiver_node_id : String
  pub sender_node_id : String

pub record Library (B : Type 0) : Type 0 where
  pub encode_encrypted : B × B → B
  pub decode_encrypted : B → Option (B × B)
  pub encode_message : MqMessage B → B
  pub decode_message : B → Option (MqMessage B)
  pub encrypt_asymetric_key : String → B → B × B
  pub decrypt_asymetric_key : String → B × B → Option B
  pub create_signature : String → B → B
  pub verify_signature : Option B → String → B → Option Bool
  -- The hash, receiver and sender that a proxy signs, put together.
  pub string_to_verify : String → String → String → B
  pub hash : B → String
  pub empty : B
  pub serialize : Message → String × B
  pub deserialize : String → B → Option Message
  pub is_valid : Message → Bool

-- A node, with the public keys that the blockchain has for it, and whether it can add a message to the
-- log of messages.
pub record Node : Type 0 where
  pub node_id : String
  pub is_proxy : Bool
  pub get_node_pub_key : String → Option String
  pub add_message : Message → Bool

pub record Proxy : Type 0 where
  pub node_id : String
  pub public_key : String

pub record Receiver : Type 0 where
  pub node_id : String
  pub public_key : String
  pub proxy : Option Proxy

pub data Error : Type 0 where
  decode_error : Error
  decrypt_message_error : Error
  mq_message_version_mismatch : Error
  malformed_message_format : Error
  query_failed : Error
  verification_failed : Error
  invalid_message_signature : Error
  message_from_unknown_node : Error
  invalid_message_schema : Error
  message_not_added : Error

unfoldable pub mq_message_version : ℕ
mq_message_version = 1

-- `a || b` for ids.
unfoldable pub or_id : Option String → Option String → Option String
or_id none b = b
or_id (some a) b = if a == "" then b else some a

unfoldable pub sender_of : Message → Option String
sender_of m = or_id (or_id m.idp_id m.rp_id) m.as_id

module _ {B : Type 0} where
  unfoldable pub signed_message : Library B → String → Message → MqMessage B
  signed_message l sender m = record {
    version = mq_message_version;
    message_type = (l.serialize m).0;
    message = some (l.serialize m).1;
    signature = some (l.create_signature sender (l.serialize m).1);
    receiver_node_id = "";
    sender_node_id = "";
  }

  unfoldable pub seal : Library B → String → MqMessage B → B
  seal l key m = l.encode_encrypted (l.encrypt_asymetric_key key (l.encode_message m))

  unfoldable pub proxy_message : Library B → Node → String → B → MqMessage B
  proxy_message l c receiver sealed = record {
    version = mq_message_version;
    message_type = "";
    message = some sealed;
    signature =
        some (l.create_signature c.node_id (l.string_to_verify (l.hash sealed) receiver c.node_id));
    receiver_node_id = receiver;
    sender_node_id = c.node_id;
  }

  unfoldable pub wrap_for : Library B → Node → String → B → Option Proxy → B
  wrap_for l c receiver sealed none = sealed
  wrap_for l c receiver sealed (some p) = seal l p.public_key (proxy_message l c receiver sealed)

  -- The payload that `send` makes for a receiver.
  unfoldable pub payload : Library B → Node → String → Message → Receiver → B
  payload l c sender m r =
      wrap_for l c r.node_id (seal l r.public_key (signed_message l sender m)) r.proxy

  unfoldable pub get_message_from_protobuf_message :
      Library B → B → String → Checked Error (MqMessage B)
  get_message_from_protobuf_message l buffer node = do
    encrypted ← need (l.decode_encrypted buffer) decode_error
    decrypted ← need (l.decrypt_asymetric_key node encrypted) decrypt_message_error
    need (l.decode_message decrypted) decode_error

  unfoldable pub check_version : MqMessage B → Checked Error (Unit {0})
  check_version m = refuse_if (not (m.version == mq_message_version)) mq_message_version_mismatch

  unfoldable pub check_signature :
      Library B → Node → Option B → String → B → Checked Error (Unit {0})
  check_signature l d signature node text = do
    key ← need (d.get_node_pub_key node) query_failed
    valid ← need (l.verify_signature signature key text) verification_failed
    refuse_if (not valid) invalid_message_signature

  -- A missing buffer is empty.
  unfoldable pub buffer_of : Library B → Option B → B
  buffer_of l none = l.empty
  buffer_of l (some b) = b

  -- The message in the proxy's layer, with its receiver.
  unfoldable pub unwrap : Library B → Node → MqMessage B → Checked Error (MqMessage B × String)
  unwrap l d outer = do
    refuse_if (outer.receiver_node_id == "" || outer.sender_node_id == "") malformed_message_format
    check_signature l d outer.signature outer.sender_node_id (
        l.string_to_verify (l.hash (buffer_of l outer.message)) outer.receiver_node_id
          outer.sender_node_id)
    inner ← get_message_from_protobuf_message l (buffer_of l outer.message) outer.receiver_node_id
    check_version inner
    passed (inner, outer.receiver_node_id)

  unfoldable pub check_message : Library B → Node → MqMessage B → Checked Error Message
  check_message l d m = do
    buffer ← need m.message malformed_message_format
    signature ← need m.signature malformed_message_format
    message ← need (l.deserialize m.message_type buffer) decode_error
    node ← need (sender_of message) message_from_unknown_node
    check_signature l d (some signature) node buffer
    refuse_if (not (l.is_valid message)) invalid_message_schema
    passed message

  unfoldable pub inner_of : Library B → Node → MqMessage B → Checked Error (MqMessage B × String)
  inner_of l d outer = if d.is_proxy then unwrap l d outer else passed (outer, d.node_id)

  unfoldable pub process_raw_message : Library B → Node → B → Checked Error (Message × String)
  process_raw_message l d raw = do
    outer ← get_message_from_protobuf_message l raw d.node_id
    check_version outer
    inner ← inner_of l d outer
    message ← check_message l d (inner.0)
    refuse_if (not (d.add_message message)) message_not_added
    passed (message, inner.1)
