-- ===== src/Mq/Protocol.antt =====
-- mq-server/src/mq_module/mq_protocol.js and mq_recv_controller.js: what is on the wire, and what a
-- receiver does with it. The protobuf library's coding of a message is a parameter.
pub mod RoundTrip
mod Tests
use ndidplatform_api.Base.{
  ℕ, String, Bool, Option, none, some, List, [], ◌∷◌, if◌then◌else◌, ◌==◌, nat_eq,
}

abbrev pub protocol_version : ℕ
protocol_version = 1

pub record ProtocolMessage : Type 0 where
  pub version : ℕ
  pub msg_id : String
  pub seq_id : ℕ
  pub message : List ℕ
  pub sender_id : String

-- `verify` and `encode` give none where `verify` complains; `decode` gives none where it throws.
pub record Codec : Type 0 where
  pub encode : ProtocolMessage → Option (List ℕ)
  pub decode : List ℕ → Option ProtocolMessage

pub data Extracted : Type 0 where
  message : ProtocolMessage → Extracted
  version_mismatch : (expected got : ℕ) → Extracted
  malformed : Extracted

unfoldable pub generate_send_msg : Codec → String → List ℕ → String → ℕ → Option (List ℕ)
generate_send_msg c sender payload msg_id seq_id = c.encode (record {
  version = protocol_version;
  msg_id = msg_id;
  seq_id = seq_id;
  message = payload;
  sender_id = sender;
})

unfoldable pub generate_ack_msg : Codec → String → String → ℕ → Option (List ℕ)
unfolding generate_send_msg
generate_ack_msg c sender msg_id seq_id = generate_send_msg c sender [] msg_id seq_id

checked_version : Option ProtocolMessage → Extracted
checked_version none = malformed
checked_version (some m) =
    if m.version == protocol_version then message m else version_mismatch protocol_version m.version

unfoldable pub extract_msg : Codec → List ℕ → Extracted
unfolding checked_version
extract_msg c bytes = checked_version (c.decode bytes)

-- What a receiver emits for a buffer that comes in: an error, or the message with its
-- acknowledgement ready. The handler throws where the acknowledgement cannot be coded.
pub data Received : Type 0 where
  mq_protocol_message_version_mismatch : (expected got : ℕ) → Received
  wrong_message_queue_protocol : Received
  emits_message : (payload : List ℕ) (msg_id sender_id : String) (ack : List ℕ) → Received
  throws : Received

ready : ProtocolMessage → Option (List ℕ) → Received
ready m none = throws
ready m (some ack) = emits_message m.message m.msg_id m.sender_id ack

on_extracted : Codec → String → Extracted → Received
on_extracted c own_id (version_mismatch expected got) =
    mq_protocol_message_version_mismatch expected got
on_extracted c own_id malformed = wrong_message_queue_protocol
on_extracted c own_id (message m) = ready m (generate_ack_msg c own_id m.msg_id m.seq_id)

unfoldable pub on_message : Codec → String → List ℕ → Received
unfolding on_extracted ready
on_message c own_id buffer = on_extracted c own_id (extract_msg c buffer)
