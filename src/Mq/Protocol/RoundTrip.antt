-- ===== src/Mq/Protocol/RoundTrip.antt =====
-- A message and its acknowledgement, over the wire and back.
use ndidplatform_api.Base.{ℕ, String, ◌≡◌, refl, some, List, [], nat_eq}
use ndidplatform_api.Mq.Protocol.{
  ProtocolMessage, Codec, message, protocol_version, generate_send_msg, generate_ack_msg,
  extract_msg, emits_message, on_message,
}

abbrev sent_as : String → List ℕ → String → ℕ → ProtocolMessage
sent_as sender payload msg_id seq_id = record {
  version = protocol_version;
  msg_id = msg_id;
  seq_id = seq_id;
  message = payload;
  sender_id = sender;
}

-- If decoding undoes encoding: what a sender codes, a receiver reads, with payload and ids as they
-- were; and its acknowledgement, read by the sender, names that message and sequence number.
pub acknowledged :
    (c : Codec)
    (decode-encode : (m : ProtocolMessage) (b : List ℕ) → c.encode m ≡ some b → c.decode b ≡ some m)
    (sender receiver : String) (payload : List ℕ) (msg_id : String) (seq_id : ℕ) (wire ack : List ℕ)
    → generate_send_msg c sender payload msg_id seq_id ≡ some wire
    → generate_ack_msg c receiver msg_id seq_id ≡ some ack
    → (on_message c receiver wire ≡ emits_message payload msg_id sender ack)
      × ((back : ProtocolMessage) × (extract_msg c ack ≡ message back)
          × (back.msg_id ≡ msg_id)
          × (back.seq_id ≡ seq_id)
          × (back.sender_id ≡ receiver))
unfolding generate_send_msg generate_ack_msg extract_msg on_message
acknowledged c decode-encode sender receiver payload msg_id seq_id wire ack sent acked = (
  rw (decode-encode _ wire sent) (rw acked refl),
  (sent_as receiver [] msg_id seq_id, rw (decode-encode _ ack acked) refl, refl, refl, refl),
)
