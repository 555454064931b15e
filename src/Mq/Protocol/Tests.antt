-- ===== src/Mq/Protocol/Tests.antt =====
-- The wire on a small coding: messages named "m" of the nodes A and B.
use ndidplatform_api.Base.{
  ℕ, ◌≡◌, refl, Bool, ◌&&◌, Option, none, some, List, [], ◌∷◌, if◌then◌else◌, ◌==◌, ==_iff, nat_eq,
  string_eq, arith,
}
use ndidplatform_api.Mq.Protocol.{
  ProtocolMessage, Codec, message, generate_send_msg, generate_ack_msg, extract_msg, emits_message,
  on_message,
}
use ndidplatform_api.Mq.Protocol.RoundTrip.{acknowledged}

abbrev named_m : ProtocolMessage → Bool
named_m m = m.version == 1 && m.msg_id == "m"

abbrev encode_small : ProtocolMessage → Option (List ℕ)
encode_small m =
    if named_m m && m.sender_id == "A"
    then some (0 ∷ m.seq_id ∷ m.message)
    else if named_m m && m.sender_id == "B"
    then some (1 ∷ m.seq_id ∷ m.message)
    else none

abbrev decode_small : List ℕ → Option ProtocolMessage
decode_small [] = none
decode_small (n ∷ []) = none
decode_small (n ∷ seq ∷ bytes) = some (record {
  version = 1;
  msg_id = "m";
  seq_id = seq;
  message = bytes;
  sender_id = if n == 0 then "A" else "B";
})

abbrev small : Codec
small = record { encode = encode_small; decode = decode_small }

decode_small-encode_small :
    (m : ProtocolMessage) (b : List ℕ) → small.encode m ≡ some b → small.decode b ≡ some m
decode_small-encode_small m b h =
    ground (
      arith,
      ==_iff m.version 1,
      ==_iff m.msg_id "m",
      ==_iff m.sender_id "A",
      ==_iff m.sender_id "B",
    )

acknowledged_example :
    (on_message small "B" (0 ∷ 7 ∷ 42 ∷ []) ≡ emits_message (42 ∷ []) "m" "A" (1 ∷ 7 ∷ []))
    × ((back : ProtocolMessage) × (extract_msg small (1 ∷ 7 ∷ []) ≡ message back)
        × (back.msg_id ≡ "m")
        × (back.seq_id ≡ 7)
        × (back.sender_id ≡ "B"))
unfolding generate_send_msg generate_ack_msg
acknowledged_example =
    acknowledged small decode_small-encode_small "A" "B" (42 ∷ []) "m" 7 (0 ∷ 7 ∷ 42 ∷ [])
      (1 ∷ 7 ∷ []) refl refl
