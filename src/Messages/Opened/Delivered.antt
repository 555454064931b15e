-- ===== src/Messages/Opened/Delivered.antt =====
-- That what `send` seals is opened by `processRawMessage`, in main-server/src/mq/index.js.
use ndidplatform_api.Base.{
  ℕ, String, ◌≡◌, refl, true, false, Option, none, some, ◌==◌, ==_refl, nat_eq, string_eq,
}
use ndidplatform_api.Base.Checked.{passed}
use package.ndidplatform_api.Messages.Opened.{
  Message, MqMessage, Library, Node, Proxy, Receiver, mq_message_version, signed_message, seal,
  proxy_message, wrap_for, payload, get_message_from_protobuf_message, check_version,
  check_signature, buffer_of, unwrap, or_id, sender_of, check_message, inner_of,
  process_raw_message,
}

-- A message with all its fields.
abbrev pub filled : {B : Type 0} → ℕ → String → B → B → String → String → MqMessage B
filled v t b s r n = record {
  version = v;
  message_type = t;
  message = some b;
  signature = some s;
  receiver_node_id = r;
  sender_node_id = n;
}

-- Protobuf, encryption and signatures undo themselves, for nodes with their keys.
pub record IsLibrary {B : Type 0} (l : Library B) (key_of : String → String) : Type 0 where
  pub encrypted : (e : B × B) → l.decode_encrypted (l.encode_encrypted e) ≡ some e
  pub coded :
      (v : ℕ) (t : String) (b s : B) (r n : String)
      → l.decode_message (l.encode_message (filled v t b s r n)) ≡ some (filled v t b s r n)
  pub decrypted :
      (n : String) (b : B)
      → l.decrypt_asymetric_key n (l.encrypt_asymetric_key (key_of n) b) ≡ some b
  pub verified :
      (n : String) (t : B)
      → l.verify_signature (some (l.create_signature n t)) (key_of n) t ≡ some true

-- The node is the receiver, or the receiver's proxy.
abbrev pub Reaches : (String → String) → Node → Receiver → Option Proxy → Type 0
Reaches key_of d r none = (d.is_proxy ≡ false) × (d.node_id ≡ r.node_id)
Reaches key_of d r (some p) =
    (d.is_proxy ≡ true)
    × (d.node_id ≡ p.node_id)
    × (p.public_key ≡ key_of p.node_id)
    × ((r.node_id == "") ≡ false)

version_passes :
    {B : Type 0} (m : MqMessage B) → m.version ≡ mq_message_version → check_version m ≡ passed tt
unfolding check_version
version_passes m e = rw (e, ==_refl mq_message_version) refl

module _ {B : Type 0} (l : Library B) (key_of : String → String) (laws : IsLibrary l key_of) where
  open_seal :
      (n : String) (v : ℕ) (t : String) (b s : B) (r c : String)
      → get_message_from_protobuf_message l (seal l (key_of n) (filled v t b s r c)) n
        ≡ passed (filled v t b s r c)
  unfolding get_message_from_protobuf_message seal
  open_seal n v t b s r c =
      rw
        (
          laws.encrypted
              (l.encrypt_asymetric_key (key_of n) (l.encode_message (filled v t b s r c))),
          laws.decrypted n (l.encode_message (filled v t b s r c)),
          laws.coded v t b s r c,
        )
        refl

  check_signature_passes :
      (d : Node) (n : String) (t : B)
      → d.get_node_pub_key n ≡ some (key_of n)
      → check_signature l d (some (l.create_signature n t)) n t ≡ passed tt
  unfolding check_signature
  check_signature_passes d n t k = rw (k, laws.verified n t) refl

  check_message_passes :
      (d : Node) (m : Message) (sender : String)
      → d.get_node_pub_key sender ≡ some (key_of sender)
      → sender_of m ≡ some sender
      → l.is_valid m ≡ true
      → l.deserialize (l.serialize m).0 (l.serialize m).1 ≡ some m
      → check_message l d (signed_message l sender m) ≡ passed m
  unfolding check_message signed_message
  check_message_passes d m sender k from v e =
      rw (e, from, check_signature_passes d sender (l.serialize m).1 k, v) refl

  unwrap_passes :
      (c d : Node) (m : Message) (sender receiver : String)
      → d.get_node_pub_key c.node_id ≡ some (key_of c.node_id)
      → (receiver == "") ≡ false
      → (c.node_id == "") ≡ false
      → unwrap l d
          (proxy_message l c receiver (seal l (key_of receiver) (signed_message l sender m)))
        ≡ passed (signed_message l sender m, receiver)
  unfolding unwrap proxy_message buffer_of signed_message
  unwrap_passes c d m sender receiver k r n =
      let sealed = seal l (key_of receiver) (signed_message l sender m) in
      rw
        (
          r,
          n,
          check_signature_passes d c.node_id (l.string_to_verify (l.hash sealed) receiver c.node_id)
              k,
          open_seal receiver mq_message_version (l.serialize m).0 (l.serialize m).1
              (l.create_signature sender (l.serialize m).1) "" "",
          version_passes (signed_message l sender m) refl,
        )
        refl

  open_signed :
      (n : String) (m : Message) (sender : String)
      → get_message_from_protobuf_message l (seal l (key_of n) (signed_message l sender m)) n
        ≡ passed (signed_message l sender m)
  unfolding signed_message
  open_signed n m sender =
      open_seal n mq_message_version (l.serialize m).0 (l.serialize m).1
        (l.create_signature sender (l.serialize m).1) "" ""

  signed_version_passes :
      (m : Message) (sender : String) → check_version (signed_message l sender m) ≡ passed tt
  unfolding signed_message
  signed_version_passes m sender = version_passes (signed_message l sender m) refl

  open_proxy :
      (c : Node) (n receiver : String) (sealed : B)
      → get_message_from_protobuf_message l
          (seal l (key_of n) (proxy_message l c receiver sealed))
          n
        ≡ passed (proxy_message l c receiver sealed)
  unfolding proxy_message
  open_proxy c n receiver sealed =
      open_seal n mq_message_version "" sealed
        (l.create_signature c.node_id (l.string_to_verify (l.hash sealed) receiver c.node_id))
        receiver c.node_id

  proxy_version_passes :
      (c : Node) (receiver : String) (sealed : B)
      → check_version (proxy_message l c receiver sealed) ≡ passed tt
  unfolding proxy_message
  proxy_version_passes c receiver sealed = version_passes (proxy_message l c receiver sealed) refl

  inner_passes :
      (c d : Node) (m : Message) (sender : String) (r : Receiver) (o : Option Proxy)
      → Reaches key_of d r o
      → d.get_node_pub_key c.node_id ≡ some (key_of c.node_id)
      → (c.node_id == "") ≡ false
      → r.public_key ≡ key_of r.node_id
      → d.get_node_pub_key sender ≡ some (key_of sender)
      → sender_of m ≡ some sender
      → l.is_valid m ≡ true
      → l.deserialize (l.serialize m).0 (l.serialize m).1 ≡ some m
      → d.add_message m ≡ true
      → process_raw_message l d
          (wrap_for l c r.node_id (seal l r.public_key (signed_message l sender m)) o)
        ≡ passed (m, r.node_id)
  unfolding process_raw_message wrap_for inner_of check_message signed_message sender_of or_id
      check_signature unwrap
  inner_passes c d m sender r none reach kc n key k from v e a =
      rw
        (
          key,
          reach.1,
          open_signed r.node_id m sender,
          signed_version_passes m sender,
          reach.0,
          check_message_passes d m sender k from v e,
          a,
        )
        refl
  inner_passes c d m sender r (some p) reach kc n key k from v e a =
      let sealed = seal l (key_of r.node_id) (signed_message l sender m) in
      rw
        (
          key,
          reach.1,
          reach.2,
          open_proxy c p.node_id r.node_id sealed,
          proxy_version_passes c r.node_id sealed,
          reach.0,
          unwrap_passes c d m sender r.node_id kc reach.3 n,
          check_message_passes d m sender k from v e,
          a,
        )
        refl

  -- What a node sends, the receiver takes, by itself or through its proxy: if protobuf, encryption and
  -- signatures undo themselves, the receiver's keys are those the sender has for it, the blockchain has
  -- the public keys of the sending node and of the node that the message names as its sender, the ids
  -- of the sending node and, behind a proxy, of the receiver are not empty, and the message fits its
  -- schema, is what its own coding decodes to and can be added to the receiver's log of messages, then
  -- `processRawMessage` opens the payload that `send` makes and returns the message as it was, for its
  -- receiver.
  pub send_delivers :
      (c d : Node) (m : Message) (sender : String) (r : Receiver)
      → Reaches key_of d r r.proxy
      → d.get_node_pub_key c.node_id ≡ some (key_of c.node_id)
      → (c.node_id == "") ≡ false
      → r.public_key ≡ key_of r.node_id
      → d.get_node_pub_key sender ≡ some (key_of sender)
      → sender_of m ≡ some sender
      → l.is_valid m ≡ true
      → l.deserialize (l.serialize m).0 (l.serialize m).1 ≡ some m
      → d.add_message m ≡ true
      → process_raw_message l d (payload l c sender m r) ≡ passed (m, r.node_id)
  unfolding payload
  send_delivers c d m sender r reach kc n key k from v e a =
      inner_passes c d m sender r r.proxy reach kc n key k from v e a
