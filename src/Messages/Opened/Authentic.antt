-- ===== src/Messages/Opened/Authentic.antt =====
-- What `processRawMessage` of main-server/src/mq/index.js makes sure of.
use ndidplatform_api.Base.{
  String, ◌≡◌, refl, subst, ap, ◌∙◌, Bool, true, false, Option, none, some, not, nat_eq, string_eq,
  arith,
}
use ndidplatform_api.Base.Checked.{passed, refuse_if, need, then_passed, refuse_if_lem, passed_inj}
use package.ndidplatform_api.Messages.Opened.{
  Message, MqMessage, Library, Node, Error, get_message_from_protobuf_message, check_version,
  check_signature, sender_of, check_message, inner_of, process_raw_message,
}

-- A message is signed by a node with a key: the blockchain has the key for the node, and it verifies.
abbrev pub IsSignedBy : {B : Type 0} → Library B → Node → Option B → B → String → String → Type 0
IsSignedBy l d signature text key node =
    (d.get_node_pub_key node ≡ some key) × (l.verify_signature signature key text ≡ some true)

need_lem : {A : Type 0} (o : Option A) (f : Error) {a : A} → need o f ≡ passed a → o ≡ some a
need_lem none f h = cc
need_lem (some x) f h = ground arith

holds_if : (b : Bool) → not b ≡ false → b ≡ true
holds_if true h = refl
holds_if false h = cc

check_signature_lem :
    {B : Type 0} (l : Library B) (d : Node) (signature : Option B) (node : String) (text : B)
    → check_signature l d signature node text ≡ passed tt
    → (key : String) × IsSignedBy l d signature text key node
unfolding check_signature
check_signature_lem l d signature node text h =
    then_passed (need (d.get_node_pub_key node) _) _ h λ key k rest.
      then_passed (need (l.verify_signature signature key text) _) _ rest λ valid v last. (
        key,
        (
          need_lem (d.get_node_pub_key node) _ k,
          need_lem (l.verify_signature signature key text) _ v
              ∙ ap some (holds_if valid (refuse_if_lem (not valid) _ last)),
        ),
      )

-- What stands behind a message: its sender, with a key from the blockchain that verifies the signature
-- of the buffer that the message was decoded from; and it fits its schema.
pub record IsAuthentic {B : Type 0} (l : Library B) (d : Node) (m : Message) : Type 0 where
  pub node : String
  pub sent_by : sender_of m ≡ some node
  pub key : String
  pub message_type : String
  pub buffer : B
  pub signature : B
  pub decoded : l.deserialize message_type buffer ≡ some m
  pub signed : IsSignedBy l d (some signature) buffer key node
  pub valid : l.is_valid m ≡ true

check_message-IsAuthentic :
    {B : Type 0} (l : Library B) (d : Node) (q : MqMessage B) (m : Message)
    → check_message l d q ≡ passed m
    → IsAuthentic l d m
unfolding check_message
check_message-IsAuthentic l d q m h = then_passed (need q.message _) _ h λ buffer b h1.
    then_passed (need q.signature _) _ h1 λ signature s h2.
      then_passed (need (l.deserialize q.message_type buffer) _) _ h2 λ message e h3.
        then_passed (need (sender_of message) _) _ h3 λ node n h4.
          then_passed (check_signature l d (some signature) node buffer) _ h4 λ u c h5.
            then_passed (refuse_if (not (l.is_valid message)) _) _ h5 λ w v h6.
              let same : message ≡ m = passed_inj message m h6 in
              let signed = check_signature_lem l d (some signature) node buffer c in
              subst (IsAuthentic l d) same (record {
                node = node;
                sent_by = need_lem (sender_of message) _ n;
                key = signed.0;
                message_type = q.message_type;
                buffer = buffer;
                signature = signature;
                decoded = need_lem (l.deserialize q.message_type buffer) _ e;
                signed = signed.1;
                valid = holds_if (l.is_valid message) (refuse_if_lem _ _ v);
              })

-- A message that `processRawMessage` returns is authentic: the node that it names as its sender has a
-- key on the blockchain that verifies the signature of the buffer it was decoded from, and it fits its
-- schema.
pub process_raw_message-IsAuthentic :
    {B : Type 0} (l : Library B) (d : Node) (raw : B) (m : Message) (receiver : String)
    → process_raw_message l d raw ≡ passed (m, receiver)
    → IsAuthentic l d m
unfolding process_raw_message
process_raw_message-IsAuthentic l d raw m receiver h =
    then_passed (get_message_from_protobuf_message l raw d.node_id) _ h λ outer o h1.
      then_passed (check_version outer) _ h1 λ u v h2.
        then_passed (inner_of l d outer) _ h2 λ inner i h3.
          then_passed (check_message l d inner.0) _ h3 λ message c h4.
            then_passed (refuse_if (not (d.add_message message)) _) _ h4 λ w a h5.
              subst (IsAuthentic l d)
                (ap (λ (p : Message × String). p.0)
                  (passed_inj (message, inner.1) (m, receiver) h5))
                (check_message-IsAuthentic l d inner.0 message c)
