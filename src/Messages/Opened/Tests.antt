-- ===== src/Messages/Opened/Tests.antt =====
-- A library without secrets, a message through a proxy, and the theorems about them.
use ndidplatform_api.Base.{
  ℕ, String, ◌≡◌, refl, ap, true, false, Option, none, some, Bool, if◌then◌else◌, ◌==◌, ==_refl,
  string_eq,
}
use ndidplatform_api.Base.Checked.{passed}
use package.ndidplatform_api.Messages.Opened.{
  Message, MqMessage, Library, Node, Receiver, payload, sender_of, or_id, process_raw_message,
}
use package.ndidplatform_api.Messages.Opened.Delivered.{IsLibrary, send_delivers}
use package.ndidplatform_api.Messages.Opened.Authentic.{
  IsAuthentic, process_raw_message-IsAuthentic,
}

data Wire : Type 0 where
  blank : Wire
  plain : String → Wire
  content_of : Message → Wire
  coded_as : ℕ → String → Wire → Wire → String → String → Wire
  locked : String → Wire → Wire
  joined : Wire → Wire → Wire
  signed_by : String → Wire → Wire

abbrev split_up : Wire → Option (Wire × Wire)
split_up (joined a b) = some (a, b)
split_up w = none

abbrev code : ℕ → String → Option Wire → Option Wire → String → String → Wire
code v t (some b) (some s) r n = coded_as v t b s r n
code v t b s r n = blank

abbrev decode : Wire → Option (MqMessage Wire)
decode (coded_as v t b s r n) = some (record {
  version = v;
  message_type = t;
  message = some b;
  signature = some s;
  receiver_node_id = r;
  sender_node_id = n;
})
decode w = none

abbrev unlock : String → Wire × Wire → Option Wire
unlock n (k, locked key b) = if key == n then some b else none
unlock n (k, w) = none

abbrev is_signed : Option Wire → String → Wire → Option Bool
is_signed (some (signed_by n t)) key text = some (key == n)
is_signed s key text = none

abbrev read : String → Wire → Option Message
read t (content_of m) = some m
read t w = none

abbrev open_library : Library Wire
open_library = record {
  encode_encrypted = λ e. joined e.0 e.1;
  decode_encrypted = split_up;
  encode_message =
      λ m. code m.version m.message_type m.message m.signature m.receiver_node_id m.sender_node_id;
  decode_message = decode;
  encrypt_asymetric_key = λ key b. (plain key, locked key b);
  decrypt_asymetric_key = unlock;
  create_signature = signed_by;
  verify_signature = is_signed;
  string_to_verify = λ h r s. plain h;
  hash = λ b. "hash";
  empty = blank;
  serialize = λ m. (m.message_type, content_of m);
  deserialize = read;
  is_valid = λ m. true;
}

abbrev own_id : String → String
own_id n = n

open_library-IsLibrary : IsLibrary open_library own_id
open_library-IsLibrary = record {
  encrypted = λ e. refl;
  coded = λ v t b s r n. refl;
  decrypted = λ n b. rw (==_refl n) refl;
  verified = λ n t. ap some (==_refl n);
}

abbrev rp : Node
rp = record {
  node_id = "rp1";
  is_proxy = false;
  get_node_pub_key = λ n. some n;
  add_message = λ m. true;
}

abbrev proxy : Node
proxy = record {
  node_id = "proxy1";
  is_proxy = true;
  get_node_pub_key = λ n. some n;
  add_message = λ m. true;
}

abbrev request : Message
request = record {
  message_type = "consent_request";
  idp_id = none;
  rp_id = some "rp1";
  as_id = none;
  content = "consent";
}

abbrev behind_proxy : Receiver
behind_proxy = record {
  node_id = "idp1";
  public_key = "idp1";
  proxy = some (record { node_id = "proxy1"; public_key = "proxy1" });
}

from_rp : sender_of request ≡ some "rp1"
unfolding sender_of or_id
from_rp = refl

send_delivers_example :
    process_raw_message open_library proxy (payload open_library rp "rp1" request behind_proxy)
    ≡ passed (request, "idp1")
send_delivers_example =
    send_delivers open_library own_id open_library-IsLibrary rp proxy request "rp1" behind_proxy
      (refl, refl, refl, refl) refl refl refl refl from_rp refl refl refl

process_raw_message-IsAuthentic_example : IsAuthentic open_library proxy request
process_raw_message-IsAuthentic_example =
    process_raw_message-IsAuthentic open_library proxy
      (payload open_library rp "rp1" request behind_proxy) request "idp1" send_delivers_example
