-- ===== src/Request/Destinations.antt =====
-- `getIdpMQDestinations` of main-server/src/core/common/index.js: where a request's messages go.
use ndidplatform_api.Base.{
  ℕ, String, Bool, Option, none, some, List, [], ◌∷◌, if◌then◌else◌, ◌==◌, nat_eq, ◌||◌, false,
}
use ndidplatform_api.Base.Checked.{Checked, refused, passed, ◌>>=◌}

pub data Refusal : Type 0 where
  missing_node_id : Refusal
  unsupported_mode : Refusal
  duplicate_reference_id : Refusal
  data_url_base64_must_not_contain_whitespaces : Refusal
  idp_list_less_than_min_idp : Refusal
  idp_id_list_needed : Refusal
  no_idp_found : Refusal
  unqualified_idp : Refusal
  not_enough_idp : Refusal
  duplicate_service_id : Refusal
  as_list_less_than_min_as : Refusal
  not_enough_as : Refusal
  some_as_do_not_provide_service : Refusal
  condition_too_low : Refusal
  unqualified_as : Refusal
  type_error : Refusal
  query_failed : Refusal

pub record MqAddress : Type 0 where
  pub ip : String
  pub port : ℕ

pub record ProxyNode : Type 0 where
  pub node_id : String
  pub public_key : String
  pub mq : Option (List MqAddress)
  pub config : String

pub record IdpNode : Type 0 where
  pub node_id : String
  pub public_key : String
  pub proxy : Option ProxyNode
  pub mq : Option (List MqAddress)

pub data Route : Type 0 where
  direct : MqAddress → Route
  by_proxy : (node_id public_key config : String) → MqAddress → Route

pub record Receiver : Type 0 where
  pub node_id : String
  pub public_key : String
  pub route : Route

-- What `getIdpNodesInfo` is asked for.
pub record IdpQuery : Type 0 where
  pub namespace : Option String
  pub identifier : Option String
  pub min_ial : Option ℕ
  pub min_aal : ℕ
  pub node_id_list : List String
  pub supported_request_message_data_url_type_list : Option (List String)
  pub mode_list : Option (List ℕ)

-- What the caller gives.
pub record Wanted : Type 0 where
  pub namespace : Option String
  pub identifier : Option String
  pub min_ial : Option ℕ
  pub min_aal : ℕ
  pub idp_id_list : List String
  pub mode : Option ℕ
  pub supported_request_message_data_url_type_list : Option (List String)

-- `mq[0]`: null is no address, and an empty list has no `ip` to read.
unfoldable pub first_address : Option (List MqAddress) → Checked Refusal (Option MqAddress)
first_address none = passed none
first_address (some []) = refused type_error
first_address (some (a ∷ rest)) = passed (some a)

abbrev receiver_by : IdpNode → (MqAddress → Route) → Option MqAddress → Option Receiver
receiver_by node route none = none
receiver_by node route (some a) =
    some (record { node_id = node.node_id; public_key = node.public_key; route = route a })

destination_by : IdpNode → Option ProxyNode → Checked Refusal (Option Receiver)
destination_by node (some proxy) =
    (first_address proxy.mq >>= λ a.
    passed (receiver_by node (by_proxy proxy.node_id proxy.public_key proxy.config) a))
destination_by node none = first_address node.mq >>= λ a. passed (receiver_by node direct a)

unfoldable pub destination : IdpNode → Checked Refusal (Option Receiver)
unfolding destination_by
destination node = destination_by node node.proxy

abbrev pub add_if_any {ℓ} : {A : Type ℓ} → Option A → List A → List A
add_if_any none xs = xs
add_if_any (some x) xs = x ∷ xs

unfoldable pub destinations : List IdpNode → Checked Refusal (List Receiver)
destinations [] = passed []
destinations (node ∷ nodes) = do
  receiver ← destination node
  receivers ← destinations nodes
  passed (add_if_any receiver receivers)

abbrev pub is_mode_2_3 : Option ℕ → Bool
is_mode_2_3 none = false
is_mode_2_3 (some mode) = mode == 2 || mode == 3

abbrev pub mode_list_of : Option ℕ → Option (List ℕ)
mode_list_of none = none
mode_list_of (some mode) = if mode == 2 || mode == 3 then some (mode ∷ []) else none

unfoldable pub query_of : Wanted → IdpQuery
query_of w = record {
  namespace = if is_mode_2_3 w.mode then w.namespace else none;
  identifier = if is_mode_2_3 w.mode then w.identifier else none;
  min_ial = w.min_ial;
  min_aal = w.min_aal;
  node_id_list = w.idp_id_list;
  supported_request_message_data_url_type_list = w.supported_request_message_data_url_type_list;
  mode_list = mode_list_of w.mode;
}

unfoldable pub get_idp_mq_destinations :
    (IdpQuery → Checked Refusal (List IdpNode)) → Wanted → Checked Refusal (List Receiver)
get_idp_mq_destinations get_idp_nodes_info w = do
  nodes ← get_idp_nodes_info (query_of w)
  destinations nodes
