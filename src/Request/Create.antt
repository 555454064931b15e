-- ===== src/Request/Create.antt =====
-- `createRequest` of main-server/src/core/common/create_request.js, up to the saving of the request:
-- what a new request is checked for, and what is saved, kept or cleaned up. IAL and AAL are in tenths.
pub mod Idps
pub mod Services
pub mod References
mod Tests
use ndidplatform_api.Base.{
  ℕ, String, Bool, true, false, Option, none, some, List, [], ◌∷◌, map, if◌then◌else◌, ◌==◌, ltb,
  leb, not, ◌&&◌, ◌||◌, nat_eq, string_eq, pair_eq, select, length, is_nil, includes, get, put,
  delete,
}
use ndidplatform_api.Base.Checked.{Checked, refused, passed, ◌>>=◌, ◌>>◌, refuse_if, need}
use ndidplatform_api.Request.Destinations.{
  Refusal, missing_node_id, unsupported_mode, duplicate_reference_id,
  data_url_base64_must_not_contain_whitespaces, idp_list_less_than_min_idp, idp_id_list_needed,
  no_idp_found, unqualified_idp, not_enough_idp, duplicate_service_id, as_list_less_than_min_as,
  not_enough_as, some_as_do_not_provide_service, condition_too_low, unqualified_as, type_error,
  IdpNode, IdpQuery, Receiver, Wanted, get_idp_mq_destinations,
}

pub record DataRequest : Type 0 where
  pub service_id : String
  pub as_id_list : Option (List String)
  pub min_as : ℕ
  pub request_params : Option String

pub record Params : Type 0 where
  pub node_id : Option String
  pub mode : ℕ
  pub namespace : String
  pub identifier : String
  pub reference_id : String
  pub idp_id_list : List String
  pub data_request_list : List DataRequest
  pub request_message : String
  pub min_ial : ℕ
  pub min_aal : ℕ
  pub min_idp : ℕ
  pub bypass_identity_check : Bool

pub record AsNode : Type 0 where
  pub node_id : String
  pub min_ial : ℕ
  pub min_aal : ℕ
  pub supported_namespace_list : List String

-- The blockchain and the parsing of data URLs, as the call sees them. A query may fail.
pub record Platform : Type 0 where
  pub own_node_id : String
  pub is_proxy : Bool
  pub get_allowed_mode_list : Checked Refusal (List ℕ)
  pub mime_type : String → Option String
  -- Whether a data URL is in base64 and has whitespace; none where it does not match `dataUrlRegex`.
  pub has_whitespace_in_base64 : String → Option Bool
  pub get_idp_nodes_info : IdpQuery → Checked Refusal (List IdpNode)
  pub get_as_nodes_info_by_service_id :
      String → Option (List String) → Checked Refusal (List AsNode)

-- `receiversWithSid` and `receiversWithRefGroupCode` stay undefined in other modes than 1, 2 and 3.
pub record Split : Type 0 where
  pub receivers : List Receiver
  pub receivers_with_sid : Option (List Receiver)
  pub receivers_with_ref_group_code : Option (List Receiver)

unfoldable pub count_receivers : Params → List Receiver → Checked Refusal (Unit {0})
count_receivers p receivers = do
  refuse_if (is_nil receivers) no_idp_found
  refuse_if (not (is_nil p.idp_id_list) && ltb (length receivers) (length p.idp_id_list))
      unqualified_idp
  refuse_if (ltb (length receivers) p.min_idp) not_enough_idp

unfoldable pub check_receivers : Params → List Receiver → Checked Refusal (Unit {0})
unfolding count_receivers
check_receivers p receivers = if p.min_idp == 0 then passed tt else count_receivers p receivers

-- `find(({ node_id }) => ...) != null`.
unfoldable pub has_node : String → List Receiver → Bool
has_node id [] = false
has_node id (r ∷ rs) = id == r.node_id || has_node id rs

unfoldable pub wanted_with_ref_group_code : Params → Option (List String) → Wanted
wanted_with_ref_group_code p types = record {
  namespace = some p.namespace;
  identifier = some p.identifier;
  min_ial = none;
  min_aal = p.min_aal;
  idp_id_list = p.idp_id_list;
  mode = some 2;
  supported_request_message_data_url_type_list = types;
}

abbrev pub parted : List Receiver → Option (List Receiver) → Option (List Receiver) → Split
parted receivers sid ref = record {
  receivers = receivers;
  receivers_with_sid = sid;
  receivers_with_ref_group_code = ref;
}

unfoldable pub split_by_knowledge :
    Platform → Params → Option (List String) → List Receiver → Checked Refusal Split
unfolding has_node
split_by_knowledge c p types receivers = do
  known ← get_idp_mq_destinations c.get_idp_nodes_info (wanted_with_ref_group_code p types)
  passed (
      parted receivers (some (select (λ r. not (has_node r.node_id known)) receivers)) (some known))

unfoldable pub split_by_mode :
    Platform → Params → Option (List String) → List Receiver → Checked Refusal Split
unfolding split_by_knowledge
split_by_mode c p types receivers =
    if p.mode == 1
    then passed (parted receivers (some receivers) (some []))
    else if p.mode == 2 || p.mode == 3
    then (if p.bypass_identity_check
        then split_by_knowledge c p types receivers
        else passed (parted receivers (some []) (some receivers)))
    else passed (parted receivers none none)

unfoldable pub wanted : Params → Option (List String) → Wanted
wanted p types = record {
  namespace = if p.bypass_identity_check then none else some p.namespace;
  identifier = if p.bypass_identity_check then none else some p.identifier;
  min_ial = if p.bypass_identity_check then none else some p.min_ial;
  min_aal = p.min_aal;
  idp_id_list = p.idp_id_list;
  mode = if p.bypass_identity_check then none else some p.mode;
  supported_request_message_data_url_type_list = types;
}

unfoldable pub check_idp_list_condition :
    Platform → Params → Option (List String) → Checked Refusal Split
check_idp_list_condition c p types = do
  refuse_if (not (is_nil p.idp_id_list) && ltb (length p.idp_id_list) p.min_idp)
      idp_list_less_than_min_idp
  refuse_if ((p.mode == 1 || p.bypass_identity_check) && is_nil p.idp_id_list) idp_id_list_needed
  receivers ← get_idp_mq_destinations c.get_idp_nodes_info (wanted p types)
  check_receivers p receivers
  split_by_mode c p types receivers

-- `new Set(serviceIds)`.
unfoldable pub no_duplicates : List String → List String → List String
no_duplicates seen [] = []
no_duplicates seen (x ∷ xs) =
    let fresh = x ∷ no_duplicates (x ∷ seen) xs in
    let old = no_duplicates seen xs in if includes x seen then old else fresh

-- An empty list counts as none.
abbrev pub listed_ids : Option (List String) → Option (List String)
listed_ids none = none
listed_ids (some []) = none
listed_ids (some (id ∷ ids)) = some (id ∷ ids)

unfoldable pub in_as_list : Option (List String) → ℕ → List AsNode → Checked Refusal (List AsNode)
in_as_list none min_as potential = passed potential
in_as_list (some ids) min_as potential = do
  refuse_if (ltb (length ids) min_as) as_list_less_than_min_as
  refuse_if (ltb (length potential) min_as) not_enough_as
  refuse_if (not (length (select (λ a. includes a.node_id ids) potential) == length ids))
      some_as_do_not_provide_service
  passed (select (λ a. includes a.node_id ids) potential)

unfoldable pub is_able : Params → AsNode → Bool
is_able p a = leb a.min_ial p.min_ial && leb a.min_aal p.min_aal

unfoldable pub able_nodes : Params → List AsNode → List AsNode
unfolding is_able
able_nodes p nodes =
    select (is_able p) (select (λ a. includes p.namespace a.supported_namespace_list) nodes)

unfoldable pub with_as_list :
    DataRequest → Option (List String) → List AsNode → Checked Refusal DataRequest
with_as_list d none able =
    passed (record d { as_id_list = some (map (λ (a : AsNode). a.node_id) able) })
with_as_list d (some ids) able = do
  refuse_if (not (length able == length ids)) unqualified_as
  passed d

unfoldable pub check_data_request : Platform → Params → DataRequest → Checked Refusal DataRequest
unfolding able_nodes
check_data_request c p d = do
  potential ← c.get_as_nodes_info_by_service_id d.service_id (listed_ids d.as_id_list)
  offering ← in_as_list (listed_ids d.as_id_list) d.min_as potential
  refuse_if (ltb (length (able_nodes p offering)) d.min_as) condition_too_low
  with_as_list d (listed_ids d.as_id_list) (able_nodes p offering)

-- The code runs these at the same time, and they do not interfere. If several are refused, the code
-- throws the refusal that comes first in time, this the one that comes first in the list.
unfoldable pub check_data_requests :
    Platform → Params → List DataRequest → Checked Refusal (List DataRequest)
check_data_requests c p [] = passed []
check_data_requests c p (d ∷ ds) = do
  checked ← check_data_request c p d
  rest ← check_data_requests c p ds
  passed (checked ∷ rest)

abbrev pub service_ids : List DataRequest → List String
service_ids ds = map (λ (d : DataRequest). d.service_id) ds

unfoldable pub check_as_list_condition : Platform → Params → Checked Refusal (List DataRequest)
unfolding no_duplicates
check_as_list_condition c p = do
  refuse_if
      (not (
        length (service_ids p.data_request_list)
        == length (no_duplicates [] (service_ids p.data_request_list))))
      duplicate_service_id
  check_data_requests c p p.data_request_list

-- What is saved of a request, besides what is read off the parameters.
pub record RequestData : Type 0 where
  pub request_id : String
  pub rp_id : String
  pub params : Params
  pub idp_id_list : List String
  pub data_request_list : List DataRequest
  pub initial_salt : String

-- The cache DB, by node id and reference id or request id.
pub record Cache : Type 0 where
  pub references : List ((String × String) × String)
  pub request_data : List ((String × String) × RequestData)
  pub creation_metadata : List ((String × String) × String)

-- What `createRequestInternalAsync` is called with.
pub record Prepared : Type 0 where
  pub split : Split
  pub request : RequestData

-- A text that may be missing, as a condition.
abbrev pub is_truthy : Option String → Bool
is_truthy none = false
is_truthy (some s) = not (s == "")

abbrev pub types_of : Option String → Option (List String)
types_of none = none
types_of (some mime) = if mime == "" then none else some (mime ∷ [])

-- A text that parses as a data URL and does not match `dataUrlRegex`: reading the match throws.
unfoldable pub check_data_url : Platform → String → Option String → Checked Refusal (Unit {0})
check_data_url c text none = passed tt
check_data_url c text (some mime) = do
  bad ← need (c.has_whitespace_in_base64 text) type_error
  refuse_if bad data_url_base64_must_not_contain_whitespaces

abbrev or_created : Option String → String → String
or_created none created = created
or_created (some id) created = id

unfoldable pub check_as_lists : Platform → Params → Checked Refusal (List DataRequest)
check_as_lists c p = if is_nil p.data_request_list then passed [] else check_as_list_condition c p

-- `idp_id_list` after the checks: where it was empty, all that were found.
abbrev pub idps_or_all : List String → List Receiver → List String
idps_or_all ids receivers = if is_nil ids then map (λ (r : Receiver). r.node_id) receivers else ids

-- The checks, in order; `given` is a request id made beforehand, `created` and `salt` are drawn.
unfoldable pub check_request :
    Platform → Params → String → Option String → String → String → Cache → Checked Refusal Prepared
check_request c p node given created salt cache = do
  modes ← c.get_allowed_mode_list
  refuse_if (not (includes p.mode modes)) unsupported_mode
  refuse_if (is_truthy (get (node, p.reference_id) cache.references)) duplicate_reference_id
  check_data_url c p.request_message (c.mime_type p.request_message)
  split ← check_idp_list_condition c p (types_of (c.mime_type p.request_message))
  data_requests ← check_as_lists c p
  passed (record {
    split = split;
    request = record {
      request_id = or_created given created;
      rp_id = node;
      params = p;
      idp_id_list = idps_or_all p.idp_id_list split.receivers;
      data_request_list = data_requests;
      initial_salt = salt;
    };
  })

abbrev remove_by_id {ℓ} :
    {V : Type ℓ}
    → String
    → Option String
    → List ((String × String) × V)
    → List ((String × String) × V)
remove_by_id node none m = m
remove_by_id node (some id) m = delete (node, id) m

unfoldable pub create_request_clean_up_on_error : String → Option String → String → Cache → Cache
create_request_clean_up_on_error node request_id reference_id cache = record {
  references = delete (node, reference_id) cache.references;
  request_data = remove_by_id node request_id cache.request_data;
  creation_metadata = remove_by_id node request_id cache.creation_metadata;
}

-- The `catch`: all but a reference id in use is cleaned up after. A request id that was not given
-- is not yet drawn where a check is refused.
unfoldable pub on_refusal : String → Option String → String → Refusal → Cache → Cache
on_refusal node given reference_id duplicate_reference_id cache = cache
on_refusal node given reference_id other cache =
    create_request_clean_up_on_error node given reference_id cache

saved :
    String
    → Option String
    → String
    → Cache
    → Checked Refusal Prepared
    → Checked Refusal Prepared × Cache
saved node given reference_id cache (refused r) =
    (refused r, on_refusal node given reference_id r cache)
saved node given reference_id cache (passed prepared) = (
  passed prepared,
  record cache {
    request_data = put (node, prepared.request.request_id) prepared.request cache.request_data;
    references = put (node, reference_id) prepared.request.request_id cache.references;
  },
)

create_for :
    Platform
    → Params
    → Option String
    → String
    → String
    → Cache
    → Checked Refusal String
    → Checked Refusal Prepared × Cache
create_for c p given created salt cache (refused r) = (refused r, cache)
create_for c p given created salt cache (passed node) =
    saved node given p.reference_id cache (check_request c p node given created salt cache)

unfoldable pub requesting_node : Platform → Params → Checked Refusal String
requesting_node c p = if c.is_proxy then need p.node_id missing_node_id else passed c.own_node_id

-- `createRequest`: the node id is looked at before the `try`.
unfoldable pub create_request :
    Platform → Params → Option String → String → String → Cache → Checked Refusal Prepared × Cache
unfolding create_for saved
create_request c p given created salt cache =
    create_for c p given created salt cache (requesting_node c p)
