-- ===== src/Request/Create/Tests.antt =====
-- New requests on a small platform: two IdPs, of which one is reached by a proxy, and two ASes.
use ndidplatform_api.Base.{
  ◌≡◌, refl, false, none, some, List, [], ◌∷◌, string_eq, nat_eq, pair_eq, get, includes, Unique,
}
use ndidplatform_api.Base.Checked.{refused, passed}
use ndidplatform_api.Request.Destinations.{
  unsupported_mode, IdpNode, Receiver, direct, by_proxy, get_idp_mq_destinations, destinations,
  destination, first_address, query_of,
}
use ndidplatform_api.Request.Create.{
  Platform, Params, DataRequest, AsNode, Cache, parted, check_idp_list_condition, check_receivers,
  count_receivers, split_by_mode, wanted, check_data_request, in_as_list, able_nodes, is_able,
  with_as_list, requesting_node, create_request,
}
use ndidplatform_api.Request.Create.Idps.{IsAccepted, check_idp_list_condition-IsAccepted}
use ndidplatform_api.Request.Create.Services.{ids_of, IsQualified, check_data_request-IsQualified}
use ndidplatform_api.Request.Create.References.{unsupported_mode-frees_reference}

abbrev idp_1 : IdpNode
idp_1 = record {
  node_id = "idp1";
  public_key = "k1";
  proxy = none;
  mq = some (record { ip = "10.0.0.1"; port = 5555 } ∷ []);
}

abbrev idp_2 : IdpNode
idp_2 = record {
  node_id = "idp2";
  public_key = "k2";
  proxy = some (record {
    node_id = "proxy";
    public_key = "k3";
    mq = some (record { ip = "10.0.0.2"; port = 5555 } ∷ []);
    config = "KEY_ON_PROXY";
  });
  mq = none;
}

abbrev as_1 : AsNode
as_1 = record {
  node_id = "as1";
  min_ial = 23;
  min_aal = 22;
  supported_namespace_list = "citizen_id" ∷ [];
}

abbrev as_2 : AsNode
as_2 = record as_1 { node_id = "as2"; min_ial = 30 }

abbrev platform : Platform
platform = record {
  own_node_id = "rp1";
  is_proxy = false;
  get_allowed_mode_list = passed (1 ∷ 2 ∷ 3 ∷ []);
  mime_type = λ text. none;
  has_whitespace_in_base64 = λ text. some false;
  get_idp_nodes_info = λ query. passed (idp_1 ∷ idp_2 ∷ []);
  get_as_nodes_info_by_service_id = λ service ids. passed (as_1 ∷ as_2 ∷ []);
}

abbrev bank_statement : DataRequest
bank_statement = record {
  service_id = "bank_statement";
  as_id_list = some ("as1" ∷ []);
  min_as = 1;
  request_params = none;
}

abbrev params : Params
params = record {
  node_id = none;
  mode = 2;
  namespace = "citizen_id";
  identifier = "1234567890123";
  reference_id = "ref1";
  idp_id_list = [];
  data_request_list = bank_statement ∷ [];
  request_message = "dummy";
  min_ial = 23;
  min_aal = 22;
  min_idp = 2;
  bypass_identity_check = false;
}

abbrev both : List Receiver
both =
    record {
      node_id = "idp1";
      public_key = "k1";
      route = direct (record { ip = "10.0.0.1"; port = 5555 });
    }
    ∷ record {
      node_id = "idp2";
      public_key = "k2";
      route = by_proxy "proxy" "k3" "KEY_ON_PROXY" (record { ip = "10.0.0.2"; port = 5555 });
    }
    ∷ []

accepted :
    check_idp_list_condition platform params none ≡ passed (parted both (some []) (some both))
unfolding check_idp_list_condition get_idp_mq_destinations destinations destination first_address
    check_receivers count_receivers split_by_mode wanted query_of
accepted = refl

check_idp_list_condition-IsAccepted_example :
    IsAccepted platform params none (parted both (some []) (some both))
check_idp_list_condition-IsAccepted_example =
    check_idp_list_condition-IsAccepted platform params none (parted both (some []) (some both))
      accepted

qualified : check_data_request platform params bank_statement ≡ passed bank_statement
unfolding check_data_request in_as_list able_nodes is_able with_as_list includes
qualified = refl

two_ases : Unique (ids_of (as_1 ∷ as_2 ∷ []))
unfolding includes
two_ases = (refl, (refl, tt))

check_data_request-IsQualified_example :
    IsQualified params (as_1 ∷ as_2 ∷ []) bank_statement bank_statement
check_data_request-IsQualified_example =
    check_data_request-IsQualified platform params bank_statement bank_statement (as_1 ∷ as_2 ∷ [])
      refl two_ases qualified

abbrev in_use : Cache
in_use = record {
  references = (("rp1", "ref1"), "request7") ∷ (("rp1", "ref2"), "request8") ∷ [];
  request_data = [];
  creation_metadata = [];
}

by_rp1 : requesting_node platform params ≡ passed "rp1"
unfolding requesting_node
by_rp1 = refl

abbrev mode_4 : Params
mode_4 = record params { mode = 4 }

unsupported_mode-frees_reference_example :
    ((create_request platform mode_4 none "new" "salt" in_use).0 ≡ refused unsupported_mode)
    × (get ("rp1", "ref1") (create_request platform mode_4 none "new" "salt" in_use).1.references
        ≡ none)
unfolding includes requesting_node
unsupported_mode-frees_reference_example =
    unsupported_mode-frees_reference platform mode_4 none "new" "salt" in_use "rp1" refl
      (1 ∷ 2 ∷ 3 ∷ []) refl refl
