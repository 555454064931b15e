-- ===== src/Request/Response/Tests.antt =====
-- An answer in mode 3 that is accepted.
use ndidplatform_api.Base.{◌≡◌, ◌↔◌, refl, true, false, some, none, [], ◌∷◌}
use ndidplatform_api.Request.Response.{
  Platform, Params, RequestData, Call, ok, create_response, node_of, check_request, reference_group,
  check_identity, check_accessor, check_signature, check_mode_2_3,
}
use ndidplatform_api.Request.Response.Accepted.{Accepts, create_response_iff}

abbrev received : RequestData
received = record {
  rp_id = "rp1";
  namespace = none;
  identifier = none;
  reference_group_code = some "group";
  request_message = "consent";
  initial_salt = "salt";
}

abbrev platform : Platform
platform = record {
  own_node_id = "idp1";
  is_proxy = false;
  get_request_detail = λ r.
      ok
        (some (record { mode = 3; min_ial = 23; min_aal = 22; closed = false; timed_out = false }));
  get_request_received_from_mq = λ n r. ok (some received);
  get_reference_group_code = λ n i. ok none;
  get_identity_info = λ n g. ok (some (record { mode_list = 2 ∷ 3 ∷ []; ial = 30 }));
  get_reference_group_code_by_accessor_id = λ a. ok (some "group");
  get_accessor_key = λ a. ok (some "key");
  verify_response_signature = λ s k m t r. ok true;
}

abbrev answer : Params
answer = record {
  node_id = none;
  request_id = "r";
  ial = 30;
  aal = 30;
  accessor_id = some "accessor";
  signature = "signature";
}

abbrev handed_on : Call
handed_on = record { node_id = "idp1"; request_data = received; accessor_public_key = some "key" }

create_response_iff_example :
    (create_response platform answer ≡ ok handed_on) ↔ Accepts platform answer handed_on
create_response_iff_example = create_response_iff platform answer handed_on

answer_accepted : create_response platform answer ≡ ok handed_on
unfolding create_response node_of check_request check_mode_2_3 reference_group check_identity
    check_accessor check_signature
answer_accepted = refl
