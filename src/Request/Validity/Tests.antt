-- ===== src/Request/Validity/Tests.antt =====
-- An answer in mode 3, as the IdP's node accepts it and the RP's node judges it.
use ndidplatform_api.Base.{
  String, ◌≡◌, refl, subst, ap, inl, inr, true, false, Option, none, some, [], ◌∷◌, ◌==◌, nat_eq,
  string_eq, arith,
}
use ndidplatform_api.Base.Checked.{passed}
use ndidplatform_api.Request.Response.{
  RequestInfo, RequestData, IdentityInfo, Params, Call, ok, err, create_response, node_of,
  check_request, reference_group, check_identity, check_accessor,
}
use ndidplatform_api.Request.Response
use ndidplatform_api.Request.Validity.{
  Platform, Answer, find_response, judge, check_mode_2_3, check_signature, check_in_group,
  check_with_key, get_and_save_idp_response_valid,
}
use ndidplatform_api.Request.Validity.Agreement.{
  SameChain, accepted_is_valid, IsValid, judged-IsValid,
}

abbrev received : RequestData
received = record {
  rp_id = "rp1";
  namespace = none;
  identifier = none;
  reference_group_code = some "group";
  request_message = "dummy";
  initial_salt = "salt";
}

abbrev idp : Response.Platform
idp = record {
  own_node_id = "idp1";
  is_proxy = false;
  get_request_detail = λ r.
      ok
        (some (record { mode = 3; min_ial = 23; min_aal = 22; closed = false; timed_out = false }));
  get_request_received_from_mq = λ n r. ok (some received);
  get_reference_group_code = λ n i. ok (some "group");
  get_identity_info = λ n g. ok (some (record { mode_list = 2 ∷ 3 ∷ []; ial = 30 }));
  get_reference_group_code_by_accessor_id = λ a. ok (some "group");
  get_accessor_key = λ a. ok (some "key");
  verify_response_signature = λ s k m t r. ok (s == "signature");
}

abbrev rp : Platform
rp = record {
  get_request_data = λ n r. passed (
      some (record {
        request_id = "r";
        namespace = "citizen_id";
        identifier = "1234567890123";
        request_message = "dummy";
        initial_salt = "salt";
      }));
  get_identity_ial = λ n i node. passed (some 30);
  get_reference_group_code = λ n i. passed (some "group");
  get_reference_group_code_by_accessor_id = λ a. passed (some "group");
  get_accessor_key = λ a. passed (some "key");
  get_response_list = λ r. passed (record { idp_id = "idp1"; signature = "signature" } ∷ []);
  verify_response_signature = λ s k m t r. passed (s == "signature");
}

abbrev sent : Params
sent = record {
  node_id = none;
  request_id = "r";
  ial = 30;
  aal = 30;
  accessor_id = some "accessor";
  signature = "signature";
}

abbrev call : Call
call = record { node_id = "idp1"; request_data = received; accessor_public_key = some "key" }

abbrev answer : Answer
answer = record {
  node_id = "rp1";
  request_id = "r";
  mode = 3;
  idp_id = "idp1";
  ial = 30;
  accessor_id = some "accessor";
}

the_key :
    (key : String)
    → Path (Response.Result (Option String)) (ok (some "key")) (ok (some key))
    → "key" ≡ key
the_key key h = cc

same_chain : SameChain idp rp sent call answer
unfolding find_response
same_chain = record {
  namespace = "citizen_id";
  identifier = "1234567890123";
  idp_id = refl;
  ial = refl;
  accessor = refl;
  mode = λ r h. ground arith;
  saved = refl;
  group = λ code h. elim h [ inl e ↦ ap passed e | inr e ↦ ground arith ];
  identity = λ code info h k. ground arith;
  accessor_group = λ id code h. ground arith;
  accessor_key = λ id key h.
      subst (λ k. (rp.get_accessor_key (some id) ≡ passed (some k)) × ((k == "") ≡ false))
        (the_key key h) (refl, refl);
  on_chain = (record { idp_id = "idp1"; signature = "signature" } ∷ [], refl, refl);
  same_check = λ s k m t r b h. ground arith;
}

sent_on : create_response idp sent ≡ ok call
unfolding create_response node_of check_request Response.check_mode_2_3 reference_group
    check_identity check_accessor Response.check_signature
sent_on = refl

accepted_is_valid_example :
    (get_and_save_idp_response_valid rp answer []).0
    ≡ passed (record { idp_id = "idp1"; valid_signature = some true; valid_ial = some true })
accepted_is_valid_example = accepted_is_valid idp rp sent call answer [] same_chain sent_on refl

judged :
    judge rp answer
    ≡ passed (record { idp_id = "idp1"; valid_signature = some true; valid_ial = some true })
unfolding judge check_mode_2_3 check_signature check_in_group check_with_key find_response
judged = refl

judged-IsValid_example : IsValid rp answer
judged-IsValid_example =
    judged-IsValid rp answer
      (record { idp_id = "idp1"; valid_signature = some true; valid_ial = some true }) judged refl
      refl
