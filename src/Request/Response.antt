-- ===== src/Request/Response.antt =====
-- `createResponse` of main-server/src/core/idp/create_response.js: what an IdP's answer to a request
-- has to pass before it is sent to the blockchain. IAL and AAL are in tenths (2.3 is 23).
pub mod Accepted
mod Tests
use ndidplatform_api.Base.{
  includes, ℕ, String, ◌≡◌, Bool, true, false, Option, none, some, List, [], ◌∷◌, if◌then◌else◌,
  ◌==◌, ltb, not, nat_eq, string_eq, ◌||◌,
}

pub record RequestInfo : Type 0 where
  pub mode : ℕ
  pub min_ial : ℕ
  pub min_aal : ℕ
  pub closed : Bool
  pub timed_out : Bool

-- The request as the RP sent it over the message queue: with a namespace and an identifier, or in their
-- place the code of the person's reference group.
pub record RequestData : Type 0 where
  pub rp_id : String
  pub namespace : Option String
  pub identifier : Option String
  pub reference_group_code : Option String
  pub request_message : String
  pub initial_salt : String

pub record IdentityInfo : Type 0 where
  pub mode_list : List ℕ
  pub ial : ℕ

pub record Params : Type 0 where
  pub node_id : Option String
  pub request_id : String
  pub ial : ℕ
  pub aal : ℕ
  pub accessor_id : Option String
  pub signature : String

pub data Error : Type 0 where
  missing_node_id : Error
  request_not_found : Error
  request_is_closed : Error
  request_is_timed_out : Error
  ial_is_less_than_request_min_ial : Error
  aal_is_less_than_request_min_aal : Error
  unknown_consent_request : Error
  identity_not_found : Error
  identity_not_found_on_idp : Error
  identity_mode_mismatch : Error
  accessor_id_needed : Error
  accessor_is_not_in_request_reference_group : Error
  accessor_public_key_not_found_or_not_active : Error
  wrong_ial : Error
  invalid_accessor_signature : Error
  query_failed : Error

pub data Result {ℓ} (A : Type ℓ) : Type ℓ where
  err : Error → Result A
  ok : A → Result A

abbrev pub or_throw : {A : Type 0} → Option A → Error → Result A
or_throw none e = err e
or_throw (some a) e = ok a

abbrev pub throw_if : Bool → Error → Result (Unit {0})
throw_if true e = err e
throw_if false e = ok tt

-- An `await`: an error ends the call.
infixl 5 ◌>>=◌ ◌>>◌
abbrev pub ◌>>=◌ {ℓ κ} : {B : Type κ} {A : Type ℓ} → Result A → (A → Result B) → Result B
err thrown >>= next = err thrown
ok value >>= next = next value

abbrev pub ◌>>◌ {κ} : {B : Type κ} (step : Result (Unit {0})) (next : Result B) → Result B
step >> next = step >>= λ done. next

-- The blockchain, the cache DB and the signature check as this node sees them during the call. A
-- query may fail.
pub record Platform : Type 0 where
  pub own_node_id : String
  pub is_proxy : Bool
  pub get_request_detail : String → Result (Option RequestInfo)
  pub get_request_received_from_mq : String → String → Result (Option RequestData)
  pub get_reference_group_code : Option String → Option String → Result (Option String)
  pub get_identity_info : String → String → Result (Option IdentityInfo)
  pub get_reference_group_code_by_accessor_id : String → Result (Option String)
  pub get_accessor_key : String → Result (Option String)
  pub verify_response_signature : String → String → String → String → String → Result Bool

-- What `createResponseInternal` is called with besides the parameters.
pub record Call : Type 0 where
  pub node_id : String
  pub request_data : RequestData
  pub accessor_public_key : Option String

-- `a !== b` where `a` is a text and `b` may be missing.
abbrev pub is_text : Option String → String → Bool
is_text none a = false
is_text (some b) a = a == b

unfoldable pub node_of : Platform → Params → Result String
node_of c p = if c.is_proxy then or_throw p.node_id missing_node_id else ok c.own_node_id

unfoldable pub check_request : Platform → Params → Result RequestInfo
check_request c p = do
  found ← c.get_request_detail p.request_id
  request ← or_throw found request_not_found
  throw_if request.closed request_is_closed
  throw_if request.timed_out request_is_timed_out
  throw_if (ltb p.ial request.min_ial) ial_is_less_than_request_min_ial
  throw_if (ltb p.aal request.min_aal) aal_is_less_than_request_min_aal
  ok request

unfoldable pub reference_group : Platform → RequestData → Result String
reference_group c d = elim d.reference_group_code [
  | some code ↦ ok code
  | none ↦
      (c.get_reference_group_code d.namespace d.identifier >>= λ found.
      or_throw found identity_not_found)
]

unfoldable pub check_identity : Platform → String → ℕ → String → Result IdentityInfo
unfolding includes
check_identity c node mode code = do
  found ← c.get_identity_info node code
  info ← or_throw found identity_not_found_on_idp
  throw_if (not (includes mode info.mode_list)) identity_mode_mismatch
  ok info

unfoldable pub check_accessor : Platform → Option String → String → Result String
check_accessor c accessor code = do
  id ← or_throw accessor accessor_id_needed
  accessor_code ← c.get_reference_group_code_by_accessor_id id
  throw_if (not (is_text accessor_code code)) accessor_is_not_in_request_reference_group
  key ← c.get_accessor_key id
  or_throw key accessor_public_key_not_found_or_not_active

unfoldable pub check_signature : Platform → Params → RequestData → String → ℕ → Result (Unit {0})
check_signature c p d key declared_ial = do
  throw_if (not (p.ial == declared_ial)) wrong_ial
  valid ← c.verify_response_signature p.signature key d.request_message d.initial_salt p.request_id
  throw_if (not valid) invalid_accessor_signature

unfoldable pub check_mode_2_3 :
    Platform → Params → String → ℕ → RequestData → Result (Option String)
check_mode_2_3 c p node mode d = do
  code ← reference_group c d
  info ← check_identity c node mode code
  key ← check_accessor c p.accessor_id code
  check_signature c p d key info.ial
  ok (some key)

unfoldable pub create_response : Platform → Params → Result Call
create_response c p = do
  node ← node_of c p
  request ← check_request c p
  received ← c.get_request_received_from_mq node p.request_id
  d ← or_throw received unknown_consent_request
  key ←
      (if request.mode == 2 || request.mode == 3
        then check_mode_2_3 c p node request.mode d
        else ok none)
  ok (record { node_id = node; request_data = d; accessor_public_key = key })
