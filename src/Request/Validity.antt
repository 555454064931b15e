-- ===== src/Request/Validity.antt =====
-- `getAndSaveIdpResponseValid` of main-server/src/core/common/index.js: an RP's node judges an IdP's
-- answer that stands on the blockchain, and saves its judgement. IAL is in tenths.
pub mod Agreement
mod Tests
use ndidplatform_api.Base.{
  ℕ, String, Bool, true, false, Option, none, some, List, [], ◌∷◌, ◌++◌, if◌then◌else◌, ◌==◌, ◌||◌,
  not, nat_eq, string_eq, pair_eq, get, put,
}
use ndidplatform_api.Base.Checked.{Checked, refused, passed, ◌>>=◌, need}

-- Reading a property of null or undefined, or a query that fails.
pub data Failure : Type 0 where
  type_error query_failed : Failure

-- What the RP saved of its request.
pub record SavedRequest : Type 0 where
  pub request_id : String
  pub namespace : String
  pub identifier : String
  pub request_message : String
  pub initial_salt : String

-- An answer as the blockchain has it.
pub record ChainResponse : Type 0 where
  pub idp_id : String
  pub signature : String

pub record ResponseValid : Type 0 where
  pub idp_id : String
  pub valid_signature : Option Bool
  pub valid_ial : Option Bool

-- The cache DB, the blockchain and the signature check, as the call sees them.
pub record Platform : Type 0 where
  pub get_request_data : String → String → Checked Failure (Option SavedRequest)
  pub get_identity_ial : String → String → String → Checked Failure (Option ℕ)
  pub get_reference_group_code : String → String → Checked Failure (Option String)
  pub get_reference_group_code_by_accessor_id : Option String → Checked Failure (Option String)
  pub get_accessor_key : Option String → Checked Failure (Option String)
  pub get_response_list : String → Checked Failure (List ChainResponse)
  pub verify_response_signature : String → String → String → String → String → Checked Failure Bool

pub record Answer : Type 0 where
  pub node_id : String
  pub request_id : String
  pub mode : ℕ
  pub idp_id : String
  pub ial : ℕ
  pub accessor_id : Option String

-- `===` on codes that may be missing.
abbrev pub same_code : Option String → Option String → Bool
same_code none none = true
same_code none (some b) = false
same_code (some a) none = false
same_code (some a) (some b) = a == b

-- `if (accessor_public_key)`.
abbrev pub usable_key : Option String → Option String
usable_key none = none
usable_key (some key) = if key == "" then none else some key

unfoldable pub find_response : String → List ChainResponse → Option ChainResponse
find_response id [] = none
find_response id (r ∷ rs) = if r.idp_id == id then some r else find_response id rs

-- The signature on the answer, checked with the accessor's key, if there is one.
unfoldable pub check_with_key :
    Platform → Answer → SavedRequest → Option String → Checked Failure Bool
check_with_key c a d none = passed false
check_with_key c a d (some key) = do
  responses ← c.get_response_list a.request_id
  response ← need (find_response a.idp_id responses) type_error
  c.verify_response_signature response.signature key d.request_message d.initial_salt d.request_id

unfoldable pub check_in_group : Platform → Answer → SavedRequest → Bool → Checked Failure Bool
unfolding check_with_key
check_in_group c a d false = passed false
check_in_group c a d true = do
  key ← c.get_accessor_key a.accessor_id
  check_with_key c a d (usable_key key)

unfoldable pub check_signature : Platform → Answer → SavedRequest → Checked Failure Bool
unfolding check_in_group
check_signature c a d = do
  request_code ← c.get_reference_group_code d.namespace d.identifier
  response_code ← c.get_reference_group_code_by_accessor_id a.accessor_id
  check_in_group c a d (same_code request_code response_code)

unfoldable pub check_mode_2_3 :
    Platform → Answer → SavedRequest → Option ℕ → Checked Failure ResponseValid
check_mode_2_3 c a d identity_ial = do
  ial ← need identity_ial type_error
  valid_signature ← check_signature c a d
  passed (record {
    idp_id = a.idp_id;
    valid_signature = some valid_signature;
    valid_ial = some (a.ial == ial);
  })

-- In mode 1 nothing can be checked; no other mode than 1, 2 and 3 is used.
unfoldable pub judge : Platform → Answer → Checked Failure ResponseValid
judge c a = do
  found ← c.get_request_data a.node_id a.request_id
  d ← need found type_error
  identity_ial ← c.get_identity_ial d.namespace d.identifier a.idp_id
  if a.mode == 2 || a.mode == 3
      then check_mode_2_3 c a d identity_ial
      else passed (record { idp_id = a.idp_id; valid_signature = none; valid_ial = none })

abbrev pub ValidLists : Type 0
ValidLists = List ((String × String) × List ResponseValid)

abbrev pub list_or_none : Option (List ResponseValid) → List ResponseValid
list_or_none none = []
list_or_none (some vs) = vs

save :
    Answer → Checked Failure ResponseValid → ValidLists → Checked Failure ResponseValid × ValidLists
save a (refused f) lists = (refused f, lists)
save a (passed v) lists =
    let key : String × String = (a.node_id, a.request_id) in
    (passed v, put key (list_or_none (get key lists) ++ v ∷ []) lists)

unfoldable pub get_and_save_idp_response_valid :
    Platform → Answer → ValidLists → Checked Failure ResponseValid × ValidLists
unfolding save
get_and_save_idp_response_valid c a lists = save a (judge c a) lists
