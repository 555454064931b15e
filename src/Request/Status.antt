-- ===== src/Request/Status.antt =====
-- `getDetailedRequestStatus` of main-server/src/utils/index.js: the status of a request from the
-- responses of its IdPs and the counts of its data requests.
pub mod Laws
mod Tests
use ndidplatform_api.Base.{
  ℕ, suc, ◌+◌, String, ◌≡◌, Bool, true, false, Option, none, some, List, [], ◌∷◌, map,
  if◌then◌else◌, ◌==◌, ltb, nat_eq, string_eq, length, ◌&&◌, ◌||◌,
}

pub record Response : Type 0 where
  pub idp_id : String
  pub status : String

-- A missing list is `null` or absent.
pub record Service : Type 0 where
  pub service_id : String
  pub min_as : ℕ
  pub answered_as_id_list : Option (List String)
  pub received_data_from_list : Option (List String)

pub record RequestDetail : Type 0 where
  pub mode : ℕ
  pub request_id : String
  pub min_idp : ℕ
  pub data_request_list : Option (List Service)
  pub response_list : Option (List Response)
  pub purpose : Option String
  pub closed : Bool
  pub timed_out : Bool

pub data Status : Type 0 where
  pending confirmed rejected complicated completed : Status

pub record ServiceStatus : Type 0 where
  pub service_id : String
  pub min_as : ℕ
  pub signed_data_count : ℕ
  pub received_data_count : ℕ

-- `status` is unset (`undefined`) where no branch assigns it.
pub record RequestStatus : Type 0 where
  pub mode : ℕ
  pub request_id : String
  pub status : Option Status
  pub min_idp : ℕ
  pub answered_idp_count : ℕ
  pub closed : Bool
  pub timed_out : Bool
  pub service_list : List ServiceStatus

-- `if (x == null) x = []`.
abbrev pub list_or_empty : {A : Type 0} → Option (List A) → List A
list_or_empty none = []
list_or_empty (some xs) = xs

pub record ResponseCount : Type 0 where
  pub accept : ℕ
  pub reject : ℕ

count_response : ResponseCount → Response → ResponseCount
count_response count response =
    if response.status == "accept"
    then record count { accept = suc count.accept }
    else (if response.status == "reject" then record count { reject = suc count.reject } else count)

count_from : ResponseCount → List Response → ResponseCount
unfolding count_response
count_from count [] = count
count_from count (r ∷ rs) = count_from (count_response count r) rs

unfoldable pub response_count : List Response → ResponseCount
unfolding count_from
response_count rs = count_from (record { accept = 0; reject = 0 }) rs

-- The status by the responses alone.
unfoldable pub consent_status : List Response → ResponseCount → Option Status
consent_status rs c =
    let initial : Option Status = if length rs == 0 then some pending else none in
    if ltb 0 c.accept && c.reject == 0
    then some confirmed
    else (if c.accept == 0 && ltb 0 c.reject
        then some rejected
        else (if ltb 0 c.accept && ltb 0 c.reject then some complicated else initial))

abbrev count_of : Option (List String) → ℕ
count_of none = 0
count_of (some xs) = length xs

unfoldable pub service_status : Service → ServiceStatus
service_status s = record {
  service_id = s.service_id;
  min_as = s.min_as;
  signed_data_count = count_of s.answered_as_id_list;
  received_data_count = count_of s.received_data_from_list;
}

pub record Totals : Type 0 where
  pub count : ℕ
  pub signed_answer_count : ℕ
  pub received_data_count : ℕ

totals_from : Totals → List ServiceStatus → Totals
totals_from t [] = t
totals_from t (s ∷ ss) =
    totals_from
      (record {
        count = t.count + s.min_as;
        signed_answer_count = t.signed_answer_count + s.signed_data_count;
        received_data_count = t.received_data_count + s.received_data_count;
      })
      ss

unfoldable pub totals : List ServiceStatus → Totals
unfolding totals_from
totals ss = totals_from (record { count = 0; signed_answer_count = 0; received_data_count = 0 }) ss

-- `['RegisterIdentity', 'AddAccessor', 'RevokeAccessor'].includes(purpose)`.
unfoldable pub is_identity_purpose : Option String → Bool
is_identity_purpose none = false
is_identity_purpose (some p) =
    p == "RegisterIdentity" || (p == "AddAccessor" || p == "RevokeAccessor")

no_data_completed : RequestDetail → List Response → ResponseCount → Bool
unfolding is_identity_purpose
no_data_completed d rs c =
    length rs == d.min_idp
    && (c.reject == 0 && (ltb 0 c.accept || (c.accept == 0 && is_identity_purpose d.purpose)))

data_completed : List ServiceStatus → Bool
unfolding totals
data_completed ss =
    let t = totals ss in
    t.count == t.signed_answer_count && t.signed_answer_count == t.received_data_count

unfoldable pub is_completed : RequestDetail → List Response → ResponseCount → Bool
unfolding no_data_completed data_completed
is_completed d rs c =
    let services = list_or_empty d.data_request_list in
    if length services == 0
    then no_data_completed d rs c
    else data_completed (map service_status services)

unfoldable pub get_detailed_request_status : RequestDetail → RequestStatus
unfolding consent_status is_completed
get_detailed_request_status d =
    let responses = list_or_empty d.response_list in
    let c = response_count responses in
    record {
      mode = d.mode;
      request_id = d.request_id;
      status = if is_completed d responses c then some completed else consent_status responses c;
      min_idp = d.min_idp;
      answered_idp_count = length responses;
      closed = d.closed;
      timed_out = d.timed_out;
      service_list = map service_status (list_or_empty d.data_request_list);
    }
