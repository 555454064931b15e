-- ===== src/Request/Status/Tests.antt =====
-- The status of a request whose two IdPs disagree.
use ndidplatform_api.Base.{◌≡◌, refl, false, some, none, [], ◌∷◌}
use ndidplatform_api.Request.Status.{
  RequestDetail, complicated, get_detailed_request_status, response_count,
}
use ndidplatform_api.Request.Status.Laws.{Means, status-Means}

abbrev disputed : RequestDetail
disputed = record {
  mode = 3;
  request_id = "r";
  min_idp = 2;
  data_request_list = none;
  response_list = some (
      record { idp_id = "idp1"; status = "accept" }
      ∷ record { idp_id = "idp2"; status = "reject" }
      ∷ []);
  purpose = none;
  closed = false;
  timed_out = false;
}

status-Means_example : Means disputed (get_detailed_request_status disputed).status
status-Means_example = status-Means disputed

disputed_status : (get_detailed_request_status disputed).status ≡ some complicated
unfolding get_detailed_request_status response_count
disputed_status = refl
