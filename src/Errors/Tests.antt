-- ===== src/Errors/Tests.antt =====
-- The error table and the answers to clients on concrete errors.
use ndidplatform_api.Base.{◌≡◌, refl, true, some, none, string_eq, nat_eq, get}
use ndidplatform_api.Errors.Types.{ErrorType}
use ndidplatform_api.Errors.Catalogue.{catalogue}
use ndidplatform_api.Errors.AbciCodes.{convert_abci_app_code_to_error_type}
use ndidplatform_api.Errors.Custom.{
  Own, plain, custom, caused_by, unknown_error_code, get_error_object_for_client,
}
use ndidplatform_api.Errors.Custom.Chain.{client_object_lem}

abbrev request_is_closed : ErrorType
request_is_closed = record {
  code = 20025;
  message = "Request is already closed";
  client_error = some true;
}

closed_found : get "REQUEST_IS_CLOSED" catalogue ≡ some request_is_closed
unfolding get
closed_found = refl

abbrev abci_request_is_closed : ErrorType
abci_request_is_closed = record {
  code = 25002;
  message = "Request is already closed";
  client_error = some true;
}

eight_converted : convert_abci_app_code_to_error_type 8 ≡ some abci_request_is_closed
unfolding convert_abci_app_code_to_error_type get
eight_converted = refl

abbrev database_down : Own
database_down = record {
  message = "connection refused";
  code = none;
  client_error = none;
  details = none;
  stack = "at connect";
}

abbrev wrapped : Own
wrapped = record {
  message = "Cannot create IdP response";
  code = none;
  client_error = none;
  details = none;
  stack = "at createResponse";
}

client_object_example :
    (get_error_object_for_client (custom wrapped (caused_by (plain database_down))) true).code
    ≡ unknown_error_code
client_object_example = (client_object_lem wrapped (caused_by (plain database_down)) true).0
