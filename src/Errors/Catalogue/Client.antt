-- ===== src/Errors/Catalogue/Client.antt =====
-- The client errors of ndid-error/type.js, in the file's order.
use ndidplatform_api.Base.{String, true, none, some, List, [], ◌∷◌}
use ndidplatform_api.Errors.Types.{ErrorType, error_type}

abbrev pub client_errors_1 : List (String × ErrorType)
client_errors_1 =
    (
      "PATH_PARAMS_VALIDATION_FAILED",
      error_type 20001 "Path parameters validation failed" (some true),
    )
    ∷ (
      "QUERY_STRING_VALIDATION_FAILED",
      error_type 20002 "Query string validation failed" (some true),
    )
    ∷ ("BODY_VALIDATION_FAILED", error_type 20003 "Body validation failed" (some true))
    ∷ (
      "IDP_LIST_LESS_THAN_MIN_IDP",
      error_type 20004
          "Provided IdP list is less than minimum IdP needed (length of \"idp_id_list\" is less than \"min_idp\")"
          (some true),
    )
    ∷ ("NO_IDP_FOUND", error_type 20005 "No IdP found" (some true))
    ∷ (
      "NOT_ENOUGH_IDP",
      error_type 20006 "Not enough IdP (the number of IdPs found is less than minimum IdP needed)"
          (some true),
    )
    ∷ ("BODY_PARSE_FAILED", error_type 20007 "Unable to parse body" (some true))
    ∷ (
      "EXTERNAL_SIGN_TEST_FAILED_NO_PUB_KEY",
      error_type 20008
          "External service: Sign with node key test failed. Node public key could not be found. This node may have not been registered with NDID."
          (some true),
    )
    ∷ (
      "EXTERNAL_MASTER_SIGN_TEST_FAILED_NO_PUB_KEY",
      error_type 20009
          "External service: Sign with node master key test failed. Node master public key could not be found. This node may have not been registered with NDID."
          (some true),
    )
    ∷ (
      "EXTERNAL_DECRYPT_TEST_FAILED_NO_PUB_KEY",
      error_type 20010
          "External service: Decrypt with node key test failed. Node public key could not be found. This node may have not been registered with NDID."
          (some true),
    )
    ∷ (
      "ACCESSOR_PUBLIC_KEY_NOT_FOUND_OR_NOT_ACTIVE",
      error_type 20011
          "Accessor public key for the input accessor ID could not be found or inactive"
          (some true),
    )
    ∷ ("REQUEST_NOT_FOUND", error_type 20012 "Request ID could not be found" (some true))
    ∷ ("INVALID_NAMESPACE", error_type 20013 "This namespace is not registered by NDID" (some true))
    ∷ ("ACCESSOR_ID_NEEDED", error_type 20014 "\"accessor_id\" must be provided" (some true))
    ∷ ("SECRET_NEEDED", error_type 20015 "\"secret\" is required for mode 3" (some true))
    ∷ ("IDP_ID_LIST_NEEDED", error_type 20016 "\"idp_id_list\" must be provided" (some true))
    ∷ (
      "AS_LIST_LESS_THAN_MIN_AS",
      error_type 20017
          "Provided AS list is less than minimum AS needed (length of \"as_id_list\" is less than \"min_as\")"
          (some true),
    )
    ∷ (
      "DUPLICATE_SERVICE_ID",
      error_type 20018 "Duplicate service ID in data request list" (some true),
    )
    ∷ (
      "IDENTITY_ALREADY_CREATED",
      error_type 20019 "Already created an identity for this user" (some true),
    )
    ∷ (
      "IDENTITY_NOT_FOUND",
      error_type 20020
          "An identity for this user could not be found. It may have not been created yet."
          (some true),
    )
    ∷ (
      "MAXIMUM_IAL_EXCEED",
      error_type 20021 "Specified ial exceeds maximum ial capability" (some true),
    )
    ∷ (
      "CONDITION_TOO_LOW",
      error_type 20022
          "Minimum AS in some services requested cannot be met with some conditions (due to required \"min_ial\", \"min_aal\" or \"namespace\")"
          (some true),
    )
    ∷ ("MISSING_ARGUMENTS", error_type 20023 "Some arguments is missing" none)
    ∷ (
      "NOT_ENOUGH_AS",
      error_type 20024
          "Not enough AS (the number of AS offer the service is less than minimum AS needed)"
          (some true),
    )
    ∷ ("REQUEST_IS_CLOSED", error_type 20025 "Request is already closed" (some true))
    ∷ ("REQUEST_IS_TIMED_OUT", error_type 20026 "Request is already timed out" (some true))
    ∷ ("INVALID_SECRET", error_type 20027 "Invalid secret" (some true))
    ∷ []

abbrev pub client_errors_2 : List (String × ErrorType)
client_errors_2 =
    ("INVALID_ACCESSOR_SIGNATURE", error_type 20028 "Invalid accessor signature" (some true))
    ∷ ("MALFORMED_SECRET_FORMAT", error_type 20029 "Malformed secret format" (some true))
    ∷ ("DUPLICATE_ACCESSOR_ID", error_type 20030 "Duplicate accessor ID" (some true))
    ∷ (
      "NO_INCOMING_REQUEST",
      error_type 20031
          "Request could not be found / This node has not received the request from message queue"
          (some true),
    )
    ∷ (
      "INVALID_HTTP_RESPONSE_STATUS_CODE",
      error_type 20032 "Invalid HTTP response status code" (some true),
    )
    ∷ ("CANNOT_PARSE_JSON", error_type 20033 "Cannot parse string to JSON" (some true))
    ∷ (
      "MISSING_DATA_IN_AS_DATA_RESPONSE",
      error_type 20034 "Missing data in AS data response" (some true),
    )
    ∷ (
      "INVALID_DATA_TYPE_IN_AS_DATA_RESPONSE",
      error_type 20035 "Invalid data type in AS data response. Expected string." (some true),
    )
    ∷ ("BODY_TOO_LARGE", error_type 20036 "Body size is too large (greater than limit)" (some true))
    ∷ (
      "UNKNOWN_DATA_REQUEST",
      error_type 20037
          "Unknown data request (This node may has not yet received data request from RP or the request does not concern this node)"
          (some true),
    )
    ∷ (
      "UNKNOWN_CONSENT_REQUEST",
      error_type 20038
          "Unknown consent request (This node may has not yet received consent request from RP or the request does not concern this node)"
          (some true),
    )
    ∷ (
      "SERVICE_ID_NOT_FOUND_IN_REQUEST",
      error_type 20039 "Service ID could not be found in data request list of the request"
          (some true),
    )
    ∷ ("INVALID_KEY_FORMAT", error_type 20040 "Invalid or malformed key format" (some true))
    ∷ (
      "UNSUPPORTED_KEY_TYPE",
      error_type 20041 "Unsupported key type. Only RSA is allowed." (some true),
    )
    ∷ (
      "MISMATCHED_KEY_TYPE",
      error_type 20042 "Key type mismatched. Provided key type does not match with given key."
          (some true),
    )
    ∷ (
      "SOME_AS_DO_NOT_PROVIDE_SERVICE",
      error_type 20043
          "Some AS IDs in some services in data request list do not provide the requested service"
          (some true),
    )
    ∷ (
      "RSA_KEY_LENGTH_TOO_SHORT",
      error_type 20044 "RSA key length is too short. Must be at least 2048-bit." (some true),
    )
    ∷ (
      "DUPLICATE_REFERENCE_ID",
      error_type 20045 "Request for this reference ID is in progress" (some true),
    )
    ∷ (
      "EXTERNAL_DECRYPT_TEST_FAILED_MESSAGE_MISMATCH",
      error_type 20046 "External service: Receive mismatched message after decrypt" (some true),
    )
    ∷ (
      "EXTERNAL_DECRYPT_TEST_FAILED_CONNECTIVITY_ERROR",
      error_type 20047
          "External service: Cannot connect to external decrypt service or receive malform response"
          (some true),
    )
    ∷ (
      "EXTERNAL_DECRYPT_TEST_FAILED_JSON_PARSING_ERROR",
      error_type 20048 "External service: Cannot parse JSON response" (some true),
    )
    ∷ (
      "EXTERNAL_SIGN_TEST_FAILED_INVALID_SIGNATURE",
      error_type 20049 "External service: Receive invalid signature" (some true),
    )
    ∷ (
      "EXTERNAL_SIGN_TEST_FAILED_CONNECTIVITY_ERROR",
      error_type 20050
          "External service: Cannot connect to external sign service or receive malform response"
          (some true),
    )
    ∷ (
      "EXTERNAL_SIGN_TEST_FAILED_JSON_PARSING_ERROR",
      error_type 20051 "External service: Cannot parse JSON response" (some true),
    )
    ∷ (
      "EXTERNAL_MASTER_SIGN_TEST_FAILED_INVALID_SIGNATURE",
      error_type 20052 "External service: Receive invalid signature for master" (some true),
    )
    ∷ (
      "EXTERNAL_MASTER_SIGN_TEST_FAILED_CONNECTIVITY_ERROR",
      error_type 20053
          "External service: Cannot connect to external master sign service or receive malform response"
          (some true),
    )
    ∷ []

abbrev pub client_errors_3 : List (String × ErrorType)
client_errors_3 =
    (
      "EXTERNAL_MASTER_SIGN_TEST_FAILED_JSON_PARSING_ERROR",
      error_type 20054 "External service: Cannot parse JSON response" (some true),
    )
    ∷ (
      "IAL_IS_LESS_THAN_REQUEST_MIN_IAL",
      error_type 20055 "IAL is less than request's minimum IAL" (some true),
    )
    ∷ (
      "AAL_IS_LESS_THAN_REQUEST_MIN_AAL",
      error_type 20056 "AAL is less than request's minimum AAL" (some true),
    )
    ∷ ("MISSING_NODE_ID", error_type 20057 "Node ID must be provided" (some true))
    ∷ (
      "UNQUALIFIED_IDP",
      error_type 20058 "Some IdP IDs in requested IdP ID list are unqualified to response"
          (some true),
    )
    ∷ (
      "UNQUALIFIED_AS",
      error_type 20058
          "Some AS IDs in some services in data request list are unqualified to release data"
          (some true),
    )
    ∷ ("DATA_VALIDATION_FAILED", error_type 20059 "Data validation failed" (some true))
    ∷ (
      "WRONG_IAL",
      error_type 20060 "Mismatched ial between response and identity info" (some true),
    )
    ∷ (
      "INVALID_ACCESSOR_RESPONSE",
      error_type 20061 "Revoking accessor mismatch with responding accessor" (some true),
    )
    ∷ ("NOT_OWNER_OF_ACCESSOR", error_type 20062 "Cannot revoke accessor of other IDP" (some true))
    ∷ (
      "UPDATE_NODE_KEY_CHECK_FAILED",
      error_type 20063 "Signed check string mismatched" (some true),
    )
    ∷ (
      "UPDATE_MASTER_KEY_CHECK_FAILED",
      error_type 20064 "Master signed check string mismatched" (some true),
    )
    ∷ (
      "IDENTITY_MODE_MISMATCH",
      error_type 20065 "This request must be responsed by identity onboarded in mode 3" (some true),
    )
    ∷ ("UNSUPPORTED_MODE", error_type 20066 "This request mode is not supported" (some true))
    ∷ (
      "MISSING_IDENTITY_ARGUMENT_TO_MERGE",
      error_type 20067
          "Missing identity argument (\"merge_to_namespace\" or \"merge_to_identifier\") to merge"
          (some true),
    )
    ∷ (
      "IDENTITY_TO_MERGE_TO_DOES_NOT_EXIST",
      error_type 20068 "Identity to merge to does not exist" (some true),
    )
    ∷ (
      "MULTIPLE_REFERENCE_GROUP_IN_IDENTITY_LIST",
      error_type 20069 "Multiple reference group in identity list" (some true),
    )
    ∷ (
      "DATA_URL_BASE64_MUST_NOT_CONTAIN_WHITESPACES",
      error_type 20070 "Data URL with base64 encoded data must not contain whitespaces" (some true),
    )
    ∷ (
      "IDENTITY_NOT_FOUND_ON_IDP",
      error_type 20071 "An identity associated with this IdP could not be found." (some true),
    )
    ∷ ("MUST_BE_IDP_NODE", error_type 20072 "Must be IdP node" (some true))
    ∷ (
      "MODE_ALREADY_UPGRADED",
      error_type 20073 "Mode for this identity is already upgraded" (some true),
    )
    ∷ (
      "REQUEST_MESSAGE_NEEDED",
      error_type 20074 "Request message is required for consent request" (some true),
    )
    ∷ ("NOT_MODE_2_OR_3_REQUEST", error_type 20075 "Not mode 2 or 3 request" (some true))
    ∷ ("INVALID_SIGNATURE", error_type 20076 "Invalid signature" (some true))
    ∷ (
      "ACCESSOR_IS_NOT_IN_REQUEST_REFERENCE_GROUP",
      error_type 20077 "Accessor is not in request reference grouop" (some true),
    )
    ∷ []
