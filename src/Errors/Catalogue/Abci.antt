-- ===== src/Errors/Catalogue/Abci.antt =====
-- The errors returned from the ABCI app of ndid-error/type.js, in the file's order.
use ndidplatform_api.Base.{String, true, none, some, List, [], ◌∷◌}
use ndidplatform_api.Errors.Types.{ErrorType, error_type}

abbrev pub abci_server_errors : List (String × ErrorType)
abci_server_errors =
    ("ABCI_UNKNOWN_ERROR", error_type 15000 "Unknown Error" none)
    ∷ ("ABCI_ENCODING_ERROR", error_type 15001 "Error encoding" none)
    ∷ ("ABCI_DECODING_ERROR", error_type 15002 "Error decoding transaction in base64 format" none)
    ∷ ("ABCI_BAD_NONCE", error_type 15003 "Bad nonce" none)
    ∷ ("ABCI_UNMARSHAL_ERROR", error_type 15004 "Cannot unmarshal JSON" none)
    ∷ ("ABCI_MARSHAL_ERROR", error_type 15005 "Cannot marshal JSON" none)
    ∷ ("ABCI_WRONG_TRANSACTION_FORMAT", error_type 15006 "Wrong transaction format" none)
    ∷ ("ABCI_METHOD_CAN_NOT_BE_EMPTY", error_type 15007 "Method name cannot be empty" none)
    ∷ ("ABCI_DUPLICATE_REQUEST_ID", error_type 15008 "Duplicate request ID" none)
    ∷ (
      "ABCI_ACCESSOR_GROUP_ID_NOT_FOUND",
      error_type 15009 "Accessor group ID could not be found" none,
    )
    ∷ ("ABCI_REQUEST_IS_NOT_COMPLETED", error_type 15010 "Request is not completed" none)
    ∷ ("ABCI_INVALID_REQUEST_PURPOSE", error_type 15011 "Invalid request purpose" none)
    ∷ (
      "ABCI_NODE_ID_DOES_NOT_EXIST_IN_AS_LIST",
      error_type 15012 "Node ID does not exist in AS ID list" none,
    )
    ∷ (
      "ABCI_AS_ID_DOES_NOT_EXIST_IN_AS_LIST",
      error_type 15013 "AS ID does not exist in AS ID list" none,
    )
    ∷ ("ABCI_INVALID_MIN_IDP", error_type 15014 "Invalid minimum IdP" none)
    ∷ ("ABCI_DUPLICATE_ACCESSOR_GROUP_ID", error_type 15015 "Duplicate accessor group ID" none)
    ∷ ("ABCI_DUPLICATE_IDENTITY_PROOF", error_type 15016 "Duplicate identity proof" none)
    ∷ ("ABCI_WRONG_IDENTITY_PROOF", error_type 15017 "Wrong identity proof" none)
    ∷ (
      "ABCI_NOT_FIRST_IDP",
      error_type 15018 "Cannot register message queue destination for identity as the first IdP"
          none,
    )
    ∷ (
      "ABCI_INCOMPLETE_RESPONSE_VALID_LIST",
      error_type 15019 "Incomplete IdP response valid list" none,
    )
    ∷ ("ABCI_UNKNOWN_METHOD", error_type 15020 "Unknown method" none)
    ∷ (
      "ABCI_REGISTER_IDENTITY_TIMED_OUT",
      error_type 15021 "Identity registration is timed out" none,
    )
    ∷ ("ABCI_NODE_IS_NOT_ACTIVE", error_type 15022 "Node is disabled" none)
    ∷ ("ABCI_SERVICE_IS_NOT_ACTIVE", error_type 15023 "Service is disabled" none)
    ∷ (
      "ABCI_SERVICE_DESTINATION_IS_NOT_ACTIVE",
      error_type 15024 "Service destination is disabled" none,
    )
    ∷ (
      "ABCI_SERVICE_DESTINATION_IS_NOT_APPROVED",
      error_type 15025 "Service destination is not approved or disabled by NDID" none,
    )
    ∷ ("ABCI_PROXY_NODE_IS_NOT_ACTIVE", error_type 15026 "Proxy node is disabled" none)
    ∷ ("ABCI_REQUEST_IS_NOT_CLOSED", error_type 15027 "Request is not closed" none)
    ∷ ("ABCI_CHAIN_DISABLED", error_type 15028 "Blockchain is disabled" none)
    ∷ ("ABCI_CHAIN_NOT_INITIALIZED", error_type 15029 "Blockchain is not initialized" none)
    ∷ ("ABCI_DUPLICATE_NONCE", error_type 15030 "Duplicate transaction nonce" none)
    ∷ ("ABCI_REQUEST_IS_ALREADY_USED", error_type 15031 "Request is already used" none)
    ∷ []

abbrev pub abci_client_errors_1 : List (String × ErrorType)
abci_client_errors_1 =
    ("ABCI_REQUEST_ID_NOT_FOUND", error_type 25001 "Request ID could not be found" (some true))
    ∷ ("ABCI_REQUEST_IS_CLOSED", error_type 25002 "Request is already closed" (some true))
    ∷ ("ABCI_REQUEST_IS_TIMED_OUT", error_type 25003 "Request is already timed out" (some true))
    ∷ ("ABCI_REQUEST_IS_COMPLETED", error_type 25004 "Request is already completed" (some true))
    ∷ ("ABCI_DUPLICATE_SERVICE_ID", error_type 25005 "Duplicate service ID" (some true))
    ∷ (
      "ABCI_TOKEN_ACCOUNT_NOT_FOUND",
      error_type 25006 "Token account (Node ID) could not be found" (some true),
    )
    ∷ (
      "ABCI_NOT_ENOUGH_TOKEN",
      error_type 25007 "Not enough token to make a transaction" (some true),
    )
    ∷ ("ABCI_DUPLICATE_RESPONSE", error_type 25008 "Duplicate response" (some true))
    ∷ ("ABCI_AAL_ERROR", error_type 25009 "AAL error" (some true))
    ∷ ("ABCI_IAL_ERROR", error_type 25010 "IAL error" (some true))
    ∷ ("ABCI_DUPLICATE_NODE_ID", error_type 25011 "Duplicate Node ID" (some true))
    ∷ ("ABCI_WRONG_ROLE", error_type 25012 "Invalid role" (some true))
    ∷ ("ABCI_DUPLICATE_NAMESPACE", error_type 25013 "Duplicate namespace" (some true))
    ∷ ("ABCI_NAMESPACE_NOT_FOUND", error_type 25014 "Namespace could not be found" (some true))
    ∷ ("ABCI_NODE_ID_NOT_FOUND", error_type 25015 "Node ID could not be found" (some true))
    ∷ (
      "ABCI_DUPLICATE_PUBLIC_KEY",
      error_type 25016 "Duplicate public key (already used)" (some true),
    )
    ∷ ("ABCI_DUPLICATE_ACCESSOR_ID", error_type 25017 "Duplicate accessor ID" (some true))
    ∷ ("ABCI_SERVICE_ID_NOT_FOUND", error_type 25018 "Service ID could not be found" (some true))
    ∷ ("ABCI_INVALID_MODE", error_type 25019 "Invalid mode" (some true))
    ∷ ("ABCI_HASH_ID_NOT_FOUND", error_type 25020 "Hash ID could not be found" (some true))
    ∷ (
      "ABCI_DUPLICATE_AS_IN_DATA_REQUEST",
      error_type 25021 "Duplicate AS in data request list" (some true),
    )
    ∷ ("ABCI_DUPLICATE_ANSWERED_AS_ID", error_type 25022 "Duplicate answered AS ID" (some true))
    ∷ (
      "ABCI_DUPLICATE_SERVICE_ID_IN_DATA_REQUEST",
      error_type 25023 "Duplicate service ID in data request list" (some true),
    )
    ∷ (
      "ABCI_SERVICE_DESTINATION_NOT_FOUND",
      error_type 25024 "Service destination could not be found" (some true),
    )
    ∷ (
      "ABCI_DATA_REQUEST_IS_COMPLETED",
      error_type 25025 "Data request is already completed" (some true),
    )
    ∷ ("ABCI_ACCESSOR_ID_NOT_FOUND", error_type 25026 "Accessor ID could not be found" (some true))
    ∷ []

abbrev pub abci_client_errors_2 : List (String × ErrorType)
abci_client_errors_2 =
    (
      "ABCI_NOT_OWNER_OF_ACCESSOR",
      error_type 25027 "This node is not an owner of this accessor" (some true),
    )
    ∷ (
      "ABCI_REGISTER_SERVICE_UNAUTHORIZED",
      error_type 25028
          "Unauthorized to register a service (NDID may have not granted this node the right to register this service)"
          (some true),
    )
    ∷ ("ABCI_INVALID_KEY_FORMAT", error_type 25029 "Invalid key format" (some true))
    ∷ (
      "ABCI_UNSUPPORTED_KEY_TYPE",
      error_type 25030 "Unsupported key type. Only RSA and EC are allowed." (some true),
    )
    ∷ ("ABCI_UNKNOWN_KEY_TYPE", error_type 25031 "Unknown key type" (some true))
    ∷ ("ABCI_NDID_ALREADY_EXIST", error_type 25032 "NDID node is already existed" (some true))
    ∷ (
      "ABCI_NO_PERMISSION_TO_REGISTER_MESSAGE_QUEUE_ADDRESSES",
      error_type 25033 "No permission to register message queue addresses" (some true),
    )
    ∷ (
      "ABCI_NO_PERMISSION_TO_CALL_NDID_METHOD",
      error_type 25034 "No permission to call NDID method" (some true),
    )
    ∷ (
      "ABCI_NO_PERMISSION_TO_CALL_IDP_METHOD",
      error_type 25035 "No permission to call IdP method" (some true),
    )
    ∷ (
      "ABCI_NO_PERMISSION_TO_CALL_AS_METHOD",
      error_type 25036 "No permission to call AS method" (some true),
    )
    ∷ (
      "ABCI_NO_PERMISSION_TO_CALL_RP_AND_IDP_METHOD",
      error_type 25037 "No permission to call RP and IdP method" (some true),
    )
    ∷ (
      "ABCI_SIGNATURE_VERIFICATION_FAILED",
      error_type 25038 "Node's signature verification failed" (some true),
    )
    ∷ ("ABCI_NOT_REQUEST_OWNER", error_type 25039 "Not a request owner" (some true))
    ∷ (
      "ABCI_CANNOT_GET_PUBLIC_KEY_FROM_PARAMS",
      error_type 25040 "Cannot get public key from parameters" (some true),
    )
    ∷ (
      "ABCI_CANNOT_GET_MASTER_PUBLIC_KEY_BY_NODE_ID",
      error_type 25041 "Cannot get master public key by node ID" (some true),
    )
    ∷ (
      "ABCI_CANNOT_GET_PUBLIC_KEY_BY_NODE_ID",
      error_type 25042 "Cannot get public key by node ID" (some true),
    )
    ∷ (
      "ABCI_BLOCK_TIMEOUT_MUST_BE_GREATER_THAN_ZERO",
      error_type 25043
          "Block timeout for registering message queue destination must be greater than 0"
          (some true),
    )
    ∷ (
      "ABCI_RSA_KEY_LENGTH_TOO_SHORT",
      error_type 25044 "RSA key length is too short. Must be at least 2048-bit" (some true),
    )
    ∷ (
      "ABCI_AMOUNT_MUST_BE_GREATER_OR_EQUAL_ZERO",
      error_type 25045 "Amount must be greater than or equal to 0" (some true),
    )
    ∷ (
      "ABCI_NODE_IS_ALREADY_ASSOCIATED_WITH_PROXY_NODE",
      error_type 25046 "Node is already associated with a proxy node" (some true),
    )
    ∷ ("ABCI_NODE_IS_PROXY_NODE", error_type 25047 "Node is a proxy node" (some true))
    ∷ (
      "ABCI_NODE_NOT_ASSOCIATED_WITH_PROXY_NODE",
      error_type 25048 "Node is not associated with any proxy node" (some true),
    )
    ∷ (
      "ABCI_PROXY_NODE_NOT_FOUND",
      error_type 25049 "Proxy node could not be found or does not exist" (some true),
    )
    ∷ []

abbrev pub abci_client_errors_3 : List (String × ErrorType)
abci_client_errors_3 =
    (
      "ABCI_NODE_ID_DOES_NOT_EXIST_IN_REQUESTED_IDP_LIST",
      error_type 25050 "Node ID does not exist in requested IdP list" (some true),
    )
    ∷ (
      "ABCI_NODE_ID_IN_IDP_LIST_IS_NOT_ACTIVE",
      error_type 25051 "One or more node IDs in requested IdP list are not active" (some true),
    )
    ∷ (
      "ABCI_NODE_ID_IN_AS_LIST_IS_NOT_ACTIVE",
      error_type 25052 "One or more node IDs in requested service AS list are not active"
          (some true),
    )
    ∷ ("ABCI_NOT_AS", error_type 25053 "This node ID does not belong to AS" (some true))
    ∷ ("ABCI_VALIDATOR_DOES_NOT_EXIST", error_type 25054 "Validator does not exist" (some true))
    ∷ ("ABCI_IDENTITY_ALREADY_EXIST", error_type 25055 "Identity already exist" (some true))
    ∷ ("ABCI_IDENTITY_CANNOT_BE_EMPTY", error_type 25056 "Identity cannot be empty" (some true))
    ∷ (
      "ABCI_CANNOT_INPUT_BOTH_REF_GROUP_CODE_AND_IDENTITY",
      error_type 25057 "Cannot input both reference group code and identity" (some true),
    )
    ∷ (
      "ABCI_REF_GROUP_NOT_FOUND",
      error_type 25058 "Reference group code could not be found" (some true),
    )
    ∷ (
      "ABCI_IDENTITY_NOT_FOUND_ON_IDP",
      error_type 25059 "Identity could not be found on input IdP" (some true),
    )
    ∷ (
      "ABCI_REF_GROUP_CODE_CANNOT_BE_EMPTY",
      error_type 25060 "Reference group code cannot be empty" (some true),
    )
    ∷ (
      "ABCI_ALL_ACCESSOR_MUST_HAVE_SAME_REF_GROUP_CODE",
      error_type 25061 "All accessors must have the same reference group code" (some true),
    )
    ∷ (
      "ABCI_ACCESSOR_NOT_FOUND_ON_IDP",
      error_type 25062 "Accessor could not be found on input IdP" (some true),
    )
    ∷ (
      "ABCI_DUPLICATE_NAMESPACE_IN_IDENTITY_LIST",
      error_type 25063 "Duplicate namespace in identity list" (some true),
    )
    ∷ (
      "ABCI_ACCESSOR_ID_CANNOT_BE_EMPTY",
      error_type 25064 "Accessor ID cannot be empty" (some true),
    )
    ∷ (
      "ABCI_ACCESSOR_PUBLIC_KEY_CANNOT_BE_EMPTY",
      error_type 25065 "Accessor public key cannot be empty" (some true),
    )
    ∷ (
      "ABCI_ACCESSOR_TYPE_CANNOT_BE_EMPTY",
      error_type 25066 "Accessor type cannot be empty" (some true),
    )
    ∷ ("ABCI_INVALID_NAMESPACE", error_type 25067 "Invalid namespace" (some true))
    ∷ (
      "ABCI_ALLOWED_IDENTIFIER_COUNT_EXCEEDED",
      error_type 25068 "Exceed number of identifier allowed for namespace" (some true),
    )
    ∷ ("ABCI_IAL_TOO_LOW_FOR_FIRST_IDP", error_type 25069 "Too low IAL for first IdP" (some true))
    ∷ (
      "ABCI_UNAUTHORIZED",
      error_type 35001
          "Unauthorized (This node may have not been registered with NDID or calling a function with a wrong role)"
          none,
    )
    ∷ []
