-- ===== src/Errors/AbciCodes.antt =====
-- main-server/src/tendermint/abci_app_code.js: the error type for a code returned by the ABCI app.
use ndidplatform_api.Base.{ℕ, String, Option, none, some, List, [], ◌∷◌, nat_eq, string_eq, get}
use ndidplatform_api.Errors.Types.{ErrorType}
use ndidplatform_api.Errors.Catalogue.{catalogue}

-- An entry `n: errorType.NAME`, by the name.
abbrev pub code_mapping : List (ℕ × String)
code_mapping =
    (1, "ABCI_ENCODING_ERROR")
    ∷ (2, "ABCI_DECODING_ERROR")
    ∷ (3, "ABCI_BAD_NONCE")
    ∷ (4, "ABCI_UNAUTHORIZED")
    ∷ (5, "ABCI_UNMARSHAL_ERROR")
    ∷ (6, "ABCI_MARSHAL_ERROR")
    ∷ (7, "ABCI_REQUEST_ID_NOT_FOUND")
    ∷ (8, "ABCI_REQUEST_IS_CLOSED")
    ∷ (9, "ABCI_REQUEST_IS_TIMED_OUT")
    ∷ (10, "ABCI_REQUEST_IS_COMPLETED")
    ∷ (11, "ABCI_DUPLICATE_SERVICE_ID")
    ∷ (12, "ABCI_TOKEN_ACCOUNT_NOT_FOUND")
    ∷ (13, "ABCI_NOT_ENOUGH_TOKEN")
    ∷ (14, "ABCI_WRONG_TRANSACTION_FORMAT")
    ∷ (15, "ABCI_METHOD_CAN_NOT_BE_EMPTY")
    ∷ (16, "ABCI_DUPLICATE_RESPONSE")
    ∷ (17, "ABCI_AAL_ERROR")
    ∷ (18, "ABCI_IAL_ERROR")
    ∷ (19, "ABCI_DUPLICATE_NODE_ID")
    ∷ (20, "ABCI_WRONG_ROLE")
    ∷ (21, "ABCI_DUPLICATE_NAMESPACE")
    ∷ (22, "ABCI_NAMESPACE_NOT_FOUND")
    ∷ (23, "ABCI_DUPLICATE_REQUEST_ID")
    ∷ (24, "ABCI_NODE_ID_NOT_FOUND")
    ∷ (25, "ABCI_DUPLICATE_PUBLIC_KEY")
    ∷ (26, "ABCI_DUPLICATE_ACCESSOR_ID")
    ∷ (27, "ABCI_DUPLICATE_ACCESSOR_GROUP_ID")
    ∷ (28, "ABCI_ACCESSOR_GROUP_ID_NOT_FOUND")
    ∷ (29, "ABCI_REQUEST_IS_NOT_COMPLETED")
    ∷ (30, "ABCI_INVALID_REQUEST_PURPOSE")
    ∷ (31, "ABCI_INVALID_MIN_IDP")
    ∷ (32, "ABCI_NODE_ID_DOES_NOT_EXIST_IN_AS_LIST")
    ∷ (33, "ABCI_AS_ID_DOES_NOT_EXIST_IN_AS_LIST")
    ∷ (34, "ABCI_SERVICE_ID_NOT_FOUND")
    ∷ (35, "ABCI_INVALID_MODE")
    ∷ (36, "ABCI_HASH_ID_NOT_FOUND")
    ∷ (37, "ABCI_DUPLICATE_IDENTITY_PROOF")
    ∷ (38, "ABCI_WRONG_IDENTITY_PROOF")
    ∷ (39, "ABCI_DUPLICATE_AS_IN_DATA_REQUEST")
    ∷ (40, "ABCI_DUPLICATE_ANSWERED_AS_ID")
    ∷ (41, "ABCI_DUPLICATE_SERVICE_ID_IN_DATA_REQUEST")
    ∷ (42, "ABCI_SERVICE_DESTINATION_NOT_FOUND")
    ∷ (43, "ABCI_DATA_REQUEST_IS_COMPLETED")
    ∷ (44, "ABCI_NOT_FIRST_IDP")
    ∷ (45, "ABCI_ACCESSOR_ID_NOT_FOUND")
    ∷ (46, "ABCI_NOT_OWNER_OF_ACCESSOR")
    ∷ (47, "ABCI_REGISTER_SERVICE_UNAUTHORIZED")
    ∷ (48, "ABCI_INCOMPLETE_RESPONSE_VALID_LIST")
    ∷ (49, "ABCI_UNKNOWN_METHOD")
    ∷ (50, "ABCI_INVALID_KEY_FORMAT")
    ∷ (51, "ABCI_UNSUPPORTED_KEY_TYPE")
    ∷ (52, "ABCI_UNKNOWN_KEY_TYPE")
    ∷ (53, "ABCI_NDID_ALREADY_EXIST")
    ∷ (54, "ABCI_NO_PERMISSION_TO_REGISTER_MESSAGE_QUEUE_ADDRESSES")
    ∷ (55, "ABCI_NO_PERMISSION_TO_CALL_NDID_METHOD")
    ∷ (56, "ABCI_NO_PERMISSION_TO_CALL_IDP_METHOD")
    ∷ (57, "ABCI_NO_PERMISSION_TO_CALL_AS_METHOD")
    ∷ (58, "ABCI_NO_PERMISSION_TO_CALL_RP_AND_IDP_METHOD")
    ∷ (59, "ABCI_SIGNATURE_VERIFICATION_FAILED")
    ∷ (60, "ABCI_NOT_REQUEST_OWNER")
    ∷ (61, "ABCI_CANNOT_GET_PUBLIC_KEY_FROM_PARAMS")
    ∷ (62, "ABCI_CANNOT_GET_MASTER_PUBLIC_KEY_BY_NODE_ID")
    ∷ (63, "ABCI_CANNOT_GET_PUBLIC_KEY_BY_NODE_ID")
    ∷ (64, "ABCI_BLOCK_TIMEOUT_MUST_BE_GREATER_THAN_ZERO")
    ∷ (65, "ABCI_RSA_KEY_LENGTH_TOO_SHORT")
    ∷ (66, "ABCI_REGISTER_IDENTITY_TIMED_OUT")
    ∷ (67, "ABCI_AMOUNT_MUST_BE_GREATER_OR_EQUAL_ZERO")
    ∷ (68, "ABCI_NODE_IS_NOT_ACTIVE")
    ∷ (69, "ABCI_SERVICE_IS_NOT_ACTIVE")
    ∷ (70, "ABCI_SERVICE_DESTINATION_IS_NOT_ACTIVE")
    ∷ (71, "ABCI_SERVICE_DESTINATION_IS_NOT_APPROVED")
    ∷ (72, "ABCI_NODE_IS_ALREADY_ASSOCIATED_WITH_PROXY_NODE")
    ∷ (73, "ABCI_NODE_IS_PROXY_NODE")
    ∷ (74, "ABCI_NODE_NOT_ASSOCIATED_WITH_PROXY_NODE")
    ∷ (75, "ABCI_PROXY_NODE_NOT_FOUND")
    ∷ (76, "ABCI_NODE_ID_DOES_NOT_EXIST_IN_REQUESTED_IDP_LIST")
    ∷ (77, "ABCI_PROXY_NODE_IS_NOT_ACTIVE")
    ∷ (78, "ABCI_NODE_ID_IN_IDP_LIST_IS_NOT_ACTIVE")
    ∷ (79, "ABCI_NODE_ID_IN_AS_LIST_IS_NOT_ACTIVE")
    ∷ (80, "ABCI_NOT_AS")
    ∷ (81, "ABCI_REQUEST_IS_NOT_CLOSED")
    ∷ (82, "ABCI_CHAIN_DISABLED")
    ∷ (83, "ABCI_CHAIN_NOT_INITIALIZED")
    ∷ (84, "ABCI_DUPLICATE_NONCE")
    ∷ (85, "ABCI_VALIDATOR_DOES_NOT_EXIST")
    ∷ (86, "ABCI_IDENTITY_ALREADY_EXIST")
    ∷ (87, "ABCI_IDENTITY_CANNOT_BE_EMPTY")
    ∷ (88, "ABCI_CANNOT_INPUT_BOTH_REF_GROUP_CODE_AND_IDENTITY")
    ∷ (89, "ABCI_REF_GROUP_NOT_FOUND")
    ∷ (90, "ABCI_IDENTITY_NOT_FOUND_ON_IDP")
    ∷ (91, "ABCI_INVALID_REQUEST_PURPOSE")
    ∷ (92, "ABCI_REQUEST_IS_ALREADY_USED")
    ∷ (93, "ABCI_REF_GROUP_CODE_CANNOT_BE_EMPTY")
    ∷ (94, "ABCI_ALL_ACCESSOR_MUST_HAVE_SAME_REF_GROUP_CODE")
    ∷ (95, "ABCI_ACCESSOR_NOT_FOUND_ON_IDP")
    ∷ (96, "ABCI_DUPLICATE_NAMESPACE_IN_IDENTITY_LIST")
    ∷ (97, "ABCI_ACCESSOR_ID_CANNOT_BE_EMPTY")
    ∷ (98, "ABCI_ACCESSOR_PUBLIC_KEY_CANNOT_BE_EMPTY")
    ∷ (99, "ABCI_ACCESSOR_TYPE_CANNOT_BE_EMPTY")
    ∷ (100, "ABCI_INVALID_NAMESPACE")
    ∷ (101, "ABCI_ALLOWED_IDENTIFIER_COUNT_EXCEEDED")
    ∷ (102, "ABCI_IAL_TOO_LOW_FOR_FIRST_IDP")
    ∷ (999, "UNKNOWN_ERROR")
    ∷ []

unfoldable pub named : Option String → Option ErrorType
named none = none
named (some n) = get n catalogue

unfoldable pub convert_abci_app_code_to_error_type : ℕ → Option ErrorType
unfolding named
convert_abci_app_code_to_error_type c = named (get c code_mapping)
