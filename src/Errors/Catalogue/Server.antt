-- ===== src/Errors/Catalogue/Server.antt =====
-- The server errors of ndid-error/type.js, in the file's order.
use ndidplatform_api.Base.{String, none, List, [], ◌∷◌}
use ndidplatform_api.Errors.Types.{ErrorType, error_type}

abbrev pub test_errors : List (String × ErrorType)
test_errors = ("TEST", error_type 100 "Test error callback" none) ∷ []

abbrev pub server_errors_1 : List (String × ErrorType)
server_errors_1 =
    ("UNKNOWN_ERROR", error_type 10000 "Unknown Error" none)
    ∷ ("TENDERMINT_HTTP_CALL_ERROR", error_type 10001 "Tendermint HTTP RPC call failed" none)
    ∷ (
      "TENDERMINT_QUERY_JSON_RPC_ERROR",
      error_type 10002 "Tendermint JSON-RPC call error (query)" none,
    )
    ∷ ("TENDERMINT_QUERY_ERROR", error_type 10003 "Tendermint query failed" none)
    ∷ (
      "TENDERMINT_QUERY_RESULT_JSON_PARSE_ERROR",
      error_type 10004 "Cannot parse Tendermint query result JSON" none,
    )
    ∷ (
      "TENDERMINT_TRANSACT_JSON_RPC_ERROR",
      error_type 10005 "Tendermint JSON-RPC call error (transact)" none,
    )
    ∷ ("TENDERMINT_TRANSACT_ERROR", error_type 10006 "Tendermint transact failed" none)
    ∷ (
      "TENDERMINT_SYNCING",
      error_type 10007 "Syncing blockchain data. Please try again later." none,
    )
    ∷ (
      "TENDERMINT_NOT_CONNECTED",
      error_type 10008 "Not connected to Tendermint. Please try again later." none,
    )
    ∷ ("BODY_PARSER_ERROR", error_type 10009 "Body parsing failed" none)
    ∷ (
      "EXTERNAL_SIGN_URL_NOT_SET",
      error_type 10010 "External crypto service for signing with node key URL has not been set"
          none,
    )
    ∷ (
      "EXTERNAL_SIGN_MASTER_URL_NOT_SET",
      error_type 10011
          "External crypto service for signing with node master key URL has not been set" none,
    )
    ∷ (
      "EXTERNAL_DECRYPT_URL_NOT_SET",
      error_type 10012 "External crypto service for decrypting with node key URL has not been set"
          none,
    )
    ∷ (
      "ENCRYPT_WITH_ACCESSOR_KEY_URL_NOT_SET",
      error_type 10013 "Encrypt with accessor key callback URL has not been set" none,
    )
    ∷ (
      "ENCRYPT_WITH_ACCESSOR_KEY_FAILED",
      error_type 10014 "Cannot encrypt with accessor key by callback" none,
    )
    ∷ (
      "INVALID_RESPONSE",
      error_type 10015 "Invalid response from IdP (Invalid signature or ZK proof)" none,
    )
    ∷ ("USER_REJECTED", error_type 10016 "User has rejected to give a consent" none)
    ∷ (
      "REGISTERING_MESSAGE_QUEUE_ADDRESS",
      error_type 10017 "Message queue address is being registered" none,
    )
    ∷ (
      "MESSAGE_QUEUE_ADDRESS_NOT_FOUND",
      error_type 10018 "Message queue destination not found" none,
    )
    ∷ ("DIFFERENT_ACCESSOR_GROUP_ID", error_type 10019 "Conflicted accessor group ID" none)
    ∷ ("MESSAGE_FROM_UNKNOWN_NODE", error_type 10020 "Received message from unknown node" none)
    ∷ ("INVALID_MESSAGE_SIGNATURE", error_type 10021 "Invalid message signature" none)
    ∷ (
      "DECRYPT_MESSAGE_ERROR",
      error_type 10022 "Error decrypting message received from message queue" none,
    )
    ∷ (
      "MALFORMED_MESSAGE_FORMAT",
      error_type 10023 "Malformed message format from message queue" none,
    )
    ∷ (
      "INVALID_RESPONSES",
      error_type 10024 "One or more responses from IdP are invalid (Invalid signature or ZK proof)"
          none,
    )
    ∷ ("REQUEST_INTEGRITY_CHECK_FAILED", error_type 10025 "Request integrity check failed" none)
    ∷ (
      "LOADING_EXPECTED_TXS_CACHE",
      error_type 10026 "Loading expected transactions from cache DB" none,
    )
    ∷ []

abbrev pub server_errors_2 : List (String × ErrorType)
server_errors_2 =
    (
      "WRONG_MESSAGE_QUEUE_PROTOCOL",
      error_type 10027 "Received unrecognized message via message queue" none,
    )
    ∷ ("DB_ERROR", error_type 10028 "Database error" none)
    ∷ (
      "WAITING_FOR_DPKI_CALLBACK_URL_SET",
      error_type 10029 "Waiting for DPKI callback URLs to be set" none,
    )
    ∷ (
      "CANNOT_WRITE_CALLBACK_URL_TO_FILE",
      error_type 10030 "Cannot write callback url to file" none,
    )
    ∷ (
      "CANNOT_READ_CALLBACK_URL_FROM_FILE",
      error_type 10031 "Cannot read callback url from file" none,
    )
    ∷ ("NODE_INFO_NOT_FOUND", error_type 10032 "Node info could not be found" none)
    ∷ (
      "INVALID_DATA_RESPONSE_SIGNATURE",
      error_type 10033 "Invalid data response from AS (Invalid signature)" none,
    )
    ∷ (
      "NODE_KEY_NOT_FOUND",
      error_type 10034 "Key could not be found. May need to re-initialize node keys." none,
    )
    ∷ ("CANNOT_PARSE_DATA", error_type 10035 "Cannot parse data string to JSON" none)
    ∷ ("CANNOT_GET_DATA_SCHEMA", error_type 10036 "Cannot get data schema from blockchain" none)
    ∷ ("CANNOT_VALIDATE_DATA", error_type 10037 "Cannot validate AS data response" none)
    ∷ ("MQ_SEND_ERROR", error_type 10038 "Message queue (sender) error" none)
    ∷ ("MQ_RECV_ERROR", error_type 10039 "Message queue (receiver) error" none)
    ∷ ("MQ_SEND_CLEANUP_ERROR", error_type 10040 "Message queue (sender) clean up error" none)
    ∷ (
      "MQ_SEND_TIMEOUT",
      error_type 10041 "Message queue send retry timed out. Give up sending." none,
    )
    ∷ (
      "MQ_SEND_ACK_UNKNOWN_MESSAGE_ID",
      error_type 10042 "Cannot send ACK for unknown message ID" none,
    )
    ∷ ("INVALID_MESSAGE_TYPE", error_type 10043 "Invalid message type" none)
    ∷ ("INVALID_MESSAGE_SCHEMA", error_type 10044 "Invalid message schema" none)
    ∷ ("CANNOT_VALIDATE_MESSAGE", error_type 10045 "Cannot validate MQ message" none)
    ∷ (
      "CANNOT_SAVE_TRANSACT_REQUEST_FOR_RETRY",
      error_type 10046 "Cannot save transact request for retry later on blockchain disabled" none,
    )
    ∷ (
      "UNRECOGNIZED_MESSAGE_CHAIN_ID",
      error_type 10047 "Received message from MQ with unrecognized chain ID" none,
    )
    ∷ (
      "TENDERMINT_HTTP_CALL_UNEXPECTED_RESULT",
      error_type 10048 "Tendermint HTTP RPC call got unexpected result" none,
    )
    ∷ ("TENDERMINT_MEMPOOL_FULL", error_type 10049 "Tendermint mempool is full" none)
    ∷ ("NO_MODE_AVAILABLE", error_type 10050 "No mode available" none)
    ∷ (
      "MQ_PROTOCOL_MESSAGE_VERSION_MISMATCH",
      error_type 10051 "MQ protocol message version mismatch" none,
    )
    ∷ ("MQ_MESSAGE_VERSION_MISMATCH", error_type 10052 "MQ message version mismatch" none)
    ∷ []
