-- ===== src/Lib.antt =====
-- The NDID platform API: the core of its API server and of its message-queue server, verified.
--
-- The program. The API server (main-server) serves relying parties, identity providers and
-- authoritative sources: it takes requests over HTTP, writes to a blockchain through Tendermint, and
-- exchanges messages with other nodes through the message-queue server (mq-server), which sends a
-- message again until it is acknowledged. Errors of both are objects of ndid-error.
--
-- The files.
--   Base: the names shared by all: tests, lists, keyed maps (JavaScript's `Map` and objects used as
--     dictionaries, as association lists in insertion order) and sums over their entries.
--   Errors: ndid-error/type.js (Errors.Catalogue, the table of error types by name),
--     main-server/src/tendermint/abci_app_code.js (Errors.AbciCodes), ndid-error/custom_error.js and
--     ndid-error/helpers.js (Errors.Custom). Errors.Checks and Errors.Custom.Chain hold the proofs.
--   Utils: main-server/src/utils/long_timeout.js (Utils.LongTimeout), and the padded hash that is
--     signed, `getDataHashWithCustomPadding` to `verifyResponseSignature` of
--     main-server/src/utils/index.js (Utils.Padding); Length and Verified hold the proofs.
--   Mq: mq-server/src/mq_module/mq_logic.js (Mq.Logic), with CleanUp, Invariant, Retry and
--     Unacknowledged for what they prove; mq_send_socket.js (Mq.SendSocket, the pool of sockets; Keep,
--     Close and Clean prove what a clean-up does, Attach and Send what a send does, Messages what
--     becomes of a message), mq_send_controller.js (Mq.SendController, the logic and the pool together;
--     Books, Sending and Steps hold the proofs), and mq_protocol.js with mq_recv_controller.js
--     (Mq.Protocol).
--   Request: `getDetailedRequestStatus` of main-server/src/utils/index.js (Request.Status), and
--     `createResponse` of main-server/src/core/idp/create_response.js (Request.Response);
--     `createRequest` of main-server/src/core/common/create_request.js with its checks
--     (Request.Create: Idps, Services and References hold the proofs), and `getIdpMQDestinations` of
--     main-server/src/core/common/index.js (Request.Destinations) and `getAndSaveIdpResponseValid` there
--     (Request.Validity, an RP's judgement of an answer; Agreement compares it with Request.Response).
--   Tasks: main-server/src/core/request_process_manager.js (Tasks.Queue), with Invariant, Steps, Order
--     and Stale for what they prove; its counters are in Tasks.Count. Tasks.Blocks is the waiting for a
--     block there, with `processNewBlock` of main-server/src/tendermint/index.js; Tracked,
--     Fetched, Once and Settle have the proofs.
--   Callbacks: the retry loop of main-server/src/callback.js (Callbacks); Retry has the proofs.
--   Workers: the master of main-server/src/master-worker-interface/server.js (Workers, and
--     Workers.Events for the calls on it); Books, Sound, Resumed and Runs prove that its books are right,
--     LeastBusy which worker gets a job, Returned what a result does, Lost what becomes of the tasks of
--     lost workers.
--   Messages: main-server/src/mq/index.js (Messages.Inbound: received messages until they are processed;
--     Remembered, Bounded and Duplicates have the proofs on duplicates, Saved, InHand and Kept those on
--     messages that wait, Faults what goes wrong; Messages.Opened: how a message is sealed, opened and
--     checked, with Delivered on what is sent and Authentic on what is accepted).
--   Tendermint: main-server/src/tendermint/ws_client.js (Tendermint.Client; Settled has the proofs) and
--     main-server/src/tendermint/ws_pool.js (Tendermint.Pool; Clients and Count prove what its count
--     says, RoundRobin and Available which connection is given out); Tendermint.Expected has the
--     transactions that main-server/src/tendermint/index.js sends and waits for (Once has the proofs on
--     callbacks and answers, Backoff on retries, Faults on what fails in a block).
-- The modules named Tests run the code on small inputs and apply the theorems there.
--
-- How the code is modelled. A method or handler is a function from the state to the new state, the
-- events that it emits and, where it can throw, an error. What runs between two `await`s is one step;
-- interleavings are sequences of steps. In Tendermint.Expected and Messages.Inbound calls of the cache
-- DB and the log of messages take no time. The runtime's timers and its queue of `setImmediate` calls
-- are fields of the state, and a step takes one of them. The blockchain, the cache DB and the signature
-- check are a record of functions in Request.Response; the crypto and number libraries are one in
-- Utils.Padding, which has the signature check itself. Encryption, signatures and the coding of
-- messages are a record of functions in Messages.Opened; the protobuf library is a parameter of
-- Mq.Protocol, and the random id of a new socket one of Mq.SendController, where it is a function of
-- the sequence number that is sent. Counters that may fall below zero are integers; all other numbers
-- are natural numbers without bound, where JavaScript's are exact up to 2^53. IAL and AAL are in
-- tenths. `maxRetries`, a quotient of two time-outs that is not rounded, is compared by
-- multiplying out, which agrees with the floating-point test while both stay below 2^53.
--
-- Fuel. `unacknowledged` of Mq.Logic.Unacknowledged and `elapsed` and `next_call` of
-- Utils.LongTimeout.Elapsed run on fuel; the theorems about them say how much is enough: as many
-- rounds as attempts, as many legs as the limit goes into the time. The loop of Utils.Padding needs
-- one more than its rounds, 15 for the block of 2048 bits.
--
-- Not modelled: HTTP routes and their validation, the rest of the Tendermint client, caches, encryption
-- and the making of signatures, messages on their way out (main-server/src/mq/index.js), the receiving
-- socket of the message-queue server and its gRPC server, the worker processes, metrics, logging and
-- configuration; what `createRequest` does once the request is saved; of a callback its saved data and
-- the calls that resume it; and of the request process manager the restoring of saved queues.
pub mod Base
pub mod Errors
pub mod Utils
pub mod Mq
pub mod Request
pub mod Tasks
pub mod Callbacks
pub mod Workers
pub mod Messages
pub mod Tendermint
