-- ===== src/Tendermint/Expected.antt =====
-- Transactions on their way to a block, in main-server/src/tendermint/index.js: `transact`,
-- `processExpectedTx` and `retryOnTransactFail`, with the variable `expectedTx` and its count.
-- A transaction is known by its hash, which its nonce makes new. Broadcasting is a call of Tendermint:
-- `transact` is the part before its answer, and its answer is one of the events. Signing, encoding,
-- the arguments of callbacks, and calls of the cache DB that fail are left out.
pub mod Once
pub mod Faults
pub mod Backoff
mod Tests
use ndidplatform_api.Base.{
  ℕ, zero, suc, String, Bool, true, false, ◌&&◌, ◌||◌, not, Option, none, some, List, [], ◌∷◌, ◌++◌,
  if◌then◌else◌, ◌==◌, nat_eq, string_eq, get, put, delete, is_some, leb, ◌+◌,
}
use ndidplatform_api.Tasks.Count.{ℤ, pos, increment, decrement}

-- The errors that the code tells apart, by their types' names.
pub data TxError : Type 0 where
  chain_disabled not_enough_token tendermint_mempool_full : TxError
  other : String → TxError

pub record TransactParams : Type 0 where
  pub node_id : String
  pub fn_name : String
  -- None: the caller waits for the commit.
  pub callback_fn_name : Option String
  pub save_for_retry_on_chain_disabled : Bool
  pub retry_on_fail : Bool
  pub counter : ℕ

pub data RetVal : Type 0 where
  committed : ℕ → RetVal
  failed : TxError → RetVal
  chain_disabled_retry_later : RetVal

-- A call of `transact` in progress: whether its broadcast was answered, and the commit when that came
-- in before.
pub record Call : Type 0 where
  pub params : TransactParams
  pub is_broadcast : Bool
  pub commit : Option RetVal

-- What `transact` comes to, for those that called it.
pub data Answer : Type 0 where
  resolved : RetVal → Answer
  broadcast : Answer
  retried : Answer
  rejected : TxError → Answer

pub record Txs : Type 0 where
  pub expected_tx : List (String × TransactParams)
  pub expected_txs_count : ℤ
  -- In the cache DB: expected transactions, those to retry when they fail, and the backlog for a
  -- disabled chain.
  pub saved_expected : List (String × TransactParams)
  pub saved_retries : List (String × TransactParams)
  pub backlog : List TransactParams
  -- `transact` calls in progress, of which those without a callback listen for the commit.
  pub calls : List (String × Call)
  -- Timeouts after which a transaction is sent again, each with its delay.
  pub retry_timeouts : List (Option ℕ × TransactParams)
  -- By hash: callbacks that were called, and answers that were given.
  pub called_back : List (String × (String × RetVal))
  pub answers : List (String × Answer)

unfoldable pub new : Txs
new = record {
  expected_tx = [];
  expected_txs_count = pos 0;
  saved_expected = [];
  saved_retries = [];
  backlog = [];
  calls = [];
  retry_timeouts = [];
  called_back = [];
  answers = [];
}

unfoldable pub mempool_full_or_out_of_token : TxError → Bool
mempool_full_or_out_of_token not_enough_token = true
mempool_full_or_out_of_token tendermint_mempool_full = true
mempool_full_or_out_of_token e = false

unfoldable pub is_chain_disabled : TxError → Bool
is_chain_disabled chain_disabled = true
is_chain_disabled e = false

-- `backoff.next()` as often as the counter says: undefined for a counter of zero, else the last of
-- 5000, 10000, ... up to 180000, without the jitter.
unfoldable pub doubled : ℕ → ℕ
doubled n = if leb 90000 n then 180000 else n + n

unfoldable pub backoff_next : ℕ → ℕ
backoff_next zero = 5000
backoff_next (suc n) = doubled (backoff_next n)

unfoldable pub next_retry : ℕ → Option ℕ
next_retry zero = none
next_retry (suc n) = some (backoff_next n)

unfoldable pub schedule_retry : TransactParams → Txs → Txs
schedule_retry p s = record s {
  retry_timeouts = s.retry_timeouts ++ (next_retry p.counter, p) ∷ [];
}

-- `retryOnTransactFail`, given the parameters or to look them up.
unfoldable pub retry_on_transact_fail : Option TransactParams → Txs → Txs
retry_on_transact_fail none s = s
retry_on_transact_fail (some p) s = schedule_retry p s

unfoldable pub handle_blockchain_disabled : TransactParams → Txs → Txs
handle_blockchain_disabled p s = record s { backlog = s.backlog ++ p ∷ [] }

-- The parameters as they are kept with an expected transaction and for a disabled chain.
unfoldable pub without_retry : TransactParams → TransactParams
without_retry p = record p { retry_on_fail = false; counter = 0 }

-- `transact` up to the broadcast.
unfoldable pub expect_tx : String → TransactParams → Txs → Txs
expect_tx hash p s = record s {
  expected_tx = put hash (without_retry p) s.expected_tx;
  expected_txs_count = increment s.expected_txs_count;
  saved_expected = put hash (without_retry p) s.saved_expected;
  saved_retries =
      if p.retry_on_fail && p.counter == 0 then put hash p s.saved_retries else s.saved_retries;
  calls = put hash (record { params = p; is_broadcast = false; commit = none }) s.calls;
}

unfoldable pub transact : String → TransactParams → Txs → Txs
transact hash p s =
    if p.node_id == ""
    then record s { answers = (hash, rejected (other "Missing argument \"nodeId\"")) ∷ s.answers }
    else expect_tx hash p s

unfoldable pub answer : String → Answer → Txs → Txs
answer hash a s = record s { calls = delete hash s.calls; answers = (hash, a) ∷ s.answers }

-- What the `catch` of `transact` does once the transaction is no longer expected.
unfoldable pub after_failure : String → TransactParams → TxError → Txs → Txs
after_failure hash p e s =
    if is_chain_disabled e && p.save_for_retry_on_chain_disabled
    then answer hash (resolved chain_disabled_retry_later)
        (handle_blockchain_disabled (without_retry p) s)
    else if p.retry_on_fail && mempool_full_or_out_of_token e
    then answer hash retried (retry_on_transact_fail (some p) s)
    else answer hash (rejected e) s

unfoldable pub forget_expected : String → Txs → Txs
forget_expected hash s = record s {
  expected_tx = delete hash s.expected_tx;
  expected_txs_count = decrement s.expected_txs_count;
}

unfoldable pub remove_saved_expected : String → Txs → Txs
remove_saved_expected hash s = record s { saved_expected = delete hash s.saved_expected }

unfoldable pub catch_error : String → TransactParams → TxError → Txs → Txs
catch_error hash p e s =
    after_failure hash p e (remove_saved_expected hash (forget_expected hash s))

-- A commit that the call gets, by its listener.
unfoldable pub settle_commit : String → TransactParams → RetVal → Txs → Txs
settle_commit hash p (failed e) s = catch_error hash p e s
settle_commit hash p r s = answer hash (resolved r) s

-- A listener hears one commit only.
unfoldable pub keep_commit : String → Call → RetVal → Option RetVal → Txs → Txs
keep_commit hash c r none s = record s { calls = put hash (record c { commit = some r }) s.calls }
keep_commit hash c r (some first) s = s

-- `txEventEmitter.emit`.
unfoldable pub emit_commit : String → RetVal → Option Call → Txs → Txs
emit_commit hash r none s = s
emit_commit hash r (some c) s =
    if c.is_broadcast then settle_commit hash c.params r s else keep_commit hash c r c.commit s

unfoldable pub call_back : String → String → RetVal → Txs → Txs
call_back hash f r s = record s {
  saved_retries = delete hash s.saved_retries;
  called_back = (hash, (f, r)) ∷ s.called_back;
}

unfoldable pub retry_if_full : String → RetVal → Txs → Txs
retry_if_full hash (failed e) s =
    if mempool_full_or_out_of_token e
    then retry_on_transact_fail (get hash s.saved_retries) s
    else s
retry_if_full hash r s = s

unfoldable pub must_wait_for_chain : TransactParams → RetVal → Bool
must_wait_for_chain p (failed e) = is_chain_disabled e && p.save_for_retry_on_chain_disabled
must_wait_for_chain p r = false

-- A transaction with a callback. For one that waits for the chain the code goes on to read the code
-- of an error that it has just replaced, which throws: all that follows is skipped.
unfoldable pub process_with_callback : String → TransactParams → String → RetVal → Txs → Txs
process_with_callback hash p f r s =
    if must_wait_for_chain p r
    then handle_blockchain_disabled p s
    else remove_saved_expected hash (call_back hash f r (retry_if_full hash r s))

unfoldable pub process_by_callback : String → TransactParams → Option String → RetVal → Txs → Txs
process_by_callback hash p none r s =
    remove_saved_expected hash (emit_commit hash r (get hash s.calls) s)
process_by_callback hash p (some f) r s = process_with_callback hash p f r s

unfoldable pub process_if_expected : String → RetVal → Option TransactParams → Txs → Txs
process_if_expected hash r none s = s
process_if_expected hash r (some p) s =
    process_by_callback hash p p.callback_fn_name r (forget_expected hash s)

unfoldable pub process_expected_tx : String → RetVal → Txs → Txs
process_expected_tx hash r s = process_if_expected hash r (get hash s.expected_tx) s

-- The `await` of the commit.
unfoldable pub await_commit : String → Call → Option RetVal → Txs → Txs
await_commit hash c none s = record s {
  calls = put hash (record c { is_broadcast = true }) s.calls;
}
await_commit hash c (some r) s = settle_commit hash c.params r s

-- The answer to the broadcast.
unfoldable pub broadcast_done : String → Call → Option TxError → Txs → Txs
broadcast_done hash c (some e) s = catch_error hash c.params e s
broadcast_done hash c none s =
    if is_some c.params.callback_fn_name
    then answer hash broadcast s
    else await_commit hash c c.commit s

unfoldable pub on_broadcast : String → Option TxError → Option Call → Txs → Txs
on_broadcast hash e none s = s
on_broadcast hash e (some c) s = broadcast_done hash c e s

pub data Event : Type 0 where
  transacts : String → TransactParams → Event
  broadcast_answered : String → Option TxError → Event
  in_block : String → RetVal → Event
  -- The first of the timeouts runs off, and sends with a new nonce.
  timeout_fires : String → Event

unfoldable pub fire : String → List (Option ℕ × TransactParams) → Txs → Txs
fire hash [] s = s
fire hash ((delay, p) ∷ rest) s = transact hash p (record s { retry_timeouts = rest })

unfoldable pub step : Event → Txs → Txs
step (transacts hash p) s = transact hash p s
step (broadcast_answered hash e) s = on_broadcast hash e (get hash s.calls) s
step (in_block hash r) s = process_expected_tx hash r s
step (timeout_fires hash) s = fire hash s.retry_timeouts s

unfoldable pub run : List Event → Txs → Txs
run [] s = s
run (e ∷ es) s = run es (step e s)
