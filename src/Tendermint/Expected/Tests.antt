-- ===== src/Tendermint/Expected/Tests.antt =====
-- Transactions that fail in a block, and the theorems about them.
use ndidplatform_api.Base.{
  times, one_if_some, moved_over, added, string_eq, String, ◌≡◌, refl, ◌≤◌, true, false, none, some,
  List, [], ◌∷◌, ◌++◌, get, All, if◌then◌else◌, ◌==◌,
}
use package.ndidplatform_api.Tendermint.Expected.{
  chain_disabled, not_enough_token, TransactParams, RetVal, committed, failed, Txs, Call, new,
  without_retry, process_expected_tx, Event, transacts, broadcast_answered, in_block, timeout_fires,
  run,
}
use package.ndidplatform_api.Tendermint.Expected.Once.{made, called_and_answered_once}
use package.ndidplatform_api.Tendermint.Expected.Backoff.{retried-AtOnce}
use package.ndidplatform_api.Tendermint.Expected.Backoff.Uncounted.{AtOnce}

abbrev waiting : TransactParams
waiting = record {
  node_id = "idp1";
  fn_name = "SetMqAddresses";
  callback_fn_name = none;
  save_for_retry_on_chain_disabled = false;
  retry_on_fail = false;
  counter = 0;
}

abbrev kept_for_later : TransactParams
kept_for_later = record {
  node_id = "rp1";
  fn_name = "CreateRequest";
  callback_fn_name = some "common.createRequestInternalAsyncAfterBlockchain";
  save_for_retry_on_chain_disabled = true;
  retry_on_fail = false;
  counter = 0;
}

abbrev retried_on_fail : TransactParams
retried_on_fail = record {
  node_id = "rp1";
  fn_name = "CloseRequest";
  callback_fn_name = none;
  save_for_retry_on_chain_disabled = false;
  retry_on_fail = true;
  counter = 0;
}

-- A waited-for transaction whose broadcast is answered, and one with a callback.
abbrev two_sent : List Event
two_sent =
    transacts "a1" waiting
    ∷ broadcast_answered "a1" none
    ∷ transacts "b2" kept_for_later
    ∷ broadcast_answered "b2" none
    ∷ []

a1_expected : get "a1" (run two_sent new).expected_tx ≡ some (without_retry waiting)
unfolding ndidplatform_api.Base.get ndidplatform_api.Base.put ndidplatform_api.Base.delete
    ndidplatform_api.Tendermint.Expected.run ndidplatform_api.Tendermint.Expected.step
    ndidplatform_api.Tendermint.Expected.transact ndidplatform_api.Tendermint.Expected.expect_tx
    ndidplatform_api.Tendermint.Expected.without_retry ndidplatform_api.Tendermint.Expected.new
    ndidplatform_api.Tendermint.Expected.on_broadcast
    ndidplatform_api.Tendermint.Expected.broadcast_done
    ndidplatform_api.Tendermint.Expected.await_commit ndidplatform_api.Tendermint.Expected.answer
a1_expected = refl

abbrev a1_call : Call
a1_call = record { params = waiting; is_broadcast = true; commit = none }

a1_in_progress : get "a1" (run two_sent new).calls ≡ some a1_call
unfolding ndidplatform_api.Base.get ndidplatform_api.Base.put ndidplatform_api.Base.delete
    ndidplatform_api.Tendermint.Expected.run ndidplatform_api.Tendermint.Expected.step
    ndidplatform_api.Tendermint.Expected.transact ndidplatform_api.Tendermint.Expected.expect_tx
    ndidplatform_api.Tendermint.Expected.without_retry ndidplatform_api.Tendermint.Expected.new
    ndidplatform_api.Tendermint.Expected.on_broadcast
    ndidplatform_api.Tendermint.Expected.broadcast_done
    ndidplatform_api.Tendermint.Expected.await_commit ndidplatform_api.Tendermint.Expected.answer
a1_in_progress = refl

b2_expected : get "b2" (run two_sent new).expected_tx ≡ some (without_retry kept_for_later)
unfolding ndidplatform_api.Base.get ndidplatform_api.Base.put ndidplatform_api.Base.delete
    ndidplatform_api.Tendermint.Expected.run ndidplatform_api.Tendermint.Expected.step
    ndidplatform_api.Tendermint.Expected.transact ndidplatform_api.Tendermint.Expected.expect_tx
    ndidplatform_api.Tendermint.Expected.without_retry ndidplatform_api.Tendermint.Expected.new
    ndidplatform_api.Tendermint.Expected.on_broadcast
    ndidplatform_api.Tendermint.Expected.broadcast_done
    ndidplatform_api.Tendermint.Expected.await_commit ndidplatform_api.Tendermint.Expected.answer
b2_expected = refl

no_callback : (without_retry waiting).callback_fn_name ≡ none
unfolding ndidplatform_api.Tendermint.Expected.without_retry
no_callback = refl

has_callback :
    (without_retry kept_for_later).callback_fn_name
    ≡ some "common.createRequestInternalAsyncAfterBlockchain"
unfolding ndidplatform_api.Tendermint.Expected.without_retry
has_callback = refl

saved_for_later : (without_retry kept_for_later).save_for_retry_on_chain_disabled ≡ true
unfolding ndidplatform_api.Tendermint.Expected.without_retry
saved_for_later = refl

abbrev a1 : String
a1 = "a1"

abbrev b2 : String
b2 = "b2"

-- The blocks with both come in, one of them twice.
abbrev two_in_blocks : List Event
two_in_blocks =
    two_sent
    ++ in_block "a1" (committed 7) ∷ in_block "b2" (committed 7) ∷ in_block "b2" (committed 7) ∷ []

called_and_answered_once_example :
    (times "b2" (run two_in_blocks new).called_back ≤ made "b2" two_in_blocks)
    × (times "b2" (run two_in_blocks new).answers ≤ made "b2" two_in_blocks)
called_and_answered_once_example = called_and_answered_once "b2" two_in_blocks

-- Out of tokens, twice.
abbrev out_of_tokens : List Event
out_of_tokens =
    transacts "a1" retried_on_fail
    ∷ broadcast_answered "a1" (some not_enough_token)
    ∷ timeout_fires "a2"
    ∷ broadcast_answered "a2" (some not_enough_token)
    ∷ []

retried-AtOnce_example : All AtOnce (run out_of_tokens new).retry_timeouts
retried-AtOnce_example = retried-AtOnce out_of_tokens (refl, (tt, (tt, (tt, tt))))

sent_again : (run out_of_tokens new).retry_timeouts ≡ (none, retried_on_fail) ∷ []
unfolding ndidplatform_api.Base.get ndidplatform_api.Base.put ndidplatform_api.Base.delete
    ndidplatform_api.Tendermint.Expected.run ndidplatform_api.Tendermint.Expected.step
    ndidplatform_api.Tendermint.Expected.transact ndidplatform_api.Tendermint.Expected.expect_tx
    ndidplatform_api.Tendermint.Expected.without_retry ndidplatform_api.Tendermint.Expected.new
    ndidplatform_api.Tendermint.Expected.on_broadcast
    ndidplatform_api.Tendermint.Expected.broadcast_done
    ndidplatform_api.Tendermint.Expected.catch_error
    ndidplatform_api.Tendermint.Expected.forget_expected
    ndidplatform_api.Tendermint.Expected.remove_saved_expected
    ndidplatform_api.Tendermint.Expected.after_failure
    ndidplatform_api.Tendermint.Expected.is_chain_disabled
    ndidplatform_api.Tendermint.Expected.mempool_full_or_out_of_token
    ndidplatform_api.Tendermint.Expected.answer
    ndidplatform_api.Tendermint.Expected.retry_on_transact_fail
    ndidplatform_api.Tendermint.Expected.schedule_retry
    ndidplatform_api.Tendermint.Expected.next_retry ndidplatform_api.Tendermint.Expected.fire
sent_again = refl
