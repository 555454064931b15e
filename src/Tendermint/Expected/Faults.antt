-- ===== src/Tendermint/Expected/Faults.antt =====
-- Where the code that waits for transactions (main-server/src/tendermint/index.js) goes wrong.
use ndidplatform_api.Base.{
  String, ◌≡◌, refl, ap, ◌∙◌, true, ◌&&◌, none, some, List, [], ◌∷◌, ◌++◌, if◌then◌else◌, if_both,
  ◌==◌, nat_eq, string_eq, get, get-delete, delete, arith,
}
use ndidplatform_api.Tasks.Count.{decrement}
use package.ndidplatform_api.Tendermint.Expected.{
  TxError, chain_disabled, TransactParams, Call, failed, Txs, mempool_full_or_out_of_token,
  is_chain_disabled, schedule_retry, retry_on_transact_fail, handle_blockchain_disabled, answer,
  after_failure, forget_expected, remove_saved_expected, catch_error, settle_commit, emit_commit,
  must_wait_for_chain, process_with_callback, process_by_callback, process_if_expected,
  process_expected_tx,
}

abbrev Forgets : String → Txs → Txs → Type 0
Forgets hash s t =
    (t.expected_tx ≡ delete hash s.expected_tx)
    × (t.expected_txs_count ≡ decrement s.expected_txs_count)

catch_error-Forgets :
    (hash : String) (p : TransactParams) (e : TxError) (s : Txs)
    → Forgets hash s (catch_error hash p e s)
unfolding catch_error after_failure answer handle_blockchain_disabled retry_on_transact_fail
    schedule_retry remove_saved_expected forget_expected
catch_error-Forgets hash p e s =
    if_both (Forgets hash s) (is_chain_disabled e && p.save_for_retry_on_chain_disabled) _ _
      (refl, refl)
      (if_both (Forgets hash s) (p.retry_on_fail && mempool_full_or_out_of_token e) _ _ (refl, refl)
        (refl, refl))

-- A transaction that a caller waits for, whose broadcast was answered and that fails in its block is taken out of the expected
-- ones, and out of their count twice: when it is processed, and when the caller's `transact` catches
-- the failure. All others stay expected.
pub failed_commit_counted_twice :
    (hash j : String) (p : TransactParams) (c : Call) (e : TxError) (s : Txs)
    → get hash s.expected_tx ≡ some p
    → p.callback_fn_name ≡ none
    → get hash s.calls ≡ some c
    → c.is_broadcast ≡ true
    → (get j (process_expected_tx hash (failed e) s).expected_tx
        ≡ (if hash == j then none else get j s.expected_tx))
      × ((process_expected_tx hash (failed e) s).expected_txs_count
          ≡ decrement (decrement s.expected_txs_count))
unfolding process_expected_tx process_if_expected process_by_callback emit_commit settle_commit
    remove_saved_expected forget_expected
failed_commit_counted_twice hash j p c e s g n k b =
    let f = catch_error-Forgets hash c.params e (forget_expected hash s) in
    rw (g, n, k, b)
      (
        ap (get j) f.0
            ∙ get-delete hash j (delete hash s.expected_tx)
            ∙ deleted_twice hash j s.expected_tx,
        f.1,
      )
  where
    deleted_twice :
        (hash j : String) (m : List (String × TransactParams))
        → (if hash == j then none else get j (delete hash m))
          ≡ (if hash == j then none else get j m)
    deleted_twice hash j m = ground (arith, get-delete hash j m)

-- A transaction with a callback that fails in its block because the chain is disabled, and that is
-- to be kept for later, goes to the backlog; but its callback is not called to say so, and it stays
-- saved as expected and for a retry.
pub chain_disabled_not_called_back :
    (hash f : String) (p : TransactParams) (s : Txs)
    → get hash s.expected_tx ≡ some p
    → p.callback_fn_name ≡ some f
    → p.save_for_retry_on_chain_disabled ≡ true
    → let t = process_expected_tx hash (failed chain_disabled) s in
      (t.backlog ≡ s.backlog ++ p ∷ [])
      × (t.called_back ≡ s.called_back)
      × (t.saved_expected ≡ s.saved_expected)
      × (t.saved_retries ≡ s.saved_retries)
unfolding process_expected_tx process_if_expected process_by_callback process_with_callback
    must_wait_for_chain is_chain_disabled handle_blockchain_disabled forget_expected
chain_disabled_not_called_back hash f p s g n k = rw (g, n, k) (refl, refl, refl, refl)
