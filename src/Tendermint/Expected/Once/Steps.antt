-- ===== src/Tendermint/Expected/Once/Steps.antt =====
-- What one step of the code that waits for transactions (main-server/src/tendermint/index.js) does to
-- the number of callbacks and answers.
use ndidplatform_api.Base.{
  moved_over, String, ◌≡◌, refl, true, Option, none, some, if_both, nat_eq, string_eq, get, is_some,
  arith,
}
use package.ndidplatform_api.Tendermint.Expected.Once.Answers.{
  used, answered, Falls, Falls-trans, forget_expected-Falls, catch_error-Falls, answer-Falls,
  settle_commit-Falls, put_call-Falls, emit_commit-Falls,
}
use package.ndidplatform_api.Tendermint.Expected.{
  TxError, TransactParams, Call, RetVal, committed, failed, chain_disabled_retry_later, broadcast,
  Txs, mempool_full_or_out_of_token, schedule_retry, retry_on_transact_fail,
  handle_blockchain_disabled, forget_expected, remove_saved_expected, await_commit, emit_commit,
  call_back, retry_if_full, must_wait_for_chain, process_with_callback, process_by_callback,
  process_if_expected, broadcast_done, on_broadcast,
}

-- A lookup and a timer touch none of this.
abbrev Keeps : Txs → Txs → Type 0
Keeps s t =
    (t.called_back ≡ s.called_back)
    × (t.expected_tx ≡ s.expected_tx)
    × (t.answers ≡ s.answers)
    × (t.calls ≡ s.calls)

retry_on_transact_fail-Keeps :
    (o : Option TransactParams) (s : Txs) → Keeps s (retry_on_transact_fail o s)
unfolding retry_on_transact_fail schedule_retry
retry_on_transact_fail-Keeps none s = (refl, refl, refl, refl)
retry_on_transact_fail-Keeps (some p) s = (refl, refl, refl, refl)

retry_if_full-Keeps : (hash : String) (r : RetVal) (s : Txs) → Keeps s (retry_if_full hash r s)
unfolding retry_if_full
retry_if_full-Keeps hash (failed e) s =
    if_both (Keeps s) (mempool_full_or_out_of_token e) _ s
      (retry_on_transact_fail-Keeps (get hash s.saved_retries) s) (refl, refl, refl, refl)
retry_if_full-Keeps hash (committed n) s = (refl, refl, refl, refl)
retry_if_full-Keeps hash chain_disabled_retry_later s = (refl, refl, refl, refl)

-- The callback of a transaction that is no longer expected.
call_back-Falls :
    (h hash f : String) (p : TransactParams) (r : RetVal) (s u : Txs)
    → get hash s.expected_tx ≡ some p
    → Keeps (forget_expected hash s) u
    → Falls h s (remove_saved_expected hash (call_back hash f r u))
unfolding used answered forget_expected call_back remove_saved_expected
call_back-Falls h hash f p r s u g k =
    let m = moved_over h hash s.expected_tx s.called_back p (f, r) g in
    rw (k.0, k.1, k.2, k.3) (m, omega arith)

remove_saved_expected-Falls : (h hash : String) (s : Txs) → Falls h s (remove_saved_expected hash s)
unfolding used answered remove_saved_expected
remove_saved_expected-Falls h hash s = (omega arith, omega arith)

backlog-Falls :
    (h : String) (p : TransactParams) (s : Txs) → Falls h s (handle_blockchain_disabled p s)
unfolding used answered handle_blockchain_disabled
backlog-Falls h p s = (omega arith, omega arith)

process_by_callback-Falls :
    (h hash : String) (p : TransactParams) (o : Option String) (r : RetVal) (s : Txs)
    → get hash s.expected_tx ≡ some p
    → Falls h s (process_by_callback hash p o r (forget_expected hash s))
unfolding process_by_callback process_with_callback
process_by_callback-Falls h hash p none r s g =
    let t = forget_expected hash s in
    let u = emit_commit hash r (get hash t.calls) t in
    Falls-trans h s t (remove_saved_expected hash u) (forget_expected-Falls h hash s) (
      Falls-trans h t u (remove_saved_expected hash u)
        (emit_commit-Falls h hash r (get hash t.calls) t refl)
        (remove_saved_expected-Falls h hash u))
process_by_callback-Falls h hash p (some f) r s g =
    if_both (Falls h s) (must_wait_for_chain p r) _ _
      (Falls-trans h s (forget_expected hash s)
        (handle_blockchain_disabled p (forget_expected hash s)) (forget_expected-Falls h hash s)
        (backlog-Falls h p (forget_expected hash s)))
      (call_back-Falls h hash f p r s (retry_if_full hash r (forget_expected hash s)) g
        (retry_if_full-Keeps hash r (forget_expected hash s)))

pub process_if_expected-Falls :
    (h hash : String) (r : RetVal) (o : Option TransactParams) (s : Txs)
    → get hash s.expected_tx ≡ o
    → Falls h s (process_if_expected hash r o s)
unfolding process_if_expected
process_if_expected-Falls h hash r none s g = (omega arith, omega arith)
process_if_expected-Falls h hash r (some p) s g =
    process_by_callback-Falls h hash p p.callback_fn_name r s g

await_commit-Falls :
    (h hash : String) (c : Call) (o : Option RetVal) (s : Txs)
    → get hash s.calls ≡ some c
    → Falls h s (await_commit hash c o s)
unfolding await_commit
await_commit-Falls h hash c none s g =
    put_call-Falls h hash c (record c { is_broadcast = true }) s g
await_commit-Falls h hash c (some r) s g = settle_commit-Falls h hash c.params c r s g

broadcast_done-Falls :
    (h hash : String) (c : Call) (e : Option TxError) (s : Txs)
    → get hash s.calls ≡ some c
    → Falls h s (broadcast_done hash c e s)
unfolding broadcast_done
broadcast_done-Falls h hash c (some e) s g = catch_error-Falls h hash c.params c e s g
broadcast_done-Falls h hash c none s g =
    if_both (Falls h s) (is_some c.params.callback_fn_name) _ _
      (answer-Falls h hash broadcast c s g) (await_commit-Falls h hash c c.commit s g)

pub on_broadcast-Falls :
    (h hash : String) (e : Option TxError) (o : Option Call) (s : Txs)
    → get hash s.calls ≡ o
    → Falls h s (on_broadcast hash e o s)
unfolding on_broadcast
on_broadcast-Falls h hash e none s g = (omega arith, omega arith)
on_broadcast-Falls h hash e (some c) s g = broadcast_done-Falls h hash c e s g
