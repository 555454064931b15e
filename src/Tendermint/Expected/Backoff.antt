-- ===== src/Tendermint/Expected/Backoff.antt =====
-- How long a failed transaction waits before it is sent again, in main-server/src/tendermint/index.js.
pub mod Uncounted
mod Calls
use ndidplatform_api.Base.{
  ℕ, zero, suc, ◌+◌, ◌-◌, ◌≤◌, ◌<◌, String, ◌≡◌, refl, sym, subst, ap, ◌∙◌, inl, inr, Bool, true,
  false, ◌&&◌, ◌||◌, not, Option, none, some, Option-cases, List, [], ◌∷◌, ◌++◌, if◌then◌else◌,
  if_both, ◌==◌, ==_iff, ==_refl, nat_eq, string_eq, leb, Bool-cases, All, All-append, All-put,
  All-delete, get, get-All, put, get-put, get-delete, get-delete_self, delete, is_some, arith,
}
use ndidplatform_api.Tasks.Count.{ℤ, pos, increment, decrement}
use package.ndidplatform_api.Tendermint.Expected.Backoff.Calls.{
  answer-IsUncounted, catch_error-IsUncounted, settle_commit-IsUncounted, put_call-IsUncounted,
  emit_commit-IsUncounted,
}
use package.ndidplatform_api.Tendermint.Expected.Backoff.Uncounted.{
  AtFirst, CallAtFirst, AtOnce, SameRetries, IsUncounted, schedule_retry-IsUncounted,
  retry_if_full-IsUncounted, same-IsUncounted,
}
use package.ndidplatform_api.Tendermint.Expected.{
  TxError, chain_disabled, not_enough_token, tendermint_mempool_full, other, TransactParams, Call,
  RetVal, committed, failed, chain_disabled_retry_later, Answer, resolved, broadcast, retried,
  rejected, Txs, new, mempool_full_or_out_of_token, is_chain_disabled, next_retry, schedule_retry,
  retry_on_transact_fail, handle_blockchain_disabled, without_retry, transact, answer,
  after_failure, forget_expected, remove_saved_expected, catch_error, settle_commit, keep_commit,
  await_commit, expect_tx, emit_commit, call_back, retry_if_full, must_wait_for_chain,
  process_with_callback, process_by_callback, process_if_expected, process_expected_tx,
  broadcast_done, on_broadcast, Event, transacts, broadcast_answered, in_block, timeout_fires, fire,
  step, run,
}

call_back-IsUncounted :
    (hash f : String) (r : RetVal) (s : Txs)
    → IsUncounted s
    → IsUncounted (remove_saved_expected hash (call_back hash f r s))
unfolding remove_saved_expected call_back
call_back-IsUncounted hash f r s h = record {
  calls = h.calls;
  saved = All-delete AtFirst hash s.saved_retries h.saved;
  timeouts = h.timeouts;
}

process-IsUncounted :
    (hash : String) (p : TransactParams) (o : Option String) (r : RetVal) (s : Txs)
    → IsUncounted s
    → IsUncounted (process_by_callback hash p o r s)
unfolding process_by_callback process_with_callback remove_saved_expected handle_blockchain_disabled
process-IsUncounted hash p none r s h =
    let t = emit_commit hash r (get hash s.calls) s in
    same-IsUncounted t (remove_saved_expected hash t) (refl, refl, refl)
      (emit_commit-IsUncounted hash r (get hash s.calls) s refl h)
process-IsUncounted hash p (some f) r s h =
    if_both IsUncounted (must_wait_for_chain p r) _ _
      (same-IsUncounted s (handle_blockchain_disabled p s) (refl, refl, refl) h)
      (call_back-IsUncounted hash f r (retry_if_full hash r s)
        (retry_if_full-IsUncounted hash r s h))

process_if_expected-IsUncounted :
    (hash : String) (r : RetVal) (o : Option TransactParams) (s : Txs)
    → IsUncounted s
    → IsUncounted (process_if_expected hash r o s)
unfolding process_if_expected forget_expected
process_if_expected-IsUncounted hash r none s h = h
process_if_expected-IsUncounted hash r (some p) s h =
    process-IsUncounted hash p p.callback_fn_name r (forget_expected hash s)
      (same-IsUncounted s (forget_expected hash s) (refl, refl, refl) h)

await_commit-IsUncounted :
    (hash : String) (c : Call) (o : Option RetVal) (s : Txs)
    → c.params.counter ≡ 0
    → IsUncounted s
    → IsUncounted (await_commit hash c o s)
unfolding await_commit
await_commit-IsUncounted hash c none s z h =
    put_call-IsUncounted hash (record c { is_broadcast = true }) s z h
await_commit-IsUncounted hash c (some r) s z h = settle_commit-IsUncounted hash c.params r s z h

broadcast_done-IsUncounted :
    (hash : String) (c : Call) (e : Option TxError) (s : Txs)
    → c.params.counter ≡ 0
    → IsUncounted s
    → IsUncounted (broadcast_done hash c e s)
unfolding broadcast_done
broadcast_done-IsUncounted hash c (some e) s z h = catch_error-IsUncounted hash c.params e s z h
broadcast_done-IsUncounted hash c none s z h =
    if_both IsUncounted (is_some c.params.callback_fn_name) _ _
      (answer-IsUncounted hash broadcast s h) (await_commit-IsUncounted hash c c.commit s z h)

on_broadcast-IsUncounted :
    (hash : String) (e : Option TxError) (o : Option Call) (s : Txs)
    → get hash s.calls ≡ o
    → IsUncounted s
    → IsUncounted (on_broadcast hash e o s)
unfolding on_broadcast
on_broadcast-IsUncounted hash e none s g h = h
on_broadcast-IsUncounted hash e (some c) s g h =
    broadcast_done-IsUncounted hash c e s (get-All CallAtFirst hash c s.calls h.calls g) h

expect_tx-IsUncounted :
    (hash : String) (p : TransactParams) (s : Txs)
    → p.counter ≡ 0
    → IsUncounted s
    → IsUncounted (expect_tx hash p s)
unfolding expect_tx
expect_tx-IsUncounted hash p s z h = record {
  calls = All-put CallAtFirst hash _ s.calls z h.calls;
  saved =
      if_both (All AtFirst) (p.retry_on_fail && p.counter == 0) (put hash p s.saved_retries)
        s.saved_retries (All-put AtFirst hash p s.saved_retries z h.saved) h.saved;
  timeouts = h.timeouts;
}

transact-IsUncounted :
    (hash : String) (p : TransactParams) (s : Txs)
    → p.counter ≡ 0
    → IsUncounted s
    → IsUncounted (transact hash p s)
unfolding transact
transact-IsUncounted hash p s z h =
    if_both IsUncounted (p.node_id == "") _ _ (same-IsUncounted s _ (refl, refl, refl) h)
      (expect_tx-IsUncounted hash p s z h)

fire-IsUncounted :
    (hash : String) (ts : List (Option ℕ × TransactParams)) (s : Txs)
    → All AtOnce ts
    → IsUncounted s
    → IsUncounted (fire hash ts s)
unfolding fire
fire-IsUncounted hash [] s k h = h
fire-IsUncounted hash ((d, p) ∷ rest) s k h =
    transact-IsUncounted hash p (record s { retry_timeouts = rest }) k.0.1
      (record { calls = h.calls; saved = h.saved; timeouts = k.1 })

-- A transaction is made without a counter, which is then zero.
abbrev pub IsFirst : Event → Type 0
IsFirst (transacts hash p) = p.counter ≡ 0
IsFirst e = Unit

step-IsUncounted : (e : Event) (s : Txs) → IsFirst e → IsUncounted s → IsUncounted (step e s)
unfolding step process_expected_tx
step-IsUncounted (transacts hash p) s z h = transact-IsUncounted hash p s z h
step-IsUncounted (broadcast_answered hash e) s z h =
    on_broadcast-IsUncounted hash e (get hash s.calls) s refl h
step-IsUncounted (in_block hash r) s z h =
    process_if_expected-IsUncounted hash r (get hash s.expected_tx) s h
step-IsUncounted (timeout_fires hash) s z h = fire-IsUncounted hash s.retry_timeouts s h.timeouts h

after-IsUncounted :
    (es : List Event) (s : Txs) → All IsFirst es → IsUncounted s → IsUncounted (run es s)
unfolding run
after-IsUncounted [] s z h = h
after-IsUncounted (e ∷ es) s z h = after-IsUncounted es (step e s) z.1 (step-IsUncounted e s z.0 h)

new-IsUncounted : IsUncounted new
unfolding new
new-IsUncounted = record { calls = tt; saved = tt; timeouts = tt }

-- However often transactions fail for a full mempool or for lack of tokens: if each was made without
-- a counter, no timeout after which one is sent again ever has a delay. The counter that is to
-- lengthen the delay is handed on and never goes up.
pub retried-AtOnce : (es : List Event) → All IsFirst es → All AtOnce (run es new).retry_timeouts
retried-AtOnce es z = (after-IsUncounted es new z new-IsUncounted).timeouts
