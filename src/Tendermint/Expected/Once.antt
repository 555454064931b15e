-- ===== src/Tendermint/Expected/Once.antt =====
-- That a transaction's callback is called once at most, and its `transact` answered once, in
-- main-server/src/tendermint/index.js.
pub mod Answers
mod Steps
use ndidplatform_api.Base.{
  times, one_if_some, moved_over, added, ℕ, zero, suc, ◌+◌, ◌-◌, ◌≤◌, ◌<◌, String, ◌≡◌, refl, sym,
  subst, ap, ◌∙◌, inl, inr, Bool, true, false, ◌&&◌, ◌||◌, not, Option, none, some, Option-cases,
  List, [], ◌∷◌, ◌++◌, if◌then◌else◌, if_both, ◌==◌, ==_iff, ==_refl, nat_eq, string_eq, leb,
  Bool-cases, All, All-append, All-put, All-delete, get, get-All, put, get-put, get-delete,
  get-delete_self, delete, is_some, arith,
}
use ndidplatform_api.Tasks.Count.{ℤ, pos, increment, decrement}
use package.ndidplatform_api.Tendermint.Expected.Once.Steps.{
  process_if_expected-Falls, on_broadcast-Falls,
}
use package.ndidplatform_api.Tendermint.Expected.Once.Answers.{
  used, answered, Falls, Falls-trans, forget_expected-Falls, catch_error-Falls, answer-Falls,
  settle_commit-Falls, put_call-Falls, emit_commit-Falls,
}
use package.ndidplatform_api.Tendermint.Expected.{
  TxError, chain_disabled, not_enough_token, tendermint_mempool_full, other, TransactParams, Call,
  RetVal, committed, failed, chain_disabled_retry_later, Answer, resolved, broadcast, retried,
  rejected, Txs, new, mempool_full_or_out_of_token, is_chain_disabled, next_retry, schedule_retry,
  retry_on_transact_fail, handle_blockchain_disabled, without_retry, transact, answer,
  after_failure, forget_expected, remove_saved_expected, catch_error, settle_commit, keep_commit,
  await_commit, expect_tx, emit_commit, call_back, retry_if_full, must_wait_for_chain,
  process_with_callback, process_by_callback, process_if_expected, process_expected_tx,
  broadcast_done, on_broadcast, Event, transacts, broadcast_answered, in_block, timeout_fires, fire,
  step, run,
}

-- How often a transaction with the hash is made.
abbrev pub makes : String → Event → ℕ
makes h (transacts hash p) = if hash == h then 1 else 0
makes h (timeout_fires hash) = if hash == h then 1 else 0
makes h (broadcast_answered hash e) = 0
makes h (in_block hash r) = 0

abbrev pub made : String → List Event → ℕ
made h [] = 0
made h (e ∷ es) = makes h e + made h es

-- They grow by no more than that.
abbrev Grows : ℕ → String → Txs → Txs → Type 0
Grows n h s t = (used h t ≤ n + used h s) × (answered h t ≤ n + answered h s)

expect_tx-Grows :
    (h hash : String) (p : TransactParams) (s : Txs)
    → Grows (if hash == h then 1 else 0) h s (expect_tx hash p s)
unfolding used answered expect_tx
expect_tx-Grows h hash p s =
    let a = added h hash (without_retry p) s.expected_tx in
    let b = added h hash (record { params = p; is_broadcast = false; commit = none }) s.calls in
    (omega arith, omega arith)

answered_at_once-Grows :
    (h hash : String) (a : Answer) (s : Txs)
    → Grows (if hash == h then 1 else 0) h s (record s { answers = (hash, a) ∷ s.answers })
unfolding used answered
answered_at_once-Grows h hash a s = (omega arith, omega arith)

transact-Grows :
    (h hash : String) (p : TransactParams) (s : Txs)
    → Grows (if hash == h then 1 else 0) h s (transact hash p s)
unfolding transact
transact-Grows h hash p s =
    if_both (Grows (if hash == h then 1 else 0) h s) (p.node_id == "") _ _
      (answered_at_once-Grows h hash _ s) (expect_tx-Grows h hash p s)

fire-Grows :
    (h hash : String) (ts : List (Option ℕ × TransactParams)) (s : Txs)
    → Grows (if hash == h then 1 else 0) h s (fire hash ts s)
unfolding fire used answered
fire-Grows h hash [] s = (omega arith, omega arith)
fire-Grows h hash ((d, p) ∷ rest) s = transact-Grows h hash p (record s { retry_timeouts = rest })

step-Grows : (h : String) (e : Event) (s : Txs) → Grows (makes h e) h s (step e s)
unfolding step process_expected_tx
step-Grows h (transacts hash p) s = transact-Grows h hash p s
step-Grows h (broadcast_answered hash e) s =
    let f = on_broadcast-Falls h hash e (get hash s.calls) s refl in (omega arith, omega arith)
step-Grows h (in_block hash r) s =
    let f = process_if_expected-Falls h hash r (get hash s.expected_tx) s refl in
    (omega arith, omega arith)
step-Grows h (timeout_fires hash) s = fire-Grows h hash s.retry_timeouts s

run-Grows : (h : String) (es : List Event) (s : Txs) → Grows (made h es) h s (run es s)
unfolding run
run-Grows h [] s = (omega arith, omega arith)
run-Grows h (e ∷ es) s =
    let a = step-Grows h e s in let b = run-Grows h es (step e s) in (omega arith, omega arith)

nothing_at_first : (h : String) → (used h new ≡ 0) × (answered h new ≡ 0)
unfolding used answered new get
nothing_at_first h = (omega arith, omega arith)

-- However broadcasts are answered, blocks come in, in whatever order and however often, and failed
-- transactions are sent again: for each hash, callbacks are called and `transact` calls answered at
-- most as often as a transaction with that hash was made, thus once each for a new nonce.
pub called_and_answered_once :
    (h : String) (es : List Event)
    → (times h (run es new).called_back ≤ made h es) × (times h (run es new).answers ≤ made h es)
unfolding used answered
called_and_answered_once h es =
    let g = run-Grows h es new in let z = nothing_at_first h in (omega arith, omega arith)
