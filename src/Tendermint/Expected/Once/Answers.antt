-- ===== src/Tendermint/Expected/Once/Answers.antt =====
-- How often `transact` in main-server/src/tendermint/index.js is answered.
use ndidplatform_api.Base.{
  times, one_if_some, moved_over, dropped, replaced, ℕ, ◌+◌, ◌≤◌, String, ◌≡◌, ◌&&◌, Option, none,
  some, if_both, nat_eq, string_eq, get, put, arith,
}
use package.ndidplatform_api.Tendermint.Expected.{
  TxError, TransactParams, Call, RetVal, committed, failed, chain_disabled_retry_later, Answer,
  resolved, retried, rejected, Txs, mempool_full_or_out_of_token, is_chain_disabled, schedule_retry,
  retry_on_transact_fail, handle_blockchain_disabled, without_retry, answer, after_failure,
  forget_expected, remove_saved_expected, catch_error, settle_commit, keep_commit, emit_commit,
}

-- Callbacks called and answers given for a transaction, with those that are still to come.
unfoldable pub used : String → Txs → ℕ
used h s = times h s.called_back + one_if_some (get h s.expected_tx)

unfoldable pub answered : String → Txs → ℕ
answered h s = times h s.answers + one_if_some (get h s.calls)

-- Neither grows.
abbrev pub Falls : String → Txs → Txs → Type 0
Falls h s t = (used h t ≤ used h s) × (answered h t ≤ answered h s)

pub Falls-trans : (h : String) (s t u : Txs) → Falls h s t → Falls h t u → Falls h s u
Falls-trans h s t u a b = (omega arith, omega arith)

-- An answer is given for a call in progress only.
pub answer-Falls :
    (h hash : String) (a : Answer) (p : Call) (s : Txs)
    → get hash s.calls ≡ some p
    → Falls h s (answer hash a s)
unfolding used answered answer
answer-Falls h hash a p s g = (omega arith, moved_over h hash s.calls s.answers p a g)

pub forget_expected-Falls : (h hash : String) (s : Txs) → Falls h s (forget_expected hash s)
unfolding used answered forget_expected
forget_expected-Falls h hash s = let d = dropped h hash s.expected_tx in (omega arith, omega arith)

after_failure-Falls :
    (h hash : String) (p : TransactParams) (q : Call) (e : TxError) (s : Txs)
    → get hash s.calls ≡ some q
    → Falls h s (after_failure hash p e s)
unfolding after_failure handle_blockchain_disabled retry_on_transact_fail schedule_retry used
    answered
after_failure-Falls h hash p q e s g =
    if_both (Falls h s) (is_chain_disabled e && p.save_for_retry_on_chain_disabled) _ _
      (answer-Falls h hash _ q (handle_blockchain_disabled (without_retry p) s) g)
      (if_both (Falls h s) (p.retry_on_fail && mempool_full_or_out_of_token e) _ _
        (answer-Falls h hash retried q (schedule_retry p s) g)
        (answer-Falls h hash (rejected e) q s g))

pub catch_error-Falls :
    (h hash : String) (p : TransactParams) (q : Call) (e : TxError) (s : Txs)
    → get hash s.calls ≡ some q
    → Falls h s (catch_error hash p e s)
unfolding catch_error remove_saved_expected forget_expected used answered
catch_error-Falls h hash p q e s g =
    Falls-trans h s (forget_expected hash s) (catch_error hash p e s)
      (forget_expected-Falls h hash s)
      (after_failure-Falls h hash p q e (remove_saved_expected hash (forget_expected hash s)) g)

pub settle_commit-Falls :
    (h hash : String) (p : TransactParams) (q : Call) (r : RetVal) (s : Txs)
    → get hash s.calls ≡ some q
    → Falls h s (settle_commit hash p r s)
unfolding settle_commit
settle_commit-Falls h hash p q (failed e) s g = catch_error-Falls h hash p q e s g
settle_commit-Falls h hash p q (committed n) s g =
    answer-Falls h hash (resolved (committed n)) q s g
settle_commit-Falls h hash p q chain_disabled_retry_later s g =
    answer-Falls h hash (resolved chain_disabled_retry_later) q s g

-- A call that is changed but not answered.
pub put_call-Falls :
    (h hash : String) (c d : Call) (s : Txs)
    → get hash s.calls ≡ some c
    → Falls h s (record s { calls = put hash d s.calls })
unfolding used answered
put_call-Falls h hash c d s g = let r = replaced h hash c d s.calls g in (omega arith, omega arith)

keep_commit-Falls :
    (h hash : String) (c : Call) (r : RetVal) (o : Option RetVal) (s : Txs)
    → get hash s.calls ≡ some c
    → Falls h s (keep_commit hash c r o s)
unfolding keep_commit
keep_commit-Falls h hash c r none s g = put_call-Falls h hash c (record c { commit = some r }) s g
keep_commit-Falls h hash c r (some first) s g = (omega arith, omega arith)

pub emit_commit-Falls :
    (h hash : String) (r : RetVal) (o : Option Call) (s : Txs)
    → get hash s.calls ≡ o
    → Falls h s (emit_commit hash r o s)
unfolding emit_commit
emit_commit-Falls h hash r none s g = (omega arith, omega arith)
emit_commit-Falls h hash r (some c) s g =
    if_both (Falls h s) c.is_broadcast _ _ (settle_commit-Falls h hash c.params c r s g)
      (keep_commit-Falls h hash c r c.commit s g)
