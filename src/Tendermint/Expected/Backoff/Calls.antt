-- ===== src/Tendermint/Expected/Backoff/Calls.antt =====
-- `transact` calls in progress without a counter, in main-server/src/tendermint/index.js.
use ndidplatform_api.Base.{
  String, ◌≡◌, refl, ◌&&◌, Option, none, some, if_both, nat_eq, string_eq, All-put, All-delete, get,
  get-All, put,
}
use package.ndidplatform_api.Tendermint.Expected.Backoff.Uncounted.{
  CallAtFirst, IsUncounted, schedule_retry-IsUncounted, same-IsUncounted,
}
use package.ndidplatform_api.Tendermint.Expected.{
  TxError, TransactParams, Call, RetVal, committed, failed, chain_disabled_retry_later, Answer,
  resolved, retried, rejected, Txs, mempool_full_or_out_of_token, is_chain_disabled, schedule_retry,
  retry_on_transact_fail, handle_blockchain_disabled, without_retry, answer, after_failure,
  forget_expected, remove_saved_expected, catch_error, settle_commit, keep_commit, emit_commit,
}

pub answer-IsUncounted :
    (hash : String) (a : Answer) (s : Txs) → IsUncounted s → IsUncounted (answer hash a s)
unfolding answer
answer-IsUncounted hash a s h = record {
  calls = All-delete CallAtFirst hash s.calls h.calls;
  saved = h.saved;
  timeouts = h.timeouts;
}

pub catch_error-IsUncounted :
    (hash : String) (p : TransactParams) (e : TxError) (s : Txs)
    → p.counter ≡ 0
    → IsUncounted s
    → IsUncounted (catch_error hash p e s)
unfolding catch_error after_failure remove_saved_expected forget_expected handle_blockchain_disabled
    retry_on_transact_fail
catch_error-IsUncounted hash p e s z h =
    if_both IsUncounted (is_chain_disabled e && p.save_for_retry_on_chain_disabled) _ _
      (answer-IsUncounted hash (resolved chain_disabled_retry_later)
        (handle_blockchain_disabled (without_retry p) t)
        (same-IsUncounted s (handle_blockchain_disabled (without_retry p) t) (refl, refl, refl) h))
      (if_both IsUncounted (p.retry_on_fail && mempool_full_or_out_of_token e) _ _
        (answer-IsUncounted hash retried (schedule_retry p t)
          (schedule_retry-IsUncounted p t z (same-IsUncounted s t (refl, refl, refl) h)))
        (answer-IsUncounted hash (rejected e) t (same-IsUncounted s t (refl, refl, refl) h)))
  where
    t : Txs
    t = remove_saved_expected hash (forget_expected hash s)

pub settle_commit-IsUncounted :
    (hash : String) (p : TransactParams) (r : RetVal) (s : Txs)
    → p.counter ≡ 0
    → IsUncounted s
    → IsUncounted (settle_commit hash p r s)
unfolding settle_commit
settle_commit-IsUncounted hash p (failed e) s z h = catch_error-IsUncounted hash p e s z h
settle_commit-IsUncounted hash p (committed n) s z h =
    answer-IsUncounted hash (resolved (committed n)) s h
settle_commit-IsUncounted hash p chain_disabled_retry_later s z h =
    answer-IsUncounted hash (resolved chain_disabled_retry_later) s h

pub put_call-IsUncounted :
    (hash : String) (c : Call) (s : Txs)
    → c.params.counter ≡ 0
    → IsUncounted s
    → IsUncounted (record s { calls = put hash c s.calls })
put_call-IsUncounted hash c s z h = record {
  calls = All-put CallAtFirst hash c s.calls z h.calls;
  saved = h.saved;
  timeouts = h.timeouts;
}

keep_commit-IsUncounted :
    (hash : String) (c : Call) (r : RetVal) (o : Option RetVal) (s : Txs)
    → c.params.counter ≡ 0
    → IsUncounted s
    → IsUncounted (keep_commit hash c r o s)
unfolding keep_commit
keep_commit-IsUncounted hash c r none s z h =
    put_call-IsUncounted hash (record c { commit = some r }) s z h
keep_commit-IsUncounted hash c r (some first) s z h = h

pub emit_commit-IsUncounted :
    (hash : String) (r : RetVal) (o : Option Call) (s : Txs)
    → get hash s.calls ≡ o
    → IsUncounted s
    → IsUncounted (emit_commit hash r o s)
unfolding emit_commit
emit_commit-IsUncounted hash r none s g h = h
emit_commit-IsUncounted hash r (some c) s g h =
    let z = get-All CallAtFirst hash c s.calls h.calls g in
    if_both IsUncounted c.is_broadcast _ _ (settle_commit-IsUncounted hash c.params r s z h)
      (keep_commit-IsUncounted hash c r c.commit s z h)
