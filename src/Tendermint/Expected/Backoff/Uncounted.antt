-- ===== src/Tendermint/Expected/Backoff/Uncounted.antt =====
-- Retries without a counter, in main-server/src/tendermint/index.js.
use ndidplatform_api.Base.{
  ℕ, zero, suc, String, ◌≡◌, refl, sym, subst, Option, none, some, [], ◌∷◌, if_both, nat_eq,
  string_eq, All, All-append, get, get-All, arith,
}
use package.ndidplatform_api.Tendermint.Expected.{
  TransactParams, Call, RetVal, committed, failed, chain_disabled_retry_later, Txs,
  mempool_full_or_out_of_token, next_retry, schedule_retry, retry_on_transact_fail, retry_if_full,
}

abbrev pub AtFirst : String × TransactParams → Type 0
AtFirst (hash, p) = p.counter ≡ 0

abbrev pub CallAtFirst : String × Call → Type 0
CallAtFirst (hash, c) = c.params.counter ≡ 0

-- A timeout without a delay.
abbrev pub AtOnce : Option ℕ × TransactParams → Type 0
AtOnce (delay, p) = (delay ≡ none) × (p.counter ≡ 0)

pub record IsUncounted (s : Txs) : Type 0 where
  pub calls : All CallAtFirst s.calls
  pub saved : All AtFirst s.saved_retries
  pub timeouts : All AtOnce s.retry_timeouts

no_delay : (n : ℕ) → n ≡ 0 → next_retry n ≡ none
unfolding next_retry
no_delay zero z = refl
no_delay (suc n) z = absurd (omega arith)

pub schedule_retry-IsUncounted :
    (p : TransactParams) (s : Txs)
    → p.counter ≡ 0
    → IsUncounted s
    → IsUncounted (schedule_retry p s)
unfolding schedule_retry
schedule_retry-IsUncounted p s z h = record {
  calls = h.calls;
  saved = h.saved;
  timeouts =
      All-append AtOnce s.retry_timeouts ((next_retry p.counter, p) ∷ []) h.timeouts
        ((no_delay p.counter z, z), tt);
}

retry-IsUncounted :
    (hash : String) (o : Option TransactParams) (s : Txs)
    → get hash s.saved_retries ≡ o
    → IsUncounted s
    → IsUncounted (retry_on_transact_fail o s)
unfolding retry_on_transact_fail
retry-IsUncounted hash none s g h = h
retry-IsUncounted hash (some p) s g h =
    schedule_retry-IsUncounted p s (get-All AtFirst hash p s.saved_retries h.saved g) h

pub retry_if_full-IsUncounted :
    (hash : String) (r : RetVal) (s : Txs) → IsUncounted s → IsUncounted (retry_if_full hash r s)
unfolding retry_if_full
retry_if_full-IsUncounted hash (failed e) s h =
    if_both IsUncounted (mempool_full_or_out_of_token e) _ s
      (retry-IsUncounted hash (get hash s.saved_retries) s refl h) h
retry_if_full-IsUncounted hash (committed n) s h = h
retry_if_full-IsUncounted hash chain_disabled_retry_later s h = h

-- A change of the rest of the state.
abbrev pub SameRetries : Txs → Txs → Type 0
SameRetries s t =
    (t.calls ≡ s.calls)
    × (t.saved_retries ≡ s.saved_retries)
    × (t.retry_timeouts ≡ s.retry_timeouts)

pub same-IsUncounted : (s t : Txs) → SameRetries s t → IsUncounted s → IsUncounted t
same-IsUncounted s t e h = record {
  calls = subst (All CallAtFirst) (sym e.0) h.calls;
  saved = subst (All AtFirst) (sym e.1) h.saved;
  timeouts = subst (All AtOnce) (sym e.2) h.timeouts;
}
