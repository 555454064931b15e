-- ===== src/Tendermint/Pool/Available.antt =====
-- That a connection is to be had while a client is connected, by `getConnection` and
-- `waitForAvailableConnection` of main-server/src/tendermint/ws_pool.js.
use ndidplatform_api.Base.{
  ℕ, suc, ◌+◌, ◌<◌, ◌≡◌, ◌≢◌, refl, sym, ap, ◌∙◌, inl, inr, Bool, true, false, Option, none, some,
  List, [], ◌∷◌, ◌++◌, if◌then◌else◌, nat_eq, Bool-cases, length, take, drop, head?, select,
  take-append-drop, ◌%◌, arith,
}
use ndidplatform_api.Base.Checked.{Checked, passed}
use package.ndidplatform_api.Tendermint.Client.{WsClient}
use package.ndidplatform_api.Tendermint.Pool.{Pool, Failure, get_connection}
use package.ndidplatform_api.Tendermint.Pool.{initialize, PoolEvent, run}
use package.ndidplatform_api.Tendermint.Pool.Count.{count_connected, IsCounted, run-IsCounted}
use package.ndidplatform_api.Tendermint.Pool.RoundRobin.{
  Gives, number, is_up, index_of, next_in_turn, or_else, head-append, get_connection-next_in_turn,
}

-- Where none is found, none is connected.
none_up :
    (ms : List WsClient) (i : ℕ)
    → index_of (head? (select is_up (number i ms))) ≡ none
    → count_connected ms ≡ 0
none_up [] i h = refl
none_up (m ∷ ms) i h = elim (Bool-cases m.connected) [
  | inl t ↦ absurd (cc (up_first i m (select is_up (number (suc i) ms)) m.connected t h))
  | inr f ↦
      let none_later =
        none_up ms (suc i) (down_first i m (select is_up (number (suc i) ms)) m.connected f h) in
      rw f (omega arith)
]
  where
    up_first :
        (i : ℕ) (m : WsClient) (xs : List (ℕ × WsClient)) (b : Bool)
        → b ≡ true
        → index_of (head? (if b then (i, m) ∷ xs else xs)) ≡ none
        → some i ≡ none
    up_first i m xs true e h = h
    up_first i m xs false e h = cc

    down_first :
        (i : ℕ) (m : WsClient) (xs : List (ℕ × WsClient)) (b : Bool)
        → b ≡ false
        → index_of (head? (if b then (i, m) ∷ xs else xs)) ≡ none
        → index_of (head? xs) ≡ none
    down_first i m xs true e h = cc
    down_first i m xs false e h = h

count_connected-append :
    (xs ys : List WsClient) → count_connected (xs ++ ys) ≡ count_connected xs + count_connected ys
count_connected-append [] ys = omega arith
count_connected-append (x ∷ xs) ys = omega (arith, count_connected-append xs ys)

or_else-none : (o q : Option ℕ) → or_else o q ≡ none → (o ≡ none) × (q ≡ none)
or_else-none none q h = (refl, h)
or_else-none (some i) q h = cc

none_in_turn : (i : ℕ) (cs : List WsClient) → next_in_turn i cs ≡ none → count_connected cs ≡ 0
none_in_turn i cs h =
    let parts =
      or_else-none (index_of (head? (select is_up (number i (drop i cs)))))
        (index_of (head? (select is_up (number 0 (take i cs)))))
        (sym (head-append (number i (drop i cs)) (number 0 (take i cs))) ∙ h) in
    ap count_connected (sym (take-append-drop i cs))
    ∙ count_connected-append (take i cs) (drop i cs)
    ∙ rw (none_up (take i cs) 0 parts.1, none_up (drop i cs) i parts.0) (omega arith)

some_clients : (cs : List WsClient) → 0 < count_connected cs → 0 < length cs
some_clients [] h = h
some_clients (c ∷ cs) h = omega arith

given :
    (p : Pool) (start : ℕ) (o : Option ℕ) (r : Pool × Checked Failure ℕ)
    → o ≢ none
    → Gives p start o r
    → (k : ℕ) × (r.1 ≡ passed k)
given p start none r n g = absurd (n refl)
given p start (some k) r n g = (k, g.0)

-- Whatever happened before: while `connectedWsCount` is above zero, `getConnection` returns a client
-- and does not throw.
pub available_connection :
    (n : ℕ) (es : List PoolEvent)
    → 0 < (run es (initialize n)).connected_ws_count
    → (k : ℕ) × ((get_connection (run es (initialize n))).1 ≡ passed k)
unfolding IsCounted
available_connection n es h = from_count (run es (initialize n)) (run-IsCounted n es).1 h
  where
    from_count :
        (p : Pool)
        → p.connected_ws_count ≡ count_connected p.ws_clients
        → 0 < p.connected_ws_count
        → (k : ℕ) × ((get_connection p).1 ≡ passed k)
    from_count p e h =
        given p (p.ws_client_index % length p.ws_clients)
          (next_in_turn (p.ws_client_index % length p.ws_clients) p.ws_clients) (get_connection p)
          (λ z. let k = none_in_turn _ p.ws_clients z in omega arith)
          (get_connection-next_in_turn p (some_clients p.ws_clients (omega arith)))
