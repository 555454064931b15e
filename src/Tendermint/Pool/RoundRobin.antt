-- ===== src/Tendermint/Pool/RoundRobin.antt =====
-- Which client `getConnection` of main-server/src/tendermint/ws_pool.js returns.
use ndidplatform_api.Base.{
  ℕ, zero, suc, ◌-◌, ◌≤◌, ◌<◌, ◌≡◌, refl, sym, subst, ap, ◌∙◌, inl, inr, Bool, true, false, not,
  Option, none, some, List, [], ◌∷◌, ◌++◌, if◌then◌else◌, ◌==◌, nat_eq, Bool-cases, length, take,
  drop, head?, select, take-append-drop, length-take, length-drop, length-append, ◌%◌, arith,
}
use mathlib.Core.List.{append-nil, append_assoc}
use ndidplatform_api.Base.Checked.{Checked, passed, refused}
use package.ndidplatform_api.Tendermint.Client.{WsClient}
use package.ndidplatform_api.Tendermint.Pool.{
  Pool, Failure, no_connected_ws, connected_at, first_connected, from_start,
  get_next_connected_connection_client_index, take_client, client_from, get_connection,
}

-- Clients with their indices, counted from the first one's.
abbrev pub number : ℕ → List WsClient → List (ℕ × WsClient)
number i [] = []
number i (c ∷ cs) = (i, c) ∷ number (suc i) cs

abbrev pub is_up : ℕ × WsClient → Bool
is_up (i, c) = c.connected

-- The clients in turn: from an index on, and then from the start.
abbrev pub in_turn : ℕ → List WsClient → List (ℕ × WsClient)
in_turn i cs = number i (drop i cs) ++ number 0 (take i cs)

abbrev pub index_of : Option (ℕ × WsClient) → Option ℕ
index_of none = none
index_of (some (i, c)) = some i

-- The first connected client in turn.
abbrev pub next_in_turn : ℕ → List WsClient → Option ℕ
next_in_turn i cs = index_of (head? (select is_up (in_turn i cs)))

abbrev pub or_else : Option ℕ → Option ℕ → Option ℕ
or_else none o = o
or_else (some i) o = some i

connected_at-append :
    (pre : List WsClient) (c : WsClient) (post : List WsClient)
    → connected_at (length pre) (pre ++ c ∷ post) ≡ c.connected
unfolding connected_at
connected_at-append [] c post = refl
connected_at-append (d ∷ pre) c post = connected_at-append pre c post

picked :
    (i : ℕ) (m : WsClient) (ms : List (ℕ × WsClient)) (b c : Bool) (o : Option ℕ)
    → b ≡ c
    → o ≡ index_of (head? ms)
    → (if b then some i else o) ≡ index_of (head? (if c then (i, m) ∷ ms else ms))
picked i m ms b true o e f = rw e refl
picked i m ms b false o e f = rw e f

-- The loop over a stretch of the array.
first_connected-stretch :
    (ms pre post : List WsClient) (n i : ℕ)
    → length ms ≡ n
    → length pre ≡ i
    → first_connected n i (pre ++ (ms ++ post)) ≡ index_of (head? (select is_up (number i ms)))
unfolding first_connected
first_connected-stretch [] pre post zero i e f = refl
first_connected-stretch [] pre post (suc n) i e f = absurd (omega arith)
first_connected-stretch (m ∷ ms) pre post zero i e f = absurd (omega arith)
first_connected-stretch (m ∷ ms) pre post (suc n) i e f =
    picked i m (select is_up (number (suc i) ms)) (connected_at i (pre ++ m ∷ (ms ++ post)))
      m.connected (first_connected n (suc i) (pre ++ m ∷ (ms ++ post)))
      (subst (λ k. connected_at k (pre ++ m ∷ (ms ++ post)) ≡ m.connected) f
        (connected_at-append pre m (ms ++ post)))
      (subst
        (λ cs. first_connected n (suc i) cs ≡ index_of (head? (select is_up (number (suc i) ms))))
        (append_assoc pre (m ∷ []) (ms ++ post))
        (first_connected-stretch ms (pre ++ m ∷ []) post n (suc i) (omega arith)
          (omega (arith, length-append pre (m ∷ [])))))

first_of :
    (i : ℕ) (c : WsClient) (b : Bool) (xs ys : List (ℕ × WsClient)) (o : Option ℕ)
    → index_of (head? ys) ≡ or_else (index_of (head? xs)) o
    → index_of (head? (if b then (i, c) ∷ ys else ys))
      ≡ or_else (index_of (head? (if b then (i, c) ∷ xs else xs))) o
first_of i c true xs ys o h = refl
first_of i c false xs ys o h = h

-- The two stretches, one after the other.
pub head-append :
    (xs ys : List (ℕ × WsClient))
    → index_of (head? (select is_up (xs ++ ys)))
      ≡ or_else (index_of (head? (select is_up xs))) (index_of (head? (select is_up ys)))
head-append [] ys = refl
head-append ((i, c) ∷ xs) ys =
    first_of i c c.connected (select is_up xs) (select is_up (xs ++ ys))
      (index_of (head? (select is_up ys))) (head-append xs ys)

to_end :
    (i : ℕ) (cs : List WsClient)
    → i ≤ length cs
    → first_connected (length cs - i) i cs ≡ index_of (head? (select is_up (number i (drop i cs))))
to_end i cs h =
    subst
      (λ ds.
        first_connected (length cs - i) i ds
        ≡ index_of (head? (select is_up (number i (drop i cs)))))
      (ap (λ ds. take i cs ++ ds) (append-nil (drop i cs)) ∙ take-append-drop i cs)
      (first_connected-stretch (drop i cs) (take i cs) [] (length cs - i) i (length-drop i cs)
        (length-take i cs h))

to_index :
    (i : ℕ) (cs : List WsClient)
    → i ≤ length cs
    → first_connected i 0 cs ≡ index_of (head? (select is_up (number 0 (take i cs))))
to_index i cs h =
    subst (λ ds. first_connected i 0 ds ≡ index_of (head? (select is_up (number 0 (take i cs)))))
      (take-append-drop i cs)
      (first_connected-stretch (take i cs) [] (drop i cs) i 0 (length-take i cs h) refl)

from_start_lem :
    (o : Option ℕ) (i : ℕ) (cs : List WsClient)
    → from_start o i cs ≡ or_else o (first_connected i 0 cs)
unfolding from_start first_connected
from_start_lem (some k) i cs = refl
from_start_lem none zero cs = refl
from_start_lem none (suc i) cs = rw (suc_is_not_zero i) refl
  where
    suc_is_not_zero : (i : ℕ) → (suc i == 0) ≡ false
    suc_is_not_zero i = ground arith

next_lem :
    (i : ℕ) (cs : List WsClient)
    → i ≤ length cs
    → get_next_connected_connection_client_index i cs ≡ next_in_turn i cs
unfolding get_next_connected_connection_client_index
next_lem i cs h =
    from_start_lem (first_connected (length cs - i) i cs) i cs
    ∙ rw (to_end i cs h, to_index i cs h)
        (sym (head-append (number i (drop i cs)) (number 0 (take i cs))))

at_once :
    (n i : ℕ) (cs : List WsClient)
    → 0 < n
    → connected_at i cs ≡ true
    → first_connected n i cs ≡ some i
unfolding first_connected
at_once zero i cs p t = absurd (omega arith)
at_once (suc n) i cs p t = rw t refl

-- A client that is connected itself comes first in turn.
itself_first :
    (i : ℕ) (cs : List WsClient)
    → i < length cs
    → connected_at i cs ≡ true
    → get_next_connected_connection_client_index i cs ≡ some i
unfolding get_next_connected_connection_client_index
itself_first i cs h t =
    rw (at_once (length cs - i) i cs (omega arith) t) (from_start_lem (some i) i cs)

chosen_in_turn :
    (i : ℕ) (cs : List WsClient)
    → i < length cs
    → (if not (connected_at i cs) then get_next_connected_connection_client_index i cs else some i)
      ≡ next_in_turn i cs
chosen_in_turn i cs h = elim (Bool-cases (connected_at i cs)) [
  | inl t ↦ rw t (sym (itself_first i cs h t) ∙ next_lem i cs (omega arith))
  | inr f ↦ rw f (next_lem i cs (omega arith))
]

-- What a call gives: for a client in turn its index, the next index being the one after it; else an
-- error. The clients and their count stay.
abbrev pub Gives : Pool → ℕ → Option ℕ → Pool × Checked Failure ℕ → Type 0
Gives p start none r =
    (r.1 ≡ refused no_connected_ws)
    × (r.0.ws_client_index ≡ start)
    × (r.0.ws_clients ≡ p.ws_clients)
    × (r.0.connected_ws_count ≡ p.connected_ws_count)
Gives p start (some i) r =
    (r.1 ≡ passed i)
    × (r.0.ws_client_index ≡ suc i)
    × (r.0.ws_clients ≡ p.ws_clients)
    × (r.0.connected_ws_count ≡ p.connected_ws_count)

taken-Gives :
    (p : Pool) (start : ℕ) (o : Option ℕ)
    → Gives p start o (take_client o (record p { ws_client_index = start }))
unfolding take_client
taken-Gives p start none = (refl, refl, refl, refl)
taken-Gives p start (some i) = (refl, refl, refl, refl)

-- With any clients at all, `getConnection` returns the first connected client in turn, from the
-- index modulo their number on and then from the start, and the next index is the one after it; it
-- throws if there is none, and the clients and their count stay as they are.
pub get_connection-next_in_turn :
    (p : Pool)
    → 0 < length p.ws_clients
    → let start = p.ws_client_index % length p.ws_clients in
      Gives p start (next_in_turn start p.ws_clients) (get_connection p)
unfolding get_connection client_from
get_connection-next_in_turn p h =
    let start = p.ws_client_index % length p.ws_clients in
    rw (some_clients (length p.ws_clients) h) (
      subst
        (λ o.
          Gives p start (next_in_turn start p.ws_clients)
            (take_client o (record p { ws_client_index = start })))
        (sym (chosen_in_turn start p.ws_clients (grind arith)))
        (taken-Gives p start (next_in_turn start p.ws_clients)))
  where
    some_clients : (n : ℕ) → 0 < n → (n == 0) ≡ false
    some_clients n h = ground arith
