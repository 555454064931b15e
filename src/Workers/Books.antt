-- ===== src/Workers/Books.antt =====
-- What the books of the master (main-server/src/master-worker-interface/server.js) say, and how
-- changes of the list of workers and of the calls in flight move them.
use ndidplatform_api.Base.{
  ℕ, suc, ◌+◌, ◌<◌, String, ◌≡◌, refl, none, some, List, [], ◌∷◌, ◌++◌, if◌then◌else◌, ◌==◌, ==_iff,
  nat_eq, string_eq, All, get, put, delete, Distinct, weigh, weigh-put, weigh-delete, arith,
}
use package.ndidplatform_api.Workers.{Worker, Call, Master, find_worker, recount, take_one}
use package.ndidplatform_api.Workers.Events.{
  new_worker, drop_worker, stopping_dropped, mark_stopping,
}

abbrev pub is_on : ℕ → Call → ℕ
is_on c call = if call.connection == c then 1 else 0

-- The calls in flight on a connection.
abbrev pub calls_on : ℕ → List (ℕ × Call) → ℕ
calls_on c calls = weigh (is_on c) calls

abbrev pub count_stopping : List Worker → ℕ
count_stopping [] = 0
count_stopping (w ∷ ws) = (if w.stopping then 1 else 0) + count_stopping ws

-- No two workers have the same id.
abbrev pub HasUniqueIds : List Worker → Type 0
HasUniqueIds [] = Unit
HasUniqueIds (w ∷ ws) = (find_worker w.worker_id ws ≡ none) × HasUniqueIds ws

-- The worker's count is that of its calls, and its connection has been given out.
abbrev pub IsCounted : List (ℕ × Call) → ℕ → Worker → Type 0
IsCounted calls bound w = (w.job_count ≡ calls_on w.connection calls) × (w.connection < bound)

abbrev pub IsOpen : ℕ → ℕ → ℕ × Call → Type 0
IsOpen refs bound (ref, call) = (ref < refs) × (call.connection < bound)

pub record IsSound (s : Master) : Type 0 where
  pub counted : All (IsCounted s.grpc_call s.connection_counter) s.worker_list
  pub opened : All (IsOpen s.call_counter s.connection_counter) s.grpc_call
  pub keyed : Distinct s.grpc_call
  pub stopping : s.stopping_worker_count ≡ count_stopping s.worker_list
  pub unique : HasUniqueIds s.worker_list

pub count_stopping-append :
    (ws vs : List Worker) → count_stopping (ws ++ vs) ≡ count_stopping ws + count_stopping vs
count_stopping-append [] vs = omega arith
count_stopping-append (w ∷ ws) vs = omega (arith, count_stopping-append ws vs)

pub count_stopping-recount :
    (f : ℕ → ℕ) (c : ℕ) (ws : List Worker) → count_stopping (recount f c ws) ≡ count_stopping ws
unfolding recount
count_stopping-recount f c [] = refl
count_stopping-recount f c (w ∷ ws) = ground (arith, count_stopping-recount f c ws)

pub count_stopping-drop :
    (id : String) (ws : List Worker)
    → count_stopping (drop_worker id ws) + stopping_dropped id ws ≡ count_stopping ws
unfolding drop_worker stopping_dropped
count_stopping-drop id [] = refl
count_stopping-drop id (w ∷ []) = ground arith
count_stopping-drop id (w ∷ v ∷ ws) =
    ground (arith, count_stopping-drop id ws, count_stopping-drop id (v ∷ ws))

pub count_stopping-mark :
    (id : String) (w : Worker) (ws : List Worker)
    → find_worker id ws ≡ some w
    → count_stopping (mark_stopping id ws)
      ≡ (if w.stopping then count_stopping ws else suc (count_stopping ws))
unfolding find_worker mark_stopping
count_stopping-mark id w [] h = cc
count_stopping-mark id w (v ∷ ws) h = ground (arith, count_stopping-mark id w ws)

find_none-recount :
    (f : ℕ → ℕ) (c : ℕ) (id : String) (ws : List Worker)
    → find_worker id ws ≡ none
    → find_worker id (recount f c ws) ≡ none
unfolding find_worker recount
find_none-recount f c id [] h = refl
find_none-recount f c id (w ∷ ws) h = ground (arith, find_none-recount f c id ws)

find_none-drop :
    (j id : String) (ws : List Worker)
    → find_worker id ws ≡ none
    → find_worker id (drop_worker j ws) ≡ none
unfolding find_worker drop_worker
find_none-drop j id [] h = refl
find_none-drop j id (w ∷ []) h = ground arith
find_none-drop j id (w ∷ v ∷ ws) h =
    ground (arith, find_none-drop j id ws, find_none-drop j id (v ∷ ws))

find_none-mark :
    (j id : String) (ws : List Worker)
    → find_worker id ws ≡ none
    → find_worker id (mark_stopping j ws) ≡ none
unfolding find_worker mark_stopping
find_none-mark j id [] h = refl
find_none-mark j id (w ∷ ws) h = ground (arith, find_none-mark j id ws)

find_none-append :
    (id : String) (ws vs : List Worker)
    → find_worker id ws ≡ none
    → find_worker id vs ≡ none
    → find_worker id (ws ++ vs) ≡ none
unfolding find_worker
find_none-append id [] vs h k = k
find_none-append id (w ∷ ws) vs h k = ground (arith, find_none-append id ws vs)

pub HasUniqueIds-recount :
    (f : ℕ → ℕ) (c : ℕ) (ws : List Worker) → HasUniqueIds ws → HasUniqueIds (recount f c ws)
unfolding recount
HasUniqueIds-recount f c [] u = tt
HasUniqueIds-recount f c (w ∷ ws) u =
    ground (arith, find_none-recount f c w.worker_id ws u.0, HasUniqueIds-recount f c ws u.1)

pub HasUniqueIds-drop :
    (j : String) (ws : List Worker) → HasUniqueIds ws → HasUniqueIds (drop_worker j ws)
unfolding drop_worker
HasUniqueIds-drop j [] u = tt
HasUniqueIds-drop j (w ∷ []) u = ground arith
HasUniqueIds-drop j (w ∷ v ∷ ws) u = ground (
  arith,
  HasUniqueIds-drop j ws u.1.1,
  HasUniqueIds-drop j (v ∷ ws) u.1,
  find_none-drop j v.worker_id ws u.1.0,
  find_none-drop j w.worker_id (v ∷ ws) u.0,
)

pub HasUniqueIds-mark :
    (j : String) (ws : List Worker) → HasUniqueIds ws → HasUniqueIds (mark_stopping j ws)
unfolding mark_stopping
HasUniqueIds-mark j [] u = tt
HasUniqueIds-mark j (w ∷ ws) u =
    ground (arith, find_none-mark j w.worker_id ws u.0, HasUniqueIds-mark j ws u.1)

pub HasUniqueIds-append :
    (c : ℕ) (id : String) (ws : List Worker)
    → find_worker id ws ≡ none
    → HasUniqueIds ws
    → HasUniqueIds (ws ++ new_worker c id ∷ [])
unfolding find_worker
HasUniqueIds-append c id [] n u = (refl, tt)
HasUniqueIds-append c id (w ∷ ws) n u = ground (
  arith,
  ==_iff w.worker_id id,
  ==_iff id w.worker_id,
  find_none-append w.worker_id ws (new_worker c id ∷ []) u.0,
  HasUniqueIds-append c id ws,
)

-- A call's entry is added for a reference that none has, and taken out.
pub calls_on-put :
    (c ref : ℕ) (call : Call) (calls : List (ℕ × Call))
    → get ref calls ≡ none
    → calls_on c (put ref call calls) ≡ calls_on c calls + is_on c call
calls_on-put c ref call calls h = ground (arith, h, weigh-put (is_on c) ref call calls)

pub calls_on-delete :
    (c ref : ℕ) (call : Call) (calls : List (ℕ × Call))
    → Distinct calls
    → get ref calls ≡ some call
    → calls_on c (delete ref calls) + is_on c call ≡ calls_on c calls
calls_on-delete c ref call calls d h = ground (arith, h, weigh-delete (is_on c) ref calls d)

-- A reference that has not been given out has no entry, and a new connection has no call.
pub get-new_ref :
    (refs bound : ℕ) (calls : List (ℕ × Call))
    → All (IsOpen refs bound) calls
    → get refs calls ≡ none
unfolding get
get-new_ref refs bound [] h = refl
get-new_ref refs bound ((k, call) ∷ calls) h = ground (arith, get-new_ref refs bound calls h.1)

pub calls_on-new :
    (refs bound : ℕ) (calls : List (ℕ × Call))
    → All (IsOpen refs bound) calls
    → calls_on bound calls ≡ 0
calls_on-new refs bound [] h = refl
calls_on-new refs bound ((k, call) ∷ calls) h = ground (arith, calls_on-new refs bound calls h.1)

pub All-recount_up :
    (call : Call) (ref bound : ℕ) (calls : List (ℕ × Call)) (ws : List Worker)
    → get ref calls ≡ none
    → All (IsCounted calls bound) ws
    → All (IsCounted (put ref call calls) bound) (recount suc call.connection ws)
unfolding recount
All-recount_up call ref bound calls [] n h = tt
All-recount_up call ref bound calls (w ∷ ws) n h = ground (
  arith,
  calls_on-put w.connection ref call calls n,
  All-recount_up call ref bound calls ws n h.1,
)

pub All-recount_down :
    (call : Call) (ref bound : ℕ) (calls : List (ℕ × Call)) (ws : List Worker)
    → Distinct calls
    → get ref calls ≡ some call
    → All (IsCounted calls bound) ws
    → All (IsCounted (delete ref calls) bound) (recount take_one call.connection ws)
unfolding recount
All-recount_down call ref bound calls [] d g h = tt
All-recount_down call ref bound calls (w ∷ ws) d g h = ground (
  arith,
  calls_on-delete w.connection ref call calls d g,
  All-recount_down call ref bound calls ws d g h.1,
)

pub All-drop {ℓ} :
    (P : Worker → Type ℓ) (id : String) (ws : List Worker) → All P ws → All P (drop_worker id ws)
unfolding drop_worker
All-drop P id [] h = tt
All-drop P id (w ∷ []) h = ground arith
All-drop P id (w ∷ v ∷ ws) h = ground (arith, All-drop P id ws h.1.1, All-drop P id (v ∷ ws) h.1)

pub All-mark :
    (calls : List (ℕ × Call)) (bound : ℕ) (id : String) (ws : List Worker)
    → All (IsCounted calls bound) ws
    → All (IsCounted calls bound) (mark_stopping id ws)
unfolding mark_stopping
All-mark calls bound id [] h = tt
All-mark calls bound id (w ∷ ws) h = ground (arith, All-mark calls bound id ws h.1)
