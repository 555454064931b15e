-- ===== src/Workers/Sound.antt =====
-- That every call on the master (main-server/src/master-worker-interface/server.js) keeps its books.
use ndidplatform_api.Base.{
  ℕ, suc, ◌<◌, String, ◌≡◌, sym, ◌∙◌, Option, none, some, List, [], ◌∷◌, if◌then◌else◌, if_both,
  ◌==◌, nat_eq, string_eq, All, All-imp, All-put, get, Distinct-put, arith,
}
use package.ndidplatform_api.Workers.{
  Worker, Job, Call, Master, Fault, state, none_available, is_better, least_busy, find_worker,
  Choice, chosen, failed, found_or, choose, get_worker, assign, delegate_to_chosen, next_call,
  delegate_to_worker,
}
use package.ndidplatform_api.Workers.Books.{
  IsCounted, IsOpen, IsSound, count_stopping-recount, HasUniqueIds-recount, get-new_ref,
  All-recount_up,
}

-- A worker that can be given a call: its connection has been given out.
abbrev pub IsKnown : ℕ → Worker → Type 0
IsKnown bound w = w.connection < bound

pub assign-IsSound :
    (job : Job) (callback : Option String) (w : Worker) (s : Master)
    → IsSound s
    → w.connection < s.connection_counter
    → IsSound (assign job callback s.call_counter w (next_call s))
unfolding assign next_call
assign-IsSound job callback w s h k = record {
  counted = All-recount_up call ref s.connection_counter s.grpc_call s.worker_list fresh h.counted;
  opened =
      All-put (IsOpen (suc ref) s.connection_counter) ref call s.grpc_call (omega arith, k)
        (All-imp (IsOpen ref s.connection_counter) (IsOpen (suc ref) s.connection_counter)
          (λ e o. (omega arith, o.1)) s.grpc_call h.opened);
  keyed = Distinct-put ref call s.grpc_call h.keyed;
  stopping = h.stopping ∙ sym (count_stopping-recount suc w.connection s.worker_list);
  unique = HasUniqueIds-recount suc w.connection s.worker_list h.unique;
}
  where
    ref : ℕ
    ref = s.call_counter

    call : Call
    call = record { job = job; callback = callback; connection = w.connection }

    fresh : get s.call_counter s.grpc_call ≡ none
    fresh = get-new_ref s.call_counter s.connection_counter s.grpc_call h.opened

next_call-IsSound : (s : Master) → IsSound s → IsSound (next_call s)
unfolding next_call
next_call-IsSound s h = record {
  counted = h.counted;
  opened =
      All-imp (IsOpen s.call_counter s.connection_counter)
        (IsOpen (suc s.call_counter) s.connection_counter) (λ e o. (omega arith, o.1)) s.grpc_call
        h.opened;
  keyed = h.keyed;
  stopping = h.stopping;
  unique = h.unique;
}

-- What the search finds is one of those that it looks through.
abbrev pub Holds {ℓ} : (Worker → Type ℓ) → Option Worker → Type ℓ
Holds P none = Unit
Holds P (some w) = P w

pub least_busy-Holds {ℓ} :
    (P : Worker → Type ℓ) (best : Option Worker) (ws : List Worker)
    → Holds P best
    → All P ws
    → Holds P (least_busy best ws)
unfolding least_busy
least_busy-Holds P best [] b h = b
least_busy-Holds P best (w ∷ ws) b h =
    least_busy-Holds P (if is_better w best then some w else best) ws
      (if_both (Holds P) (is_better w best) (some w) best h.0 b) h.1

pub find_worker-Holds {ℓ} :
    (P : Worker → Type ℓ) (id : String) (ws : List Worker) → All P ws → Holds P (find_worker id ws)
unfolding find_worker
find_worker-Holds P id [] h = tt
find_worker-Holds P id (w ∷ ws) h =
    if_both (Holds P) (w.worker_id == id) (some w) (find_worker id ws) h.0
      (find_worker-Holds P id ws h.1)

abbrev Chooses {ℓ} : (Worker → Type ℓ) → Choice → Type ℓ
Chooses P (chosen w) = P w
Chooses P (failed f) = Unit

found_or-Chooses {ℓ} :
    (P : Worker → Type ℓ) (f : Fault) (o : Option Worker) → Holds P o → Chooses P (found_or f o)
unfolding found_or
found_or-Chooses P f none h = tt
found_or-Chooses P f (some w) h = h

get_worker-Chooses {ℓ} :
    (P : Worker → Type ℓ) (specific : Option String) (s : Master)
    → All P s.worker_list
    → Chooses P (get_worker specific s)
unfolding get_worker choose
get_worker-Chooses P none s h = if_both (Chooses P) (none_available s) (failed _) _ tt (
    found_or-Chooses P _ (least_busy none s.worker_list)
      (least_busy-Holds P none s.worker_list tt h))
get_worker-Chooses P (some id) s h =
    if_both (Chooses P) (none_available s) (failed _) _ tt
      (found_or-Chooses P _ (find_worker id s.worker_list) (find_worker-Holds P id s.worker_list h))

pub known : (s : Master) → IsSound s → All (IsKnown s.connection_counter) s.worker_list
known s h =
    All-imp (IsCounted s.grpc_call s.connection_counter) (IsKnown s.connection_counter) (λ w c. c.1)
      s.worker_list h.counted

to_chosen-IsSound :
    (job : Job) (callback : Option String) (c : Choice) (s : Master)
    → IsSound s
    → Chooses (IsKnown s.connection_counter) c
    → IsSound (state (delegate_to_chosen job callback s.call_counter c (next_call s)))
unfolding delegate_to_chosen
to_chosen-IsSound job callback (chosen w) s h k = assign-IsSound job callback w s h k
to_chosen-IsSound job callback (failed f) s h k = next_call-IsSound s h

pub delegate_to_worker-IsSound :
    (job : Job) (callback specific : Option String) (s : Master)
    → IsSound s
    → IsSound (state (delegate_to_worker job callback specific s))
unfolding delegate_to_worker
delegate_to_worker-IsSound job callback specific s h =
    to_chosen-IsSound job callback (get_worker specific s) s h
      (get_worker-Chooses (IsKnown s.connection_counter) specific s (known s h))
