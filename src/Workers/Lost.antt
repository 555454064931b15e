-- ===== src/Workers/Lost.antt =====
-- What becomes of the tasks that a lost worker left, in
-- main-server/src/master-worker-interface/server.js.
use ndidplatform_api.Base.{
  ℕ, suc, String, ◌≡◌, refl, sym, subst, ap, ◌∙◌, inl, inr, false, none, some, List, [], ◌∷◌, ◌==◌,
  nat_eq, string_eq, All, length-append, get-delete_other, remove_first, ==_refl, length, get,
  delete, includes, arith,
}
use package.ndidplatform_api.Workers.{
  splice_index_of, drop_last, Worker, Job, Remaining, Master, Ran, ended, thrown, ◌>>=◌, state,
  none_available, find_worker, Choice, chosen, failed, get_worker, recount, assign,
  delegate_to_chosen, next_call, delegate_to_worker, delegate_all, due_jobs, mq_jobs, forget_lost,
  handle_remaining, handle_lost_worker_remaining_tasks, run_timeout_scheduler,
  continue_callback_with_retry,
}
use package.ndidplatform_api.Workers.Events.{
  element_at, visit, for_each_lost, new_worker, add_worker, subscribe, handle_worker_lost,
  drop_connection, cancelled,
}
use package.ndidplatform_api.Workers.Books.{IsSound}
use package.ndidplatform_api.Workers.Sound.{IsKnown, known, assign-IsSound}
use package.ndidplatform_api.Workers.LeastBusy.{
  Among, IsLeastBusy, get_worker-IsLeastBusy, not_all_stopping, all_stopping, stopping-le,
}
use package.ndidplatform_api.Workers.Runs.{add_worker-IsSound, drop_connection-IsSound}

-- It ended with the books right and a worker available, and the lost workers are as before.
abbrev Passed : Master → Ran → Type 0
Passed s (thrown f t) = ⊥
Passed s (ended t) =
    IsSound t
    × (none_available t ≡ false)
    × (t.lost_worker_ids ≡ s.lost_worker_ids)
    × (t.worker_lost_handling ≡ s.worker_lost_handling)

and_then-Passed :
    (s : Master) (r : Ran) (next : Master → Ran)
    → Passed s r
    → ((t : Master) → Passed s (ended t) → Passed s (next t))
    → Passed s (r >>= next)
and_then-Passed s (thrown f t) next h k = elim h [ ]
and_then-Passed s (ended t) next h k = k t h

length-recount : (f : ℕ → ℕ) (c : ℕ) (ws : List Worker) → length (recount f c ws) ≡ length ws
unfolding recount
length-recount f c [] = refl
length-recount f c (w ∷ ws) = ap suc (length-recount f c ws)

of_among {ℓ} : (P : Worker → Type ℓ) (w : Worker) (ws : List Worker) → All P ws → Among w ws → P w
of_among P w [] h m = elim m [ ]
of_among P w (v ∷ ws) h (inl e) = subst P (sym e) h.0
of_among P w (v ∷ ws) h (inr m) = of_among P w ws h.1 m

to_chosen-Passed :
    (job : Job) (s t : Master) (c : Choice)
    → Passed s (ended t)
    → IsLeastBusy t.worker_list c
    → Passed s (delegate_to_chosen job none t.call_counter c (next_call t))
unfolding delegate_to_chosen IsLeastBusy assign next_call none_available
to_chosen-Passed job s t (failed f) p b =
    absurd (not_all_stopping t p.0 p.1 (all_stopping t.worker_list b.1))
to_chosen-Passed job s t (chosen w) p b = (
  assign-IsSound job none w t p.0
      (of_among (IsKnown t.connection_counter) w t.worker_list (known t p.0) b.1),
  rw (length-recount suc w.connection t.worker_list) p.1,
  p.2,
  p.3,
)

delegate_all-Passed :
    (jobs : List Job) (s t : Master) → Passed s (ended t) → Passed s (delegate_all jobs t)
unfolding delegate_all delegate_to_worker
delegate_all-Passed [] s t p = p
delegate_all-Passed (job ∷ jobs) s t p =
    and_then-Passed s (delegate_to_worker job none none t) (delegate_all jobs)
      (to_chosen-Passed job s t (get_worker none t) p (get_worker-IsLeastBusy t p.0))
      (delegate_all-Passed jobs s)

-- It ended, and the worker's tasks and one place among the lost workers are gone.
abbrev Forgot : String → Master → Ran → Type 0
Forgot id s (thrown f t) = ⊥
Forgot id s (ended t) =
    (none_available t ≡ false)
    × (t.lost_worker_ids ≡ splice_index_of id s.lost_worker_ids)
    × (t.worker_lost_handling ≡ delete id s.worker_lost_handling)

then-Forgot : (id : String) (s : Master) (r : Ran) → Passed s r → Forgot id s (r >>= forget_lost id)
unfolding forget_lost none_available
then-Forgot id s (thrown f t) p = elim p [ ]
then-Forgot id s (ended t) p = (p.1, ap (splice_index_of id) p.2, ap (delete id) p.3)

handle_remaining-Forgot :
    (id : String) (now : ℕ) (r : Remaining) (s : Master)
    → Passed s (ended s)
    → Forgot id s (handle_remaining id now (some r) s)
unfolding handle_remaining
handle_remaining-Forgot id now r s p =
    then-Forgot id s (after_timeouts >>= after_callbacks >>= delegate_all (mq_jobs r.mq)) (
      and_then-Passed s (after_timeouts >>= after_callbacks) (delegate_all (mq_jobs r.mq))
        (and_then-Passed s after_timeouts after_callbacks
          (delegate_all-Passed (due_jobs run_timeout_scheduler now r.request_timeout) s s p)
          (delegate_all-Passed (due_jobs continue_callback_with_retry now r.callback) s))
        (delegate_all-Passed (mq_jobs r.mq) s))
  where
    after_timeouts : Ran
    after_timeouts = delegate_all (due_jobs run_timeout_scheduler now r.request_timeout) s

    after_callbacks : Master → Ran
    after_callbacks = delegate_all (due_jobs continue_callback_with_retry now r.callback)

handle_lost-Forgot :
    (id : String) (now : ℕ) (r : Remaining) (s : Master)
    → IsSound s
    → none_available s ≡ false
    → get id s.worker_lost_handling ≡ some r
    → Forgot id s (handle_lost_worker_remaining_tasks id now s)
unfolding handle_lost_worker_remaining_tasks
handle_lost-Forgot id now r s h a g = rw g (handle_remaining-Forgot id now r s (h, a, refl, refl))

new_is_available : (id : String) (s : Master) → IsSound s → none_available (add_worker id s) ≡ false
unfolding none_available add_worker
new_is_available id s h =
    let n = length-append s.worker_list (new_worker s.connection_counter id ∷ []) in
    let k = stopping-le s.worker_list in ground (arith, h.stopping)

first_spliced : (a b : String) → splice_index_of a (a ∷ b ∷ []) ≡ b ∷ []
unfolding splice_index_of includes remove_first
first_spliced a b = ground (arith, ==_refl a)

-- After the first of two lost workers was handled, the loop is past the second.
one_round :
    (a b : String) (now : ℕ) (s : Master) (r : Ran)
    → (a == b) ≡ false
    → s.lost_worker_ids ≡ a ∷ b ∷ []
    → Forgot a s r
    → let t = state (r >>= for_each_lost 1 1 now) in
      (t.lost_worker_ids ≡ b ∷ []) × (get b t.worker_lost_handling ≡ get b s.worker_lost_handling)
unfolding for_each_lost visit element_at
one_round a b now s (thrown f t) n l p = elim p [ ]
one_round a b now s (ended t) n l p =
    rw none_left (left, ap (get b) p.2 ∙ get-delete_other a b s.worker_lost_handling n)
  where
    left : t.lost_worker_ids ≡ b ∷ []
    left = p.1 ∙ ap (splice_index_of a) l ∙ first_spliced a b

    none_left : element_at 1 t.lost_worker_ids ≡ none
    none_left = ap (element_at 1) left

two_rounds :
    (a b : String) (now : ℕ) (r : Remaining) (s : Master)
    → IsSound s
    → none_available s ≡ false
    → (a == b) ≡ false
    → s.lost_worker_ids ≡ a ∷ b ∷ []
    → get a s.worker_lost_handling ≡ some r
    → let t = state (for_each_lost 2 0 now s) in
      (t.lost_worker_ids ≡ b ∷ []) × (get b t.worker_lost_handling ≡ get b s.worker_lost_handling)
unfolding for_each_lost visit element_at
two_rounds a b now r s h v d l g = rw (first_is l) (
    one_round a b now s (handle_lost_worker_remaining_tasks a now s) d l
      (handle_lost-Forgot a now r s h v g))
  where
    first_is : s.lost_worker_ids ≡ a ∷ b ∷ [] → element_at 0 s.lost_worker_ids ≡ some a
    first_is l = ap (element_at 0) l

-- If the books are right and two workers, lost earlier, wait for a worker that takes over their
-- tasks, then after the first to connect has subscribed, the second of them still waits, and its tasks
-- are where they were: the loop over the lost workers takes each out of the array that it runs over,
-- and so skips the next.
pub second_lost_is_skipped :
    (id a b : String) (now : ℕ) (r : Remaining) (s : Master)
    → IsSound s
    → find_worker id s.worker_list ≡ none
    → (a == b) ≡ false
    → s.lost_worker_ids ≡ a ∷ b ∷ []
    → get a s.worker_lost_handling ≡ some r
    → ((state (subscribe id now s)).lost_worker_ids ≡ b ∷ [])
      × (get b (state (subscribe id now s)).worker_lost_handling ≡ get b s.worker_lost_handling)
unfolding subscribe add_worker
second_lost_is_skipped id a b now r s h n d l g =
    rw (n, ap length l)
      (two_rounds a b now r (add_worker id s) (add_worker-IsSound id s h n)
        (new_is_available id s h) d l g)

struck_off :
    (c b : String) (s : Master) (r : Ran)
    → includes c s.lost_worker_ids ≡ false
    → (c == b) ≡ false
    → Forgot c (drop_connection c s) r
    → ((state r).lost_worker_ids ≡ drop_last s.lost_worker_ids)
      × (get b (state r).worker_lost_handling ≡ get b s.worker_lost_handling)
unfolding drop_connection splice_index_of
struck_off c b s (thrown f t) i d p = elim p [ ]
struck_off c b s (ended t) i d p =
    (rw i at p.1, ap (get b) p.2 ∙ get-delete_other c b s.worker_lost_handling d)

-- If a worker that left its tasks is lost while another is available, and others that were lost
-- earlier still wait, then the last of those is struck off the list of lost workers, while the tasks
-- of all workers but the one lost now stay where they were, given to no one.
pub last_lost_is_forgotten :
    (c b : String) (now : ℕ) (r : Remaining) (s : Master)
    → IsSound s
    → none_available (drop_connection c s) ≡ false
    → get c s.worker_lost_handling ≡ some r
    → includes c s.lost_worker_ids ≡ false
    → (c == b) ≡ false
    → ((state (cancelled c now s)).lost_worker_ids ≡ drop_last s.lost_worker_ids)
      × (get b (state (cancelled c now s)).worker_lost_handling ≡ get b s.worker_lost_handling)
unfolding cancelled handle_worker_lost drop_connection
last_lost_is_forgotten c b now r s h a g i d =
    rw (g, a)
      (struck_off c b s (handle_lost_worker_remaining_tasks c now (drop_connection c s)) i d
        (handle_lost-Forgot c now r (drop_connection c s) (drop_connection-IsSound c s h) a g))
