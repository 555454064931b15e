-- ===== src/Tasks/Queue/Stale.antt =====
-- A `setImmediate` call can outlive the queue that it was made for.
use ndidplatform_api.Base.{
  String, ◌≡◌, refl, ◌∙◌, Bool, true, Option, none, some, List, [], ◌∷◌, ◌++◌, string_eq, get,
  is_some, get-put_self, get-delete_self, put_new, ap,
}
use ndidplatform_api.Tasks.Queue.{
  can_start, Task, Manager, Effect, queue_missing, execute_task, clean_up_queue, take_first,
  run_immediate, tick, finish_found, finish, after_finished,
}
use ndidplatform_api.Tasks.Queue.Invariant.{finished_lem, take_first-started, returned}
use ndidplatform_api.Tasks.Queue.Steps.{ticks, returns, step, run}

-- What one request and the `setImmediate` calls look like.
pub record Seen (r : String) (q : Option (List Task)) (f : Option Task) (due : List String)
    (s : Manager) : Type 0 where
  pub main : can_start s.mode s.has_worker ≡ true
  pub queue : get r s.request_queue ≡ q
  pub flying : get r s.in_flight ≡ f
  pub running : is_some (get r s.request_queue_running) ≡ is_some f
  pub immediates : s.immediates ≡ due

step_returns : (r : String) (s : Manager) → step (returns r) s ≡ (finish r s).state
unfolding step
step_returns r s = refl

step_ticks : (s : Manager) → step ticks s ≡ (tick s).state
unfolding step
step_ticks s = refl

finish_lem :
    (r : String) (t : Task) (s : Manager)
    → get r s.in_flight ≡ some t
    → (locks : List (String × Bool)) × (es : List Effect) × (finish r s
        ≡ after_finished (get r s.request_queue) r es (returned r locks s))
unfolding finish finish_found
finish_lem r t s e =
    let (locks, es, p) = finished_lem r t.on_callback_finished s in
    (locks, es, ap (λ o. finish_found o r s) e ∙ p)

returns_more :
    (r : String) (x : Task) (xs : List Task) (t : Task) (due : List String) (s : Manager)
    → Seen r (some (x ∷ xs)) (some t) due s
    → Seen r (some (x ∷ xs)) none (due ++ r ∷ []) (step (returns r) s)
unfolding step
returns_more r x xs t due s h =
    let (locks, es, p) = finish_lem r t s h.flying in
    rw (step_returns r s, p, h.queue)
      (unfold after_finished in
        record {
          main = h.main;
          queue = h.queue;
          flying = get-delete_self r s.in_flight;
          running = ap is_some (get-delete_self r s.request_queue_running);
          immediates = ap (λ d. d ++ r ∷ []) h.immediates;
        })

returns_last :
    (r : String) (t : Task) (due : List String) (s : Manager)
    → Seen r (some []) (some t) due s
    → Seen r none none due (step (returns r) s)
unfolding step
returns_last r t due s h =
    let (locks, es, p) = finish_lem r t s h.flying in
    rw (step_returns r s, p, h.queue)
      (unfold after_finished clean_up_queue in
        record {
          main = h.main;
          queue = get-delete_self r s.request_queue;
          flying = get-delete_self r s.in_flight;
          running = ap is_some (get-delete_self r s.request_queue_running);
          immediates = h.immediates;
        })

tick_lem :
    (r : String) (q : Option (List Task)) (due : List String) (s : Manager)
    → Seen r q none (r ∷ due) s
    → tick s ≡ take_first q r (record s { immediates = due })
unfolding tick run_immediate execute_task
tick_lem r q due s h =
    ap (λ d. run_immediate d s) h.immediates
    ∙ rw h.running (ap (λ o. take_first o r (record s { immediates = due })) h.queue)

ticks_start :
    (r : String) (x : Task) (xs : List Task) (due : List String) (s : Manager)
    → Seen r (some (x ∷ xs)) none (r ∷ due) s
    → Seen r (some xs) (some x) due (step ticks s)
unfolding step
ticks_start r x xs due s h =
    rw
      (
        step_ticks s,
        tick_lem r (some (x ∷ xs)) due s h,
        take_first-started r x xs (record s { immediates = due }) h.main,
      )
      (record {
        main = h.main;
        queue = get-put_self r xs s.request_queue;
        flying = rw (← put_new r x s.in_flight h.flying) (get-put_self r x s.in_flight);
        running = ap is_some (get-put_self r true s.request_queue_running);
        immediates = refl;
      })

-- In a standalone process, or in a master process with a worker available: a task of `r` is at work, a second one waits, and the `setImmediate` call that its arrival made
-- is still due. If the first task returns, the call starts the second one, and that returns before
-- the call that the first return made, then that last call finds no queue: it throws on `undefined`.
pub stale_call_throws :
    (r : String) (t x : Task) (s : Manager)
    → Seen r (some (x ∷ [])) (some t) (r ∷ []) s
    → (tick (run (returns r ∷ ticks ∷ returns r ∷ []) s)).fault ≡ some queue_missing
unfolding run take_first
stale_call_throws r t x s h =
    let back = returns_more r x [] t (r ∷ []) s h in
    let again = ticks_start r x [] (r ∷ []) _ back in
    let gone = returns_last r x (r ∷ []) _ again in ap (λ o. o.fault) (tick_lem r none [] _ gone)
