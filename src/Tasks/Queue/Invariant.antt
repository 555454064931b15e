-- ===== src/Tasks/Queue/Invariant.antt =====
-- The bookkeeping of the request process manager: counters, and at most one task of a request at work.
use ndidplatform_api.Base.{
  ℕ, suc, ◌+◌, String, ◌≡◌, ◌≢◌, refl, sym, ap, ◌∙◌, Bool, true, false, Option, none, some, List,
  [], ◌∷◌, ◌++◌, arith, ◌==◌, ==_iff, nat_eq, string_eq, get, put, delete, is_some, length,
  length-append, inl, inr, get-put, get-delete, Distinct, Distinct-put, Distinct-delete, weigh,
  weigh-put, weigh-delete, weight_or_zero, one, put_new, Bool-cases, Option-cases, if_both,
}
use ndidplatform_api.Tasks.Count.{ℤ, pos, increment, decrement}
use ndidplatform_api.Tasks.Queue.{
  can_start, standalone, master, nothing, release_lock, release_lock_and_clean_up, Mode, worker,
  OnFinished, Task, Manager, Effect, done, tasks_of, new, enqueue, add_task, clean_up_queue, start,
  take_first, execute_task, after_finished, on_task_execution_finished,
}

abbrev pub waiting : List (String × List Task) → ℕ
waiting = weigh length

pub record Inv (s : Manager) : Type 0 where
  pub queues : Distinct s.request_queue
  pub requests : s.requests_count ≡ pos (weigh one s.request_queue)
  pub pending : s.pending_tasks_count ≡ pos (waiting s.request_queue)
  pub flying : Distinct s.in_flight
  pub processing : s.processing_tasks_count ≡ pos (weigh one s.in_flight)
  pub running : (r : String) → is_some (get r s.request_queue_running) ≡ is_some (get r s.in_flight)
  pub served :
      (r : String) → is_some (get r s.in_flight) ≡ true → is_some (get r s.request_queue) ≡ true
  pub busy : (r : String) → get r s.request_queue ≡ some [] → is_some (get r s.in_flight) ≡ true

pub new-Inv : (mode : Mode) → Inv (new mode)
unfolding new get
new-Inv mode = record {
  queues = tt;
  requests = refl;
  pending = refl;
  flying = tt;
  processing = refl;
  running = λ r. refl;
  served = λ r h. cc;
  busy = λ r h. cc;
}

pub increment_pos : (c : ℤ) (n m : ℕ) → c ≡ pos n → suc n ≡ m → increment c ≡ pos m
unfolding increment
increment_pos c n m e h = rw (e, h)

pub decrement_pos : (c : ℤ) (n m : ℕ) → c ≡ pos n → n ≡ suc m → decrement c ≡ pos m
unfolding decrement
decrement_pos c n m e h = rw (e, h)

length-append_one : (xs : List Task) (t : Task) → length (xs ++ t ∷ []) ≡ suc (length xs)
length-append_one xs t = omega (arith, length-append xs (t ∷ []))

append-ne-nil : (xs : List Task) (t : Task) → xs ++ t ∷ [] ≢ []
append-ne-nil [] t h = cc
append-ne-nil (x ∷ xs) t h = cc

enqueue-Inv : (r : String) (t : Task) (s : Manager) → Inv s → Inv (enqueue r t s)
unfolding enqueue
enqueue-Inv r t s v = record {
  queues = Distinct-put r _ s.request_queue v.queues;
  requests = elim (Option-cases (get r s.request_queue)) [
    | inl n ↦ simp n (increment_pos _ _ _ v.requests (ground (arith, n, count [])))
    | inr (q, n) ↦ simp n (v.requests ∙ ap pos (ground (arith, n, count q)))
  ];
  pending =
      increment_pos _ _ _ v.pending (
        ground
          (arith, weigh-put length r (old ++ t ∷ []) s.request_queue, length-append_one old t));
  flying = v.flying;
  processing = v.processing;
  running = v.running;
  served =
      λ j f. rw get-put (elim (Bool-cases (r == j)) [ inl e ↦ rw e | inr e ↦ rw e (v.served j f) ]);
  busy = λ j f. elim (Bool-cases (r == j)) [
    | inl e ↦ absurd (append-ne-nil old t (some_eq (rw (get-put, e) at f)))
    | inr e ↦ v.busy j (rw (get-put, e) at f)
  ];
}
  where
    old : List Task
    old = tasks_of (get r s.request_queue)

    count :
        (q : List Task)
        → weigh one (put r (q ++ t ∷ []) s.request_queue)
            + weight_or_zero one (get r s.request_queue)
          ≡ weigh one s.request_queue + 1
    count q = weigh-put one r (q ++ t ∷ []) s.request_queue

    some_eq : {a b : List Task} → Path (Option (List Task)) (some a) (some b) → a ≡ b
    some_eq p = cc

pub add_task-Inv : (r : String) (t : Task) (s : Manager) → Inv s → Inv (add_task r t s)
unfolding add_task
add_task-Inv r t s v = if_both Inv s.stopping s (enqueue r t s) v (enqueue-Inv r t s v)

pub not_some : {A : Type 0} (o : Option A) → is_some o ≡ false → o ≡ none
not_some none h = refl
not_some (some a) h = cc

-- The state once the first task of a queue is taken and started.
abbrev pub started : String → Task → List Task → Manager → Manager
started r t rest s = record s {
  request_queue = put r rest s.request_queue;
  request_queue_running = put r true s.request_queue_running;
  pending_tasks_count = decrement s.pending_tasks_count;
  processing_tasks_count = increment s.processing_tasks_count;
  in_flight = s.in_flight ++ (r, t) ∷ [];
}

pub take_first-started :
    (r : String) (t : Task) (rest : List Task) (s : Manager)
    → can_start s.mode s.has_worker ≡ true
    → take_first (some (t ∷ rest)) r s ≡ done (started r t rest s) []
unfolding take_first start
take_first-started r t rest s n = by_mode s.mode s.has_worker n
  where
    by_mode :
        (m : Mode) (b : Bool)
        → can_start m b ≡ true
        → start m b r t (record s {
          request_queue = put r rest s.request_queue;
          request_queue_running = put r true s.request_queue_running;
          pending_tasks_count = decrement s.pending_tasks_count;
          processing_tasks_count = increment s.processing_tasks_count;
        })
          ≡ done (started r t rest s) []
    by_mode standalone b n = refl
    by_mode master true n = refl
    by_mode master false n = absurd (cc)
    by_mode worker b n = absurd (cc)

started-Inv :
    (r : String) (t : Task) (rest : List Task) (s : Manager)
    → Inv s
    → get r s.in_flight ≡ none
    → get r s.request_queue ≡ some (t ∷ rest)
    → Inv (started r t rest s)
started-Inv r t rest s v free q = rw (← put_new r t s.in_flight free) (record {
  queues = Distinct-put r _ s.request_queue v.queues;
  requests = v.requests ∙ ap pos (ground (arith, q, weigh-put one r rest s.request_queue));
  pending =
      decrement_pos _ _ _ v.pending (ground (arith, q, weigh-put length r rest s.request_queue));
  flying = Distinct-put r t s.in_flight v.flying;
  processing =
      increment_pos _ _ _ v.processing (ground (arith, free, weigh-put one r t s.in_flight));
  running = λ j.
      rw (get-put, get-put)
        (elim (Bool-cases (r == j)) [ inl e ↦ rw e | inr e ↦ rw e (v.running j) ]);
  served = λ j f. rw get-put (elim (Bool-cases (r == j)) [
    | inl e ↦ rw e
    | inr e ↦ rw e (v.served j (rw (get-put, e) at f))
  ]);
  busy = λ j f. rw get-put (elim (Bool-cases (r == j)) [
    | inl e ↦ rw e
    | inr e ↦ rw e (v.busy j (rw (get-put, e) at f))
  ]);
})

take_first-Inv :
    (r : String) (o : Option (List Task)) (s : Manager)
    → get r s.request_queue ≡ o
    → get r s.in_flight ≡ none
    → can_start s.mode s.has_worker ≡ true
    → Inv s
    → Inv (take_first o r s).state
take_first-Inv r none s q free n v = unfold take_first in v
take_first-Inv r (some []) s q free n v =
    let b : is_some {A = Task} none ≡ true = rw free at (v.busy r q) in cc
take_first-Inv r (some (t ∷ rest)) s q free n v =
    rw (take_first-started r t rest s n) (started-Inv r t rest s v free q)

pub execute_task-Inv :
    (r : String) (s : Manager)
    → can_start s.mode s.has_worker ≡ true
    → Inv s
    → Inv (execute_task r s).state
unfolding execute_task
execute_task-Inv r s n v = elim (Bool-cases (is_some (get r s.request_queue_running))) [
  | inl e ↦ rw e v
  | inr e ↦ rw e (take_first-Inv r _ s refl (not_some _ (sym (v.running r) ∙ e)) n v)
]

-- The state once the task of `r` is back, before its queue is looked at.
abbrev pub returned : String → List (String × Bool) → Manager → Manager
returned r locks s = record s {
  message_process_lock = locks;
  request_queue_running = delete r s.request_queue_running;
  processing_tasks_count = decrement s.processing_tasks_count;
  in_flight = delete r s.in_flight;
}

pub finished_lem :
    (r : String) (f : OnFinished) (s : Manager)
    → (locks : List (String × Bool)) × (es : List Effect) × (on_task_execution_finished r f
          (record s { in_flight = delete r s.in_flight })
        ≡ after_finished (get r s.request_queue) r es (returned r locks s))
unfolding on_task_execution_finished
finished_lem r nothing s = (_, _, refl)
finished_lem r (release_lock m) s = (_, _, refl)
finished_lem r (release_lock_and_clean_up n m) s = (_, _, refl)

module _ (r : String) (t : Task) (locks : List (String × Bool)) (s : Manager) (v : Inv s)
    (there : get r s.in_flight ≡ some t) where
  left_flying : weigh one (delete r s.in_flight) + 1 ≡ weigh one s.in_flight
  left_flying = ground (arith, there, weigh-delete one r s.in_flight v.flying)

  processing_less : decrement s.processing_tasks_count ≡ pos (weigh one (delete r s.in_flight))
  processing_less = decrement_pos _ _ _ v.processing (omega (arith, left_flying))

  running_less :
      (j : String)
      → is_some (get j (delete r s.request_queue_running)) ≡ is_some (get j (delete r s.in_flight))
  running_less j =
      simp get-delete (elim (Bool-cases (r == j)) [ inl e ↦ rw e | inr e ↦ rw e (v.running j) ])

  returned_more-Inv :
      (x : Task) (xs : List Task)
      → get r s.request_queue ≡ some (x ∷ xs)
      → Inv (record (returned r locks s) { immediates = s.immediates ++ r ∷ [] })
  returned_more-Inv x xs q = record {
    queues = v.queues;
    requests = v.requests;
    pending = v.pending;
    flying = Distinct-delete r s.in_flight v.flying;
    processing = processing_less;
    running = running_less;
    served = λ j f. elim (Bool-cases (r == j)) [
      | inl e ↦ let b : false ≡ true = rw (get-delete, e) at f in cc
      | inr e ↦ v.served j (rw (get-delete, e) at f)
    ];
    busy = λ j f. rw get-delete (elim (Bool-cases (r == j)) [
      | inl e ↦ absurd (cons_queue j x xs f (rw (← (==_iff r j).0 e) q))
      | inr e ↦ rw e (v.busy j f)
    ]);
  }
    where
      cons_queue :
          (j : String) (x : Task) (xs : List Task)
          → get j s.request_queue ≡ some []
          → get j s.request_queue ≡ some (x ∷ xs)
          → ⊥
      cons_queue j x xs p q = cc

  returned_last-Inv :
      get r s.request_queue ≡ some [] → Inv (clean_up_queue r (returned r locks s)).state
  unfolding clean_up_queue
  returned_last-Inv q = record {
    queues = Distinct-delete r s.request_queue v.queues;
    requests =
        decrement_pos _ _ _ v.requests
          (ground (arith, q, weigh-delete one r s.request_queue v.queues));
    pending =
        v.pending ∙ ap pos (ground (arith, q, weigh-delete length r s.request_queue v.queues));
    flying = Distinct-delete r s.in_flight v.flying;
    processing = processing_less;
    running = running_less;
    served = λ j f. elim (Bool-cases (r == j)) [
      | inl e ↦ let b : false ≡ true = rw (get-delete, e) at f in cc
      | inr e ↦ rw (get-delete, e) (v.served j (rw (get-delete, e) at f))
    ];
    busy = λ j f. elim (Bool-cases (r == j)) [
      | inl e ↦ none_some (rw (get-delete, e) at f)
      | inr e ↦ rw (get-delete, e) (v.busy j (rw (get-delete, e) at f))
    ];
  }
    where
      none_some : {A : Type 0} → Path (Option (List Task)) none (some []) → A
      none_some p = absurd (cc)

  pub after_finished-Inv :
      (o : Option (List Task)) (es : List Effect)
      → get r s.request_queue ≡ o
      → Inv (after_finished o r es (returned r locks s)).state
        × ((after_finished o r es (returned r locks s)).fault ≡ none)
  unfolding after_finished
  after_finished-Inv none es q =
      let b : is_some {A = List Task} none ≡ true = rw q at (v.served r (rw there)) in absurd (cc)
  after_finished-Inv (some []) es q = (returned_last-Inv q, refl)
  after_finished-Inv (some (x ∷ xs)) es q = (returned_more-Inv x xs q, refl)
