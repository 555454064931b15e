-- ===== src/Tasks/Queue/Order.antt =====
-- The tasks of one request are started in the order in which they arrived, each once.
use mathlib.Core.List.{append_assoc, append-nil}
use ndidplatform_api.Base.{
  String, ◌≡◌, refl, sym, ◌∙◌, Bool, true, false, Option, none, some, List, [], ◌∷◌, ◌++◌, inl, inr,
  string_eq, get, put, delete, is_some, get-put, get-delete, get-put_self, put_new, ◌==◌, ==_iff,
  if◌then◌else◌, Bool-cases, ap, subst,
}
use ndidplatform_api.Tasks.Queue.{
  Mode, can_start, Task, Manager, Effect, new, add_task, enqueue, execute_task, clean_up_queue,
  take_first, run_immediate, tick, finish_found, finish, stop, after_finished, tasks_of,
}
use ndidplatform_api.Tasks.Queue.Invariant.{
  Inv, new-Inv, not_some, finished_lem, take_first-started, started, returned,
}
use ndidplatform_api.Tasks.Queue.Steps.{
  Op, arrives, ticks, returns, stops, workers_change, step, run, step-Inv, CanStart, AllCanStart,
}

abbrev pub queue_of : String → Manager → List Task
queue_of r s = tasks_of (get r s.request_queue)

abbrev option_list : Option Task → List Task
option_list none = []
option_list (some t) = t ∷ []

-- The task of `r` that is at work after a step and was not before.
abbrev pub begun : String → Manager → Manager → List Task
begun r s s' = if is_some (get r s.in_flight) then [] else option_list (get r s'.in_flight)

-- The task of `r` that a step brings in.
abbrev pub accepted : String → Op → Manager → List Task
accepted r (arrives j t) s = if s.stopping then [] else (if j == r then t ∷ [] else [])
accepted r _ s = []

abbrev pub all_begun : String → List Op → Manager → List Task
all_begun r [] s = []
all_begun r (o ∷ os) s = begun r s (step o s) ++ all_begun r os (step o s)

abbrev pub all_accepted : String → List Op → Manager → List Task
all_accepted r [] s = []
all_accepted r (o ∷ os) s = accepted r o s ++ all_accepted r os (step o s)

-- A step from `s` to `s'` that brings in `ts` moves the tasks of `r` along, in order.
abbrev Moves : String → Manager → List Task → Manager → Type 0
Moves r s ts s' = queue_of r s ++ ts ≡ begun r s s' ++ queue_of r s'

Moves-same :
    (r : String) (s s' : Manager)
    → queue_of r s' ≡ queue_of r s
    → begun r s s' ≡ []
    → Moves r s [] s'
Moves-same r s s' q b = append-nil (queue_of r s) ∙ sym q ∙ ap (λ x. x ++ queue_of r s') (sym b)

none_begun : (o : Option Task) → (if is_some o then [] else option_list o) ≡ []
none_begun none = refl
none_begun (some t) = refl

enqueue-Moves :
    (r j : String) (t : Task) (s : Manager)
    → Moves r s (if j == r then t ∷ [] else []) (enqueue j t s)
unfolding enqueue
enqueue-Moves r j t s = rw (none_begun (get r s.in_flight)) (elim (Bool-cases (j == r)) [
  | inl e ↦
      rw (get-put, e)
        (ap (λ k. tasks_of (get k s.request_queue) ++ t ∷ []) (sym ((==_iff j r).0 e)))
  | inr e ↦ rw (get-put, e) (append-nil (queue_of r s))
])

add_task-Moves :
    (r j : String) (t : Task) (s : Manager) (b : Bool)
    → Moves r s (if b then [] else (if j == r then t ∷ [] else [])) (if b then s else enqueue j t s)
add_task-Moves r j t s true = Moves-same r s s refl (none_begun (get r s.in_flight))
add_task-Moves r j t s false = enqueue-Moves r j t s

-- Taking an empty queue away is not seen.
queue_of-delete :
    (r h : String) (s : Manager)
    → get h s.request_queue ≡ some []
    → tasks_of (get r (delete h s.request_queue)) ≡ queue_of r s
queue_of-delete r h s e = rw get-delete (elim (Bool-cases (h == r)) [
  | inl q ↦ rw q (sym (ap tasks_of (ap (λ k. get k s.request_queue) (sym ((==_iff h r).0 q)) ∙ e)))
  | inr q ↦ rw q
])

-- `started`, with the new task at work looked up by its key.
abbrev taken : String → Task → List Task → Manager → Manager
taken h t ts s = record (started h t ts s) { in_flight = put h t s.in_flight }

taken-Moves :
    (h : String) (t : Task) (ts : List Task) (s : Manager)
    → get h s.in_flight ≡ none
    → get h s.request_queue ≡ some (t ∷ ts)
    → Moves h s [] (taken h t ts s)
taken-Moves h t ts s free e = simp (free, e, get-put_self, append-nil)

started-Moves :
    (r h : String) (t : Task) (ts : List Task) (s : Manager)
    → get h s.in_flight ≡ none
    → get h s.request_queue ≡ some (t ∷ ts)
    → Moves r s [] (started h t ts s)
started-Moves r h t ts s free e = rw (← put_new h t s.in_flight free) (elim (Bool-cases (h == r)) [
  | inl q ↦
      subst (λ k. Moves k s [] (taken h t ts s)) ((==_iff h r).0 q) (taken-Moves h t ts s free e)
  | inr q ↦
      rw (get-put, q)
        (rw (get-put, q) (rw (none_begun (get r s.in_flight)) (append-nil (queue_of r s))))
])

take_first-Moves :
    (r h : String) (o : Option (List Task)) (s : Manager)
    → can_start s.mode s.has_worker ≡ true
    → get h s.in_flight ≡ none
    → get h s.request_queue ≡ o
    → Moves r s [] (take_first o h s).state
unfolding take_first clean_up_queue
take_first-Moves r h none s n free e = Moves-same r s s refl (none_begun (get r s.in_flight))
take_first-Moves r h (some []) s n free e =
    Moves-same r s (clean_up_queue h s).state (queue_of-delete r h s e)
      (none_begun (get r s.in_flight))
take_first-Moves r h (some (t ∷ ts)) s n free e =
    rw (take_first-started h t ts s n) (started-Moves r h t ts s free e)

run_immediate-Moves :
    (r : String) (rs : List String) (s : Manager)
    → can_start s.mode s.has_worker ≡ true
    → Inv s
    → Moves r s [] (run_immediate rs s).state
unfolding run_immediate execute_task
run_immediate-Moves r [] s n v = Moves-same r s s refl (none_begun (get r s.in_flight))
run_immediate-Moves r (h ∷ rs) s n v = elim (Bool-cases (is_some (get h s.request_queue_running))) [
  | inl e ↦ rw e (Moves-same r s s refl (none_begun (get r s.in_flight)))
  | inr e ↦ rw e (
      take_first-Moves r h (get h s.request_queue) (record s { immediates = rs }) n
        (not_some _ (sym (v.running h) ∙ e)) refl)
]

-- A request that comes back is at work no more.
begun-delete :
    (r h : String) (m : List (String × Task))
    → (if is_some (get r m) then [] else option_list (get r (delete h m))) ≡ []
begun-delete r h m = rw get-delete (elim (Bool-cases (h == r)) [
  | inl e ↦ rw e (both (is_some (get r m)))
  | inr e ↦ rw e (none_begun (get r m))
])
  where
    both : (b : Bool) → Path (List Task) (if b then [] else []) []
    both true = refl
    both false = refl

after_finished-Moves :
    (r h : String) (o : Option (List Task)) (es : List Effect) (locks : List (String × Bool))
    (s : Manager)
    → get h s.request_queue ≡ o
    → Moves r s [] (after_finished o h es (returned h locks s)).state
unfolding after_finished clean_up_queue
after_finished-Moves r h none es locks s e =
    Moves-same r s (returned h locks s) refl (begun-delete r h s.in_flight)
after_finished-Moves r h (some []) es locks s e =
    Moves-same r s (clean_up_queue h (returned h locks s)).state (queue_of-delete r h s e)
      (begun-delete r h s.in_flight)
after_finished-Moves r h (some (x ∷ xs)) es locks s e =
    Moves-same r s (returned h locks s) refl (begun-delete r h s.in_flight)

finish_found-Moves :
    (r h : String) (o : Option Task) (s : Manager) → Moves r s [] (finish_found o h s).state
unfolding finish_found
finish_found-Moves r h none s = Moves-same r s s refl (none_begun (get r s.in_flight))
finish_found-Moves r h (some t) s =
    let (locks, es, p) = finished_lem h t.on_callback_finished s in
    rw p (after_finished-Moves r h (get h s.request_queue) es locks s refl)

step-Moves :
    (r : String) (o : Op) (s : Manager)
    → CanStart o s
    → Inv s
    → Moves r s (accepted r o s) (step o s)
unfolding step add_task tick finish stop
step-Moves r (arrives j t) s n v = add_task-Moves r j t s s.stopping
step-Moves r ticks s n v = run_immediate-Moves r s.immediates s n v
step-Moves r (returns h) s n v = finish_found-Moves r h (get h s.in_flight) s
step-Moves r stops s n v = Moves-same r s s refl (none_begun (get r s.in_flight))
step-Moves r (workers_change b) s n v =
    Moves-same r s (record s { has_worker = b }) refl (none_begun (get r s.in_flight))

chain :
    (q a more b q' bs q'' : List Task)
    → q ++ a ≡ b ++ q'
    → q' ++ more ≡ bs ++ q''
    → q ++ (a ++ more) ≡ (b ++ bs) ++ q''
chain q a more b q' bs q'' h k =
    sym (append_assoc q a more)
    ∙ ap (λ x. x ++ more) h
    ∙ append_assoc b q' more
    ∙ ap (λ x. b ++ x) k
    ∙ sym (append_assoc b bs q'')

run-Moves :
    (r : String) (os : List Op) (s : Manager)
    → AllCanStart os s
    → Inv s
    → queue_of r s ++ all_accepted r os s ≡ all_begun r os s ++ queue_of r (run os s)
unfolding run
run-Moves r [] s n v = append-nil (queue_of r s)
run-Moves r (o ∷ os) s n v =
    chain (queue_of r s) (accepted r o s) (all_accepted r os (step o s)) (begun r s (step o s))
      (queue_of r (step o s)) (all_begun r os (step o s)) (queue_of r (run os (step o s)))
      (step-Moves r o s n.0 v) (run-Moves r os (step o s) n.1 (step-Inv o s n.0 v))

-- In a standalone process, or in a master process that has a worker whenever a `setImmediate` call
-- comes, for every request: the tasks taken in are, in the order in which they arrived, those that were
-- started and then those that still wait. So none is lost, none is started twice, and none overtakes
-- another.
pub run-fifo :
    (mode : Mode) (r : String) (os : List Op)
    → AllCanStart os (new mode)
    → all_accepted r os (new mode) ≡ all_begun r os (new mode) ++ queue_of r (run os (new mode))
unfolding new get
run-fifo mode r os n = run-Moves r os (new mode) n (new-Inv mode)
