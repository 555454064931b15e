-- ===== src/Messages/Inbound/Duplicates.antt =====
-- That a message is processed once within the timeout, in main-server/src/mq/index.js.
use ndidplatform_api.Base.{
  Absent, Distinct, Distinct-put, Distinct-delete, ℕ, ◌+◌, ◌≤◌, String, ◌≡◌, refl, subst, inl, inr,
  Bool, true, false, Option, none, some, List, [], ◌∷◌, if_both, ◌==◌, ==_iff, nat_eq, string_eq,
  Bool-cases, get, All, is_some, times, arith,
}
use package.ndidplatform_api.Messages.Inbound.{
  Inbound, remember, save_and_acknowledge, on_new_message, on_message, run_off,
  retry_process_messages, load_and_process_backlog_messages, finish, Event, receives, timer_fires,
  is_ready, finishes, restarts, loads_backlog, workers_change, step, run,
}
use package.ndidplatform_api.Messages.Inbound.Saved.{
  process_each-SameRows, process_or_keep-SameRows, run_off-SameRows,
}
use package.ndidplatform_api.Messages.Inbound.Remembered.{
  IsWithin, run_off-IsRemembered, step-IsRemembered,
}
use package.ndidplatform_api.Messages.Inbound.Bounded.{
  taken, process_each-taken, retry-taken, finish-taken, run_off-taken, on_message-IsBounded,
  falls-IsBounded, IsBounded,
}

weaken-IsBounded :
    (start : ℕ) (h : String) (n k : ℕ) (s : Inbound)
    → n ≤ k
    → IsBounded start h n s
    → IsBounded start h k s
weaken-IsBounded start h n k s l (inl b) = inl (omega arith)
weaken-IsBounded start h n k s l (inr b) = let c = b.0 in inr (omega arith, b.1)

-- Whether an event loads the backlog, and how many do.
abbrev pub load : Event → ℕ
load (receives now id m saved ready) = 0
load (timer_fires now id) = 0
load (is_ready ready) = 0
load (finishes id) = 0
load (restarts now) = 0
load loads_backlog = 1
load (workers_change b) = 0

abbrev pub loads : List Event → ℕ
loads [] = 0
loads (e ∷ es) = load e + loads es

times-Absent : (h : String) (m : List (String × String)) → Absent h m → times h m ≡ 0
times-Absent h [] a = refl
times-Absent h ((j, x) ∷ m) a = let r = times-Absent h m a.1 in rw a.0 (omega arith)

times-Distinct : (h : String) (m : List (String × String)) → Distinct m → times h m ≤ 1
times-Distinct h [] d = omega arith
times-Distinct h ((j, x) ∷ m) d = elim (Bool-cases (j == h)) [
  | inl e ↦
      let a = subst (λ i. Absent i m) ((==_iff j h).0 e) d.0 in
      let r = times-Absent h m a in rw e (omega arith)
  | inr f ↦ let r = times-Distinct h m d.1 in rw f (omega arith)
]

quiet-IsBounded :
    (start : ℕ) (h : String) (n : ℕ) (e : Event) (s : Inbound)
    → IsWithin start e
    → load e ≡ 0
    → IsBounded start h n s
    → IsBounded start h n (step e s)
unfolding step taken
quiet-IsBounded start h n (receives now id m saved ready) s w z b =
    on_message-IsBounded start now h id m saved ready n s w.0 b
quiet-IsBounded start h n (timer_fires now id) s w z b =
    falls-IsBounded start h n s (run_off now id (get id s.timer) s)
      (run_off-taken h now id (get id s.timer) s)
      (run_off-IsRemembered start now h id (get id s.timer) s w.1 refl) b
quiet-IsBounded start h n (is_ready ready) s w z b =
    falls-IsBounded start h n s (retry_process_messages ready s) (retry-taken h ready s)
      (step-IsRemembered start h (is_ready ready) s w) b
quiet-IsBounded start h n (finishes id) s w z b =
    falls-IsBounded start h n s (finish id (get id s.in_progress) s)
      (finish-taken h id (get id s.in_progress) s) (step-IsRemembered start h (finishes id) s w) b
quiet-IsBounded start h n (restarts now) s w z b = absurd (cc)
quiet-IsBounded start h n loads_backlog s w z b = absurd (omega arith)
quiet-IsBounded start h n (workers_change a) s w z b = b

step-IsBounded :
    (start : ℕ) (h : String) (n : ℕ) (e : Event) (s : Inbound)
    → IsWithin start e
    → IsBounded start h n s
    → Distinct s.raw_messages
    → IsBounded start h (load e + n) (step e s)
unfolding step load_and_process_backlog_messages
step-IsBounded start h n (receives now id m saved ready) s w b d =
    weaken-IsBounded start h n (0 + n) _ (omega arith)
      (quiet-IsBounded start h n (receives now id m saved ready) s w refl b)
step-IsBounded start h n (timer_fires now id) s w b d =
    weaken-IsBounded start h n (0 + n) _ (omega arith)
      (quiet-IsBounded start h n (timer_fires now id) s w refl b)
step-IsBounded start h n (is_ready ready) s w b d =
    weaken-IsBounded start h n (0 + n) _ (omega arith)
      (quiet-IsBounded start h n (is_ready ready) s w refl b)
step-IsBounded start h n (finishes id) s w b d =
    weaken-IsBounded start h n (0 + n) _ (omega arith)
      (quiet-IsBounded start h n (finishes id) s w refl b)
step-IsBounded start h n (restarts now) s w b d =
    weaken-IsBounded start h n (0 + n) _ (omega arith)
      (quiet-IsBounded start h n (restarts now) s w refl b)
step-IsBounded start h n loads_backlog s w b d =
    let r = process_each-taken h s.raw_messages s in
    let t = times-Distinct h s.raw_messages d in
    elim b [
      | inl c ↦ inl (omega arith)
      | inr c ↦ inr (omega arith, step-IsRemembered start h loads_backlog s w c.1)
    ]
step-IsBounded start h n (workers_change a) s w b d =
    weaken-IsBounded start h n (0 + n) _ (omega arith)
      (quiet-IsBounded start h n (workers_change a) s w refl b)

-- Each message keeps one row.
on_new_message-Distinct :
    (now : ℕ) (id m : String) (saved ready : Bool) (s : Inbound)
    → Distinct s.raw_messages
    → Distinct (on_new_message now id m saved ready s).raw_messages
unfolding on_new_message save_and_acknowledge remember
on_new_message-Distinct now id m false ready s d = d
on_new_message-Distinct now id m true ready s d =
    rw (process_or_keep-SameRows id m ready (save_and_acknowledge id m (remember now id s))).1
      (Distinct-put id m s.raw_messages d)

finish-Distinct :
    (id : String) (o : Option String) (s : Inbound)
    → Distinct s.raw_messages
    → Distinct (finish id o s).raw_messages
unfolding finish
finish-Distinct id none s d = d
finish-Distinct id (some m) s d = Distinct-delete id s.raw_messages d

step-Distinct :
    (start : ℕ) (e : Event) (s : Inbound)
    → IsWithin start e
    → Distinct s.raw_messages
    → Distinct (step e s).raw_messages
unfolding step retry_process_messages load_and_process_backlog_messages on_message
step-Distinct start (receives now id m saved ready) s w d =
    if_both (λ (t : Inbound). Distinct t.raw_messages) (is_some (get id s.timer)) s _ d
      (on_new_message-Distinct now id m saved ready s d)
step-Distinct start (timer_fires now id) s w d = rw (run_off-SameRows now id (get id s.timer) s).1 d
step-Distinct start (is_ready true) s w d =
    rw (process_each-SameRows s.raw_messages_to_retry (record s { raw_messages_to_retry = [] })).1 d
step-Distinct start (is_ready false) s w d = d
step-Distinct start (finishes id) s w d = finish-Distinct id (get id s.in_progress) s d
step-Distinct start (restarts now) s w d = absurd (cc)
step-Distinct start loads_backlog s w d = rw (process_each-SameRows s.raw_messages s).1 d
step-Distinct start (workers_change b) s w d = d

run-IsBounded :
    (start : ℕ) (h : String) (n : ℕ) (es : List Event) (s : Inbound)
    → All (IsWithin start) es
    → IsBounded start h n s
    → Distinct s.raw_messages
    → IsBounded start h (loads es + n) (run es s)
unfolding run
run-IsBounded start h n [] s w b d = weaken-IsBounded start h n (0 + n) s (omega arith) b
run-IsBounded start h n (e ∷ es) s w b d =
    weaken-IsBounded start h (loads es + (load e + n)) ((load e + loads es) + n) _ (omega arith) (
      run-IsBounded start h (load e + n) es (step e s) w.1 (step-IsBounded start h n e s w.0 b d)
        (step-Distinct start e s w.0 d))

-- Within the timeout from any time on, without a restart, and however often a message comes, its
-- timers run off and processing is tried again: if each message has one row, messages with its id are
-- given to processing at most once, and once more for each load of the backlog, beside those that were
-- or waited to be before.
pub processed_once :
    (start : ℕ) (h : String) (es : List Event) (s : Inbound)
    → All (IsWithin start) es
    → Distinct s.raw_messages
    → times h (run es s).processed
      ≤ 1 + (loads es + (times h s.processed + times h s.raw_messages_to_retry))
unfolding taken
processed_once start h es s w d =
    elim (run-IsBounded start h (taken h s) es s w (inl (omega arith)) d) [
      | inl b ↦ omega arith
      | inr b ↦ let c = b.0 in omega arith
    ]
