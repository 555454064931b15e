-- ===== src/Messages/Inbound/Remembered.antt =====
-- How long an id is remembered, in main-server/src/mq/index.js.
use ndidplatform_api.Base.{
  ℕ, ◌+◌, ◌≤◌, ◌<◌, String, ◌≡◌, refl, subst, inl, inr, Bool, true, false, Option, none, some, List,
  [], ◌∷◌, if_both, ◌==◌, ==_iff, nat_eq, string_eq, Bool-cases, get, get-put, get-put_self,
  get-delete, All, is_some, leb, arith,
}
use package.ndidplatform_api.Messages.Inbound.{
  mq_send_total_timeout, Inbound, process_raw_message_switch, remember, save_and_acknowledge,
  process_or_keep, on_new_message, on_message, forget, run_off, process_each,
  retry_process_messages, load_and_process_backlog_messages, finish, Event, receives, timer_fires,
  is_ready, finishes, restarts, loads_backlog, workers_change, step, run,
}

-- An event within the timeout that begins at a time, and no restart.
abbrev pub IsWithin : ℕ → Event → Type 0
IsWithin start (receives now id m saved ready) =
    (start ≤ now) × (now < start + mq_send_total_timeout)
IsWithin start (timer_fires now id) = (start ≤ now) × (now < start + mq_send_total_timeout)
IsWithin start (is_ready ready) = Unit
IsWithin start (finishes id) = Unit
IsWithin start (restarts now) = true ≡ false
IsWithin start loads_backlog = Unit
IsWithin start (workers_change b) = Unit

abbrev runs_until : Option ℕ → ℕ
runs_until none = 0
runs_until (some t) = t

-- The timer of an id runs to the end of the timeout.
abbrev pub IsRemembered : ℕ → String → Inbound → Type 0
IsRemembered start h s = start + mq_send_total_timeout ≤ runs_until (get h s.timer)

process_each-same_timers :
    (l : List (String × String)) (s : Inbound) → (process_each l s).timer ≡ s.timer
unfolding process_each process_raw_message_switch
process_each-same_timers [] s = refl
process_each-same_timers ((id, m) ∷ l) s =
    process_each-same_timers l (process_raw_message_switch id m s)

pub process_or_keep-same_timers :
    (id m : String) (ready : Bool) (s : Inbound) → (process_or_keep id m ready s).timer ≡ s.timer
unfolding process_or_keep process_raw_message_switch
process_or_keep-same_timers id m true s = refl
process_or_keep-same_timers id m false s = refl

remember-IsRemembered :
    (start now : ℕ) (h id : String) (s : Inbound)
    → start ≤ now
    → IsRemembered start h s
    → IsRemembered start h (remember now id s)
unfolding remember
remember-IsRemembered start now h id s w r =
    rw (get-put id h (now + mq_send_total_timeout) s.timer) (ground arith)

pub remembers_itself :
    (start now : ℕ) (h : String) (s : Inbound)
    → start ≤ now
    → IsRemembered start h (remember now h s)
unfolding remember
remembers_itself start now h s w =
    rw (get-put_self h (now + mq_send_total_timeout) s.timer) (omega arith)

pub on_message-IsRemembered :
    (start now : ℕ) (h id m : String) (saved ready : Bool) (s : Inbound)
    → start ≤ now
    → IsRemembered start h s
    → IsRemembered start h (on_message now id m saved ready s)
unfolding on_message on_new_message save_and_acknowledge
on_message-IsRemembered start now h id m saved ready s w r =
    let q = remember-IsRemembered start now h id s w r in
    if_both (IsRemembered start h) (is_some (get id s.timer)) s _ r (
      if_both (IsRemembered start h) saved _ _
        (rw (process_or_keep-same_timers id m ready (save_and_acknowledge id m (remember now id s)))
          q)
        q)

due_too_early :
    (start now t : ℕ)
    → leb t now ≡ true
    → start + mq_send_total_timeout ≤ t
    → now < start + mq_send_total_timeout
    → true ≡ false
due_too_early start now t l q w = ground arith

pub run_off-IsRemembered :
    (start now : ℕ) (h id : String) (o : Option ℕ) (s : Inbound)
    → now < start + mq_send_total_timeout
    → get id s.timer ≡ o
    → IsRemembered start h s
    → IsRemembered start h (run_off now id o s)
unfolding run_off forget
run_off-IsRemembered start now h id none s w g r = r
run_off-IsRemembered start now h id (some t) s w g r = elim (Bool-cases (leb t now)) [
  | inl l ↦ elim (Bool-cases (id == h)) [
    | inl e ↦
        let x = subst (λ i. get i s.timer ≡ some t) ((==_iff id h).0 e) g in
        let q : start + mq_send_total_timeout ≤ t = rw x at r in
        let z = due_too_early start now t l q w in absurd (cc)
    | inr n ↦ rw (l, get-delete id h s.timer, n) r
  ]
  | inr l ↦ rw l r
]

pub step-IsRemembered :
    (start : ℕ) (h : String) (e : Event) (s : Inbound)
    → IsWithin start e
    → IsRemembered start h s
    → IsRemembered start h (step e s)
unfolding step retry_process_messages load_and_process_backlog_messages finish
step-IsRemembered start h (receives now id m saved ready) s w r =
    on_message-IsRemembered start now h id m saved ready s w.0 r
step-IsRemembered start h (timer_fires now id) s w r =
    run_off-IsRemembered start now h id (get id s.timer) s w.1 refl r
step-IsRemembered start h (is_ready true) s w r =
    rw (process_each-same_timers s.raw_messages_to_retry (record s { raw_messages_to_retry = [] }))
      r
step-IsRemembered start h (is_ready false) s w r = r
step-IsRemembered start h (finishes id) s w r = finish_same (get id s.in_progress)
  where
    finish_same : (o : Option String) → IsRemembered start h (finish id o s)
    finish_same none = r
    finish_same (some m) = r
step-IsRemembered start h (restarts now) s w r = absurd (cc)
step-IsRemembered start h loads_backlog s w r = rw (process_each-same_timers s.raw_messages s) r
step-IsRemembered start h (workers_change b) s w r = r

pub run-IsRemembered :
    (start : ℕ) (h : String) (es : List Event) (s : Inbound)
    → All (IsWithin start) es
    → IsRemembered start h s
    → IsRemembered start h (run es s)
unfolding run
run-IsRemembered start h [] s w r = r
run-IsRemembered start h (e ∷ es) s w r =
    run-IsRemembered start h es (step e s) w.1 (step-IsRemembered start h e s w.0 r)
