-- ===== src/Messages/Inbound/Faults.antt =====
-- Where the code for received messages (main-server/src/mq/index.js) goes wrong.
use ndidplatform_api.Base.{
  ℕ, ◌+◌, ◌-◌, ◌≤◌, String, ◌≡◌, refl, ◌∙◌, ap, subst, inl, inr, Bool, true, false, Option, none,
  some, some_inj, List, [], ◌∷◌, if_both, ◌==◌, ==_iff, nat_eq, string_eq, Bool-cases, Option-cases,
  get, get-put_other, Distinct, Absent, All, is_some, times, leb, arith,
}
use package.ndidplatform_api.Messages.Inbound.{
  mq_send_total_timeout, Inbound, process_raw_message_switch, remember, save_and_acknowledge,
  process_or_keep, on_new_message, on_message, retry_process_messages,
  load_and_process_backlog_messages, finish, init_timeout, init_each,
  init_duplicate_inbound_message_timeout, restart, Event, receives, timer_fires, is_ready, finishes,
  restarts, loads_backlog, workers_change, step, run,
}
use package.ndidplatform_api.Messages.Inbound.Saved.{
  process_each-SameRows, process_or_keep-SameRows, run_off-SameRows,
}
use package.ndidplatform_api.Messages.Inbound.Remembered.{
  IsWithin, IsRemembered, remembers_itself, step-IsRemembered,
}
use package.ndidplatform_api.Messages.Inbound.Bounded.{never_over}

init_timeout_other :
    (now : ℕ) (h id : String) (t : ℕ) (s : Inbound)
    → (id == h) ≡ false
    → get h (init_timeout now id t s).timer ≡ get h s.timer
unfolding init_timeout
init_timeout_other now h id t s f =
    if_both (λ (u : Inbound). get h u.timer ≡ get h s.timer) (leb now t) _ _ refl
      (get-put_other id h (now + (now - t)) s.timer f)

init_timeout_ahead :
    (now : ℕ) (h id : String) (t : ℕ) (s : Inbound)
    → leb now t ≡ true
    → get h (init_timeout now id t s).timer ≡ get h s.timer
unfolding init_timeout
init_timeout_ahead now h id t s l = rw l refl

init_each-Absent :
    (now : ℕ) (h : String) (l : List (String × ℕ)) (s : Inbound)
    → Absent h l
    → get h (init_each now l s).timer ≡ get h s.timer
unfolding init_each
init_each-Absent now h [] s a = refl
init_each-Absent now h ((id, t) ∷ l) s a =
    init_each-Absent now h l (init_timeout now id t s) a.1 ∙ init_timeout_other now h id t s a.0

init_each_ahead :
    (now : ℕ) (h : String) (t : ℕ) (l : List (String × ℕ)) (s : Inbound)
    → Distinct l
    → get h l ≡ some t
    → now ≤ t
    → get h (init_each now l s).timer ≡ get h s.timer
unfolding init_each get
init_each_ahead now h t [] s d g w = refl
init_each_ahead now h t ((id, u) ∷ l) s d g w = elim (Bool-cases (id == h)) [
  | inl e ↦
      let v : u ≡ t = some_inj u t (rw e at g) in
      let q : leb now u ≡ true = ground arith in
      init_each-Absent now h l (init_timeout now id u s)
        (subst (λ i. Absent i l) ((==_iff id h).0 e) d.0)
      ∙ init_timeout_ahead now h id u s q
  | inr f ↦
      init_each_ahead now h t l (init_timeout now id u s) d.1 (rw f at g) w
      ∙ init_timeout_other now h id u s f
]

init_each-same_processed :
    (now : ℕ) (l : List (String × ℕ)) (s : Inbound) → (init_each now l s).processed ≡ s.processed
unfolding init_each init_timeout
init_each-same_processed now [] s = refl
init_each-same_processed now ((id, t) ∷ l) s =
    init_each-same_processed now l (init_timeout now id t s)
    ∙ if_both (λ (u : Inbound). u.processed ≡ s.processed) (leb now t) _ _ refl refl

-- A message whose id was saved with a timeout that is still ahead when the server restarts: the
-- restart forgets the id, and the same message, sent again at any time then, is processed again.
pub processed_again_after_restart :
    (now later t : ℕ) (h message : String) (s : Inbound)
    → Distinct s.duplicate_message_timeouts
    → get h s.duplicate_message_timeouts ≡ some t
    → now ≤ t
    → (on_message later h message true true (restart now s)).processed ≡ (h, message) ∷ s.processed
unfolding restart init_duplicate_inbound_message_timeout on_message on_new_message process_or_keep
    process_raw_message_switch save_and_acknowledge remember get
processed_again_after_restart now later t h message s d g w =
    let u = record s { timer = []; raw_messages_to_retry = []; in_progress = [] } in
    rw (init_each_ahead now h t s.duplicate_message_timeouts u d g w)
      (ap (λ l. (h, message) ∷ l) (init_each-same_processed now s.duplicate_message_timeouts u))

on_new_message-acknowledged :
    (now : ℕ) (h id m : String) (saved ready : Bool) (s : Inbound)
    → (id == h) ≡ false
    → times h (on_new_message now id m saved ready s).acknowledged ≡ times h s.acknowledged
unfolding on_new_message save_and_acknowledge remember
on_new_message-acknowledged now h id m false ready s f = refl
on_new_message-acknowledged now h id m true ready s f =
    rw ((process_or_keep-SameRows id m ready (save_and_acknowledge id m (remember now id s))).0, f)
      (omega arith)

on_message-acknowledged :
    (start now : ℕ) (h id m : String) (saved ready : Bool) (s : Inbound)
    → IsRemembered start h s
    → times h (on_message now id m saved ready s).acknowledged ≡ times h s.acknowledged
unfolding on_message
on_message-acknowledged start now h id m saved ready s r = elim (Bool-cases (id == h)) [
  | inl e ↦ elim (Option-cases (get id s.timer)) [
    | inl n ↦
        let x = subst (λ i. get i s.timer ≡ none) ((==_iff id h).0 e) n in
        let z : start + mq_send_total_timeout ≤ 0 = rw x at r in
        let c = never_over start z in absurd (cc)
    | inr p ↦ rw p.1 refl
  ]
  | inr f ↦
      if_both (λ (u : Inbound). times h u.acknowledged ≡ times h s.acknowledged)
        (is_some (get id s.timer)) s _ refl (on_new_message-acknowledged now h id m saved ready s f)
]

finish-acknowledged :
    (h id : String) (o : Option String) (s : Inbound)
    → times h (finish id o s).acknowledged ≡ times h s.acknowledged
unfolding finish
finish-acknowledged h id none s = refl
finish-acknowledged h id (some m) s = refl

step-acknowledged :
    (start : ℕ) (h : String) (e : Event) (s : Inbound)
    → IsWithin start e
    → IsRemembered start h s
    → times h (step e s).acknowledged ≡ times h s.acknowledged
unfolding step retry_process_messages load_and_process_backlog_messages
step-acknowledged start h (receives now id m saved ready) s w r =
    on_message-acknowledged start now h id m saved ready s r
step-acknowledged start h (timer_fires now id) s w r =
    ap (times h) (run_off-SameRows now id (get id s.timer) s).0
step-acknowledged start h (is_ready true) s w r =
    ap (times h)
      (process_each-SameRows s.raw_messages_to_retry (record s { raw_messages_to_retry = [] })).0
step-acknowledged start h (is_ready false) s w r = refl
step-acknowledged start h (finishes id) s w r = finish-acknowledged h id (get id s.in_progress) s
step-acknowledged start h (restarts now) s w r = absurd (cc)
step-acknowledged start h loads_backlog s w r =
    ap (times h) (process_each-SameRows s.raw_messages s).0
step-acknowledged start h (workers_change b) s w r = refl

run-acknowledged :
    (start : ℕ) (h : String) (es : List Event) (s : Inbound)
    → All (IsWithin start) es
    → IsRemembered start h s
    → times h (run es s).acknowledged ≡ times h s.acknowledged
unfolding run
run-acknowledged start h [] s w r = refl
run-acknowledged start h (e ∷ es) s w r =
    run-acknowledged start h es (step e s) w.1 (step-IsRemembered start h e s w.0 r)
    ∙ step-acknowledged start h e s w.0 r

remember-acknowledged :
    (start : ℕ) (h : String) (s : Inbound)
    → times h (remember start h s).acknowledged ≡ times h s.acknowledged
unfolding remember
remember-acknowledged start h s = refl

-- A message that could not be saved when it first came: however often it is sent again within the
-- timeout, and although it can be saved then, it is not acknowledged.
pub unsaved_not_acknowledged :
    (start : ℕ) (h message : String) (ready : Bool) (es : List Event) (s : Inbound)
    → get h s.timer ≡ none
    → All (IsWithin start) es
    → times h (run es (on_message start h message false ready s)).acknowledged
      ≡ times h s.acknowledged
unfolding on_message on_new_message
unsaved_not_acknowledged start h message ready es s n w = rw n (
    run-acknowledged start h es (remember start h s) w
      (remembers_itself start start h s (omega arith))
    ∙ remember-acknowledged start h s)
