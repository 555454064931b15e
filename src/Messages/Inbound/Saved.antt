-- ===== src/Messages/Inbound/Saved.antt =====
-- That an acknowledged message has a row until it is processed, in main-server/src/mq/index.js.
use ndidplatform_api.Base.{
  ℕ, ◌+◌, ◌≤◌, String, ◌≡◌, inl, inr, Bool, Option, none, some, List, [], ◌∷◌, if_both, ◌==◌,
  nat_eq, string_eq, Bool-cases, get, get-put, get-delete, is_some, times, one_if_some, leb, refl,
  ◌∙◌, arith,
}
use package.ndidplatform_api.Messages.Inbound.{
  Inbound, process_raw_message_switch, remember, save_and_acknowledge, process_or_keep,
  on_new_message, on_message, forget, run_off, process_each, retry_process_messages,
  load_and_process_backlog_messages, finish, init_timeout, init_each,
  init_duplicate_inbound_message_timeout, restart, Event, receives, timer_fires, is_ready, finishes,
  restarts, loads_backlog, workers_change, step, run,
}

-- An acknowledged message has a row or is finished.
abbrev pub IsSaved : String → Inbound → Type 0
IsSaved h s =
    1 ≤ times h s.acknowledged → 1 ≤ one_if_some (get h s.raw_messages) + times h s.finished

-- A change that the rows and logs are not touched by.
abbrev pub SameRows : Inbound → Inbound → Type 0
SameRows s t =
    (t.acknowledged ≡ s.acknowledged)
    × (t.raw_messages ≡ s.raw_messages)
    × (t.finished ≡ s.finished)

SameRows-trans : (s t u : Inbound) → SameRows s t → SameRows t u → SameRows s u
SameRows-trans s t u a b = (b.0 ∙ a.0, b.1 ∙ a.1, b.2 ∙ a.2)

pub same-IsSaved : (h : String) (s t : Inbound) → SameRows s t → IsSaved h s → IsSaved h t
same-IsSaved h s t e i = rw (e.0, e.1, e.2) i

pub process_each-SameRows :
    (l : List (String × String)) (s : Inbound) → SameRows s (process_each l s)
unfolding process_each process_raw_message_switch
process_each-SameRows [] s = (refl, refl, refl)
process_each-SameRows ((id, m) ∷ l) s = process_each-SameRows l (process_raw_message_switch id m s)

init_timeout-SameRows :
    (now : ℕ) (id : String) (t : ℕ) (s : Inbound) → SameRows s (init_timeout now id t s)
unfolding init_timeout
init_timeout-SameRows now id t s =
    if_both (SameRows s) (leb now t) _ _ (refl, refl, refl) (refl, refl, refl)

init_each-SameRows :
    (now : ℕ) (l : List (String × ℕ)) (s : Inbound) → SameRows s (init_each now l s)
unfolding init_each
init_each-SameRows now [] s = (refl, refl, refl)
init_each-SameRows now ((id, t) ∷ l) s =
    SameRows-trans s (init_timeout now id t s) (init_each now l (init_timeout now id t s))
      (init_timeout-SameRows now id t s) (init_each-SameRows now l (init_timeout now id t s))

pub run_off-SameRows :
    (now : ℕ) (id : String) (o : Option ℕ) (s : Inbound) → SameRows s (run_off now id o s)
unfolding run_off forget
run_off-SameRows now id none s = (refl, refl, refl)
run_off-SameRows now id (some t) s =
    if_both (SameRows s) (leb t now) _ s (refl, refl, refl) (refl, refl, refl)

pub process_or_keep-SameRows :
    (id m : String) (ready : Bool) (s : Inbound) → SameRows s (process_or_keep id m ready s)
unfolding process_or_keep process_raw_message_switch
process_or_keep-SameRows id m ready s =
    if_both (SameRows s) ready _ _ (refl, refl, refl) (refl, refl, refl)

save-IsSaved :
    (h id m : String) (s : Inbound) → IsSaved h s → IsSaved h (save_and_acknowledge id m s)
unfolding save_and_acknowledge
save-IsSaved h id m s i = elim (Bool-cases (id == h)) [
  | inl t ↦ rw (get-put id h m s.raw_messages, t) (λ p. omega arith)
  | inr f ↦ rw (get-put id h m s.raw_messages, f) (λ p. i (omega arith))
]

on_message-IsSaved :
    (h : String) (now : ℕ) (id m : String) (saved ready : Bool) (s : Inbound)
    → IsSaved h s
    → IsSaved h (on_message now id m saved ready s)
unfolding on_message on_new_message remember
on_message-IsSaved h now id m saved ready s i =
    if_both (IsSaved h) (is_some (get id s.timer)) s _ i (
      if_both (IsSaved h) saved _ _
        (same-IsSaved h (save_and_acknowledge id m (remember now id s))
          (process_or_keep id m ready (save_and_acknowledge id m (remember now id s)))
          (process_or_keep-SameRows id m ready (save_and_acknowledge id m (remember now id s)))
          (save-IsSaved h id m (remember now id s) i))
        i)

finish-IsSaved :
    (h id : String) (o : Option String) (s : Inbound) → IsSaved h s → IsSaved h (finish id o s)
unfolding finish
finish-IsSaved h id none s i = i
finish-IsSaved h id (some m) s i = elim (Bool-cases (id == h)) [
  | inl t ↦ rw (get-delete id h s.raw_messages, t) (λ p. omega arith)
  | inr f ↦ rw (get-delete id h s.raw_messages, f) (λ p. let q = i p in omega arith)
]

step-IsSaved : (h : String) (e : Event) (s : Inbound) → IsSaved h s → IsSaved h (step e s)
unfolding step retry_process_messages load_and_process_backlog_messages restart
    init_duplicate_inbound_message_timeout
step-IsSaved h (receives now id m saved ready) s i = on_message-IsSaved h now id m saved ready s i
step-IsSaved h (timer_fires now id) s i =
    same-IsSaved h s (run_off now id (get id s.timer) s)
      (run_off-SameRows now id (get id s.timer) s) i
step-IsSaved h (is_ready ready) s i =
    let t = record s { raw_messages_to_retry = [] } in
    if_both (IsSaved h) ready (process_each s.raw_messages_to_retry t) s
      (same-IsSaved h t (process_each s.raw_messages_to_retry t)
        (process_each-SameRows s.raw_messages_to_retry t) i)
      i
step-IsSaved h (finishes id) s i = finish-IsSaved h id (get id s.in_progress) s i
step-IsSaved h (restarts now) s i =
    let t = record s { timer = []; raw_messages_to_retry = []; in_progress = [] } in
    same-IsSaved h t (init_each now s.duplicate_message_timeouts t)
      (init_each-SameRows now s.duplicate_message_timeouts t) i
step-IsSaved h (workers_change b) s i = i
step-IsSaved h loads_backlog s i =
    same-IsSaved h s (process_each s.raw_messages s) (process_each-SameRows s.raw_messages s) i

pub run-IsSaved : (h : String) (es : List Event) (s : Inbound) → IsSaved h s → IsSaved h (run es s)
unfolding run
run-IsSaved h [] s i = i
run-IsSaved h (e ∷ es) s i = run-IsSaved h es (step e s) (step-IsSaved h e s i)
