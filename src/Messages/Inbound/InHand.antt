-- ===== src/Messages/Inbound/InHand.antt =====
-- When a message that is saved is being processed or waits to be, in main-server/src/mq/index.js.
use ndidplatform_api.Base.{
  subst, if◌then◌else◌, ℕ, ◌+◌, ◌≤◌, String, ◌≡◌, inl, inr, Bool, true, false, Option, none, some,
  List, [], ◌∷◌, if_both, ◌==◌, nat_eq, string_eq, Bool-cases, get, put, get-put, get-delete,
  is_some, one_if_some, leb, refl, Option-cases, arith,
}
use package.ndidplatform_api.Messages.Inbound.{
  Inbound, process_raw_message_switch, remember, save_and_acknowledge, process_or_keep,
  on_new_message, on_message, forget, run_off, process_each, load_and_process_backlog_messages,
  finish, Event, restarts, workers_change,
}
use package.ndidplatform_api.Messages.Inbound.Saved.{process_each-SameRows}

-- A message that has a row waits or is processed.
abbrev pub IsInHand : String → Inbound → Type 0
IsInHand h s =
    one_if_some (get h s.raw_messages)
    ≤ one_if_some (get h s.raw_messages_to_retry) + one_if_some (get h s.in_progress)

put_in {ℓ} :
    {A : Type ℓ} (h id : String) (a : A) (m : List (String × A))
    → one_if_some (get h m) ≤ one_if_some (get h (put id a m))
put_in h id a m = elim (Bool-cases (id == h)) [
  | inl t ↦
      rw (get-put id h a m, t)
        (elim (Option-cases (get h m)) [
          | inl n ↦ rw n (omega arith)
          | inr p ↦ rw p.1 (omega arith)
        ])
  | inr f ↦ rw (get-put id h a m, f) (omega arith)
]

process_each_keeps :
    (h : String) (l : List (String × String)) (s : Inbound)
    → one_if_some (get h s.in_progress) ≤ one_if_some (get h (process_each l s).in_progress)
unfolding process_each process_raw_message_switch
process_each_keeps h [] s = omega arith
process_each_keeps h ((id, m) ∷ l) s =
    let a =
      if_both (λ p. one_if_some (get h s.in_progress) ≤ one_if_some (get h p)) s.has_worker
        (put id m s.in_progress) s.in_progress (put_in h id m s.in_progress) (omega arith) in
    let b = process_each_keeps h l (process_raw_message_switch id m s) in omega arith

put_if : (b : Bool) → b ≡ true → (p q : List (String × String)) → (if b then p else q) ≡ p
put_if b e p q = rw e refl

process_each_takes :
    (h : String) (l : List (String × String)) (s : Inbound)
    → s.has_worker ≡ true
    → one_if_some (get h l) ≤ one_if_some (get h (process_each l s).in_progress)
unfolding process_each process_raw_message_switch get
process_each_takes h [] s w = omega arith
process_each_takes h ((id, m) ∷ l) s w =
    let a = process_each_takes h l (process_raw_message_switch id m s) w in
    let t = process_each l (process_raw_message_switch id m s) in
    let b =
      subst (λ p. one_if_some (get h p) ≤ one_if_some (get h t.in_progress))
        (put_if s.has_worker w (put id m s.in_progress) s.in_progress)
        (process_each_keeps h l (process_raw_message_switch id m s)) in
    let c = get-put id h m s.in_progress in ground (arith, a, b, c)

process_each-same_retries :
    (l : List (String × String)) (s : Inbound)
    → (process_each l s).raw_messages_to_retry ≡ s.raw_messages_to_retry
unfolding process_each process_raw_message_switch
process_each-same_retries [] s = refl
process_each-same_retries ((id, m) ∷ l) s =
    process_each-same_retries l (process_raw_message_switch id m s)

at_most_one {ℓ} : {A : Type ℓ} (o : Option A) → one_if_some o ≤ 1
at_most_one none = omega arith
at_most_one (some a) = omega arith

pub process_each-IsInHand :
    (h : String) (s : Inbound)
    → s.has_worker ≡ true
    → IsInHand h s
    → IsInHand h (process_each s.raw_messages_to_retry (record s { raw_messages_to_retry = [] }))
unfolding get
process_each-IsInHand h s w i =
    let t = record s { raw_messages_to_retry = [] } in
    let a = process_each_takes h s.raw_messages_to_retry t w in
    let b = process_each_keeps h s.raw_messages_to_retry t in
    let o = at_most_one (get h s.raw_messages) in
    rw ((process_each-SameRows s.raw_messages_to_retry t).1) (omega arith)

pub backlog-IsInHand :
    (h : String) (s : Inbound)
    → s.has_worker ≡ true
    → IsInHand h (load_and_process_backlog_messages s)
unfolding load_and_process_backlog_messages
backlog-IsInHand h s w =
    let a = process_each_takes h s.raw_messages s w in
    rw ((process_each-SameRows s.raw_messages s).1) (omega arith)

pub on_message-IsInHand :
    (h : String) (now : ℕ) (id m : String) (saved ready : Bool) (s : Inbound)
    → s.has_worker ≡ true
    → IsInHand h s
    → IsInHand h (on_message now id m saved ready s)
unfolding on_message on_new_message remember process_or_keep save_and_acknowledge
    process_raw_message_switch
on_message-IsInHand h now id m saved ready s w i =
    if_both (IsInHand h) (is_some (get id s.timer)) s _ i
      (if_both (IsInHand h) saved _ _ (if_both (IsInHand h) ready _ _ (rw w both_put) both_kept) i)
  where
    both_put :
        one_if_some (get h (put id m s.raw_messages))
        ≤ one_if_some (get h s.raw_messages_to_retry) + one_if_some (get h (put id m s.in_progress))
    both_put = rw (get-put id h m s.raw_messages, get-put id h m s.in_progress) (ground arith)

    both_kept :
        one_if_some (get h (put id m s.raw_messages))
        ≤ one_if_some (get h (put id m s.raw_messages_to_retry)) + one_if_some (get h s.in_progress)
    both_kept =
        rw (get-put id h m s.raw_messages, get-put id h m s.raw_messages_to_retry) (ground arith)

pub finish-IsInHand :
    (h id : String) (o : Option String) (s : Inbound) → IsInHand h s → IsInHand h (finish id o s)
unfolding finish
finish-IsInHand h id none s i = i
finish-IsInHand h id (some m) s i = elim (Bool-cases (id == h)) [
  | inl t ↦ rw (get-delete id h s.raw_messages, t) (omega arith)
  | inr f ↦ rw (get-delete id h s.raw_messages, get-delete id h s.in_progress, f) i
]

pub run_off-IsInHand :
    (h : String) (now : ℕ) (id : String) (o : Option ℕ) (s : Inbound)
    → IsInHand h s
    → IsInHand h (run_off now id o s)
unfolding run_off forget
run_off-IsInHand h now id none s i = i
run_off-IsInHand h now id (some t) s i = if_both (IsInHand h) (leb t now) _ s i i

-- No restart, and no loss of the last worker.
abbrev pub KeepsRunning : Event → Type 0
KeepsRunning (restarts now) = true ≡ false
KeepsRunning (workers_change available) = available ≡ true
KeepsRunning e = Unit
