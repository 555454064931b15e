-- ===== src/Messages/Inbound/Bounded.antt =====
-- How often messages are given to processing while their id is remembered, in
-- main-server/src/mq/index.js.
use ndidplatform_api.Base.{
  ℕ, ◌+◌, ◌≤◌, String, ◌≡◌, subst, inl, inr, ◌⊎◌, Bool, true, false, Option, none, some, List, [],
  ◌∷◌, if◌then◌else◌, if_both, ◌==◌, ==_iff, nat_eq, string_eq, Bool-cases, Option-cases, get,
  is_some, times, times-put, leb, arith,
}
use package.ndidplatform_api.Messages.Inbound.{
  mq_send_total_timeout, Inbound, process_raw_message_switch, remember, save_and_acknowledge,
  process_or_keep, on_new_message, on_message, forget, run_off, process_each,
  retry_process_messages, finish,
}
use package.ndidplatform_api.Messages.Inbound.Remembered.{
  IsRemembered, remembers_itself, process_or_keep-same_timers, on_message-IsRemembered,
}

-- Messages handed over for processing, and those that wait to be.
unfoldable pub taken : String → Inbound → ℕ
taken h s = times h s.processed + times h s.raw_messages_to_retry

pub process_each-taken :
    (h : String) (l : List (String × String)) (s : Inbound)
    → taken h (process_each l s) ≤ times h l + taken h s
unfolding taken process_each process_raw_message_switch
process_each-taken h [] s = omega arith
process_each-taken h ((id, m) ∷ l) s =
    let r = process_each-taken h l (process_raw_message_switch id m s) in omega arith

pub retry-taken :
    (h : String) (ready : Bool) (s : Inbound) → taken h (retry_process_messages ready s) ≤ taken h s
unfolding retry_process_messages taken
retry-taken h true s =
    let r =
      process_each-taken h s.raw_messages_to_retry (record s { raw_messages_to_retry = [] }) in
    omega arith
retry-taken h false s = omega arith

pub finish-taken :
    (h id : String) (o : Option String) (s : Inbound) → taken h (finish id o s) ≤ taken h s
unfolding finish taken
finish-taken h id none s = omega arith
finish-taken h id (some m) s = omega arith

pub run_off-taken :
    (h : String) (now : ℕ) (id : String) (o : Option ℕ) (s : Inbound)
    → taken h (run_off now id o s) ≤ taken h s
unfolding run_off forget taken
run_off-taken h now id none s = omega arith
run_off-taken h now id (some t) s =
    if_both (λ u. taken h u ≤ taken h s) (leb t now) _ s (omega arith) (omega arith)

on_new_message-taken :
    (h : String) (now : ℕ) (id m : String) (saved ready : Bool) (s : Inbound)
    → taken h (on_new_message now id m saved ready s) ≤ (if id == h then 1 else 0) + taken h s
unfolding on_new_message save_and_acknowledge remember process_or_keep process_raw_message_switch
    taken
on_new_message-taken h now id m false ready s = omega arith
on_new_message-taken h now id m true true s = omega arith
on_new_message-taken h now id m true false s =
    let p = times-put h id m s.raw_messages_to_retry in omega arith

pub never_over : (start : ℕ) → start + mq_send_total_timeout ≤ 0 → false ≡ true
unfolding mq_send_total_timeout
never_over start z = absurd (omega arith)

-- At a message: nothing more is taken of an id that is remembered.
on_message-taken :
    (start now : ℕ) (h id m : String) (saved ready : Bool) (s : Inbound)
    → IsRemembered start h s
    → taken h (on_message now id m saved ready s) ≤ taken h s
unfolding on_message
on_message-taken start now h id m saved ready s r =
    let q = on_new_message-taken h now id m saved ready s in
    elim (Option-cases (get id s.timer)) [
      | inl n ↦ elim (Bool-cases (id == h)) [
        | inl e ↦
            let x = subst (λ i. get i s.timer ≡ none) ((==_iff id h).0 e) n in
            let z : start + mq_send_total_timeout ≤ 0 = rw x at r in
            let c = never_over start z in absurd (cc)
        | inr f ↦ let k = rw f at q in rw n (omega arith)
      ]
      | inr p ↦ rw p.1 (omega arith)
    ]

on_new_message-IsRemembered :
    (start now : ℕ) (h m : String) (saved ready : Bool) (s : Inbound)
    → start ≤ now
    → IsRemembered start h (on_new_message now h m saved ready s)
unfolding on_new_message save_and_acknowledge
on_new_message-IsRemembered start now h m false ready s w = remembers_itself start now h s w
on_new_message-IsRemembered start now h m true ready s w =
    rw (process_or_keep-same_timers h m ready (save_and_acknowledge h m (remember now h s)))
      (remembers_itself start now h s w)

-- No more than a number is taken; or one more, and the id is remembered.
abbrev pub IsBounded : ℕ → String → ℕ → Inbound → Type 0
IsBounded start h n s = (taken h s ≤ n) ⊎ ((taken h s ≤ 1 + n) × IsRemembered start h s)

pub falls-IsBounded :
    (start : ℕ) (h : String) (n : ℕ) (s t : Inbound)
    → taken h t ≤ taken h s
    → (IsRemembered start h s → IsRemembered start h t)
    → IsBounded start h n s
    → IsBounded start h n t
falls-IsBounded start h n s t l k (inl b) = inl (omega arith)
falls-IsBounded start h n s t l k (inr b) = inr (omega arith, k b.1)

heard-IsBounded :
    (start now : ℕ) (h id m : String) (saved ready : Bool) (n : ℕ) (s : Inbound)
    → start ≤ now
    → taken h s ≤ n
    → IsBounded start h n (on_new_message now id m saved ready s)
heard-IsBounded start now h id m saved ready n s w b =
    let q = on_new_message-taken h now id m saved ready s in
    elim (Bool-cases (id == h)) [
      | inl e ↦ inr (
        ground (arith, q, b),
        subst (λ i. IsRemembered start i (on_new_message now id m saved ready s))
            ((==_iff id h).0 e) (on_new_message-IsRemembered start now id m saved ready s w),
      )
      | inr f ↦ let k = rw f at q in inl (omega arith)
    ]

pub on_message-IsBounded :
    (start now : ℕ) (h id m : String) (saved ready : Bool) (n : ℕ) (s : Inbound)
    → start ≤ now
    → IsBounded start h n s
    → IsBounded start h n (on_message now id m saved ready s)
unfolding on_message
on_message-IsBounded start now h id m saved ready n s w (inl b) =
    if_both (IsBounded start h n) (is_some (get id s.timer)) s _ (inl b)
      (heard-IsBounded start now h id m saved ready n s w b)
on_message-IsBounded start now h id m saved ready n s w (inr b) =
    let l = on_message-taken start now h id m saved ready s b.1 in
    inr (omega arith, on_message-IsRemembered start now h id m saved ready s w b.1)
