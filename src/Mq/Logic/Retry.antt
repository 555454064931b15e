-- ===== src/Mq/Logic/Retry.antt =====
-- How often a message is sent: never after its clean-up, and a bounded number of times otherwise.
use ndidplatform_api.Base.{
  ℕ, String, ◌≡◌, refl, subst, false, Option, none, some, List, [], ◌∷◌, arith, ◌==◌, ==_iff,
  nat_eq, string_eq, is_some, get, put, Bool-cases, inl, inr, All, All-append, All-select, All-imp,
  select-All,
}
use ndidplatform_api.Mq.Logic.{
  MqLogic, SeqEntry, Timer, Dest, buffer, other, Event, performs_clean_up, performs_send,
  performs_total_timeout, retries_send, clear_timeout, clean_up, perform_send, retry, find_timer,
  fire, fire_found, send, stop_all_retries, clear_entries, reached_max,
}
use ndidplatform_api.Mq.Logic.CleanUp.{entry_not_of, timer_not_of, clean_up_lem, clean_up_events}
use ndidplatform_api.Mq.Logic.Invariant.{
  Inv, Op, sends, cleans_up, fires, stops, step, step-Inv, run, clear_timeout-Inv, clean_up-Inv,
}

-- The message that an event is about.
abbrev pub msg_of : Event → String
msg_of (performs_clean_up m k) = m
msg_of (performs_send i d p m k) = m
msg_of (performs_total_timeout i m) = m
msg_of (retries_send i m n) = m

-- An operation that does not send the message.
abbrev pub NotSending : String → Op → Type 0
NotSending m (sends d p n) = (n == m) ≡ false
NotSending m _ = Unit

-- Nothing of the message is left: no timer, and no entry.
pub record Forgotten (m : String) (s : MqLogic) : Type 0 where
  pub no_timer : All (λ t. (t.msg_id == m) ≡ false) s.timers
  pub no_entry : All (λ e. (e.1.msg_id == m) ≡ false) s.seq_map

clean_up-Forgotten : (m : String) (s : MqLogic) → Inv s → Forgotten m (clean_up m s).0
clean_up-Forgotten m s v = rw (clean_up_lem m s v.distinct v.ticketed v.known) (record {
  no_timer = All-imp _ _ (λ t h. ground arith) _ (select-All (timer_not_of m) s.timers);
  no_entry = All-imp _ _ (λ e h. ground arith) _ (select-All (entry_not_of m) s.seq_map);
})

abbrev pub Silent : String → List Event → Type 0
Silent m = All (λ e. (msg_of e == m) ≡ false)

clean_up_events-Silent :
    (m n : String) (r : List (ℕ × SeqEntry))
    → All (λ e. (e.1.msg_id == m) ≡ false) r
    → Silent m (clean_up_events n r)
clean_up_events-Silent m n [] h = tt
clean_up_events-Silent m n ((k, v) ∷ r) h =
    ground
      (arith, ==_iff v.msg_id n, ==_iff n m, ==_iff v.msg_id m, clean_up_events-Silent m n r h.1)

abbrev Quiet : String → MqLogic × List Event → Type 0
Quiet m r = Forgotten m r.0 × Silent m r.1

clean_up-Quiet : (m n : String) (s : MqLogic) → Inv s → Forgotten m s → Quiet m (clean_up n s)
clean_up-Quiet m n s v f = rw (clean_up_lem n s v.distinct v.ticketed v.known) (
  record {
    no_timer = All-select _ _ s.timers f.no_timer;
    no_entry = All-select _ _ s.seq_map f.no_entry;
  },
  clean_up_events-Silent m n s.seq_map f.no_entry,
)

no_entry-put :
    (m : String) (k : ℕ) (v : SeqEntry) (r : List (ℕ × SeqEntry))
    → (v.msg_id == m) ≡ false
    → All (λ e. (e.1.msg_id == m) ≡ false) r
    → All (λ e. (e.1.msg_id == m) ≡ false) (put k v r)
unfolding put
no_entry-put m k v [] q h = (q, tt)
no_entry-put m k v ((j, w) ∷ r) q h = ground (arith, no_entry-put m k v r q h.1)

perform_send-Quiet :
    (m : String) (d : Dest) (p : List ℕ) (n : String) (c : ℕ) (s : MqLogic)
    → (n == m) ≡ false
    → Forgotten m s
    → Quiet m (perform_send d p n c s)
unfolding perform_send
perform_send-Quiet m d p n c s q f = (
  record {
    no_timer = All-append _ s.timers _ f.no_timer (q, tt);
    no_entry = no_entry-put m _ _ s.seq_map q f.no_entry;
  },
  (q, tt),
)

retry-Quiet :
    (m : String) (t : Timer) (s : MqLogic)
    → (t.msg_id == m) ≡ false
    → Inv s
    → Forgotten m s
    → Quiet m (retry t s)
unfolding retry
retry-Quiet m t s q v f =
    let c = clean_up-Quiet m t.msg_id s v f in
    let p = perform_send-Quiet m t.dest t.payload t.msg_id t.retry_count s q f in
    elim (Bool-cases (is_some (get t.seq_id s.seq_map))) [
      | inl there ↦ elim (Bool-cases (reached_max s t.retry_count)) [
        | inl last ↦ rw (there, last) (c.0, All-append _ _ _ c.1 (q, tt))
        | inr more ↦ rw (there, more) (p.0, (q, p.1))
      ]
      | inr gone ↦ rw gone (f, tt)
    ]

find_timer-All {ℓ} :
    (P : Timer → Type ℓ) (i : ℕ) (t : Timer) (ts : List Timer)
    → All P ts
    → find_timer i ts ≡ some t
    → P t
unfolding find_timer
find_timer-All P i t [] h e = cc
find_timer-All P i t (x ∷ ts) h e = elim (Bool-cases (x.timer_id == i)) [
  | inl hit ↦ subst P (ground (arith, e, hit)) h.0
  | inr miss ↦ find_timer-All P i t ts h.1 (rw miss at e)
]

clear_timeout-Forgotten :
    (m : String) (i : ℕ) (s : MqLogic)
    → Forgotten m s
    → Forgotten m (record s { timers = clear_timeout i s.timers })
unfolding clear_timeout
clear_timeout-Forgotten m i s f = record {
  no_timer = All-select _ _ s.timers f.no_timer;
  no_entry = f.no_entry;
}

fire_found-Quiet :
    (m : String) (o : Option Timer) (i : ℕ) (s : MqLogic)
    → find_timer i s.timers ≡ o
    → Inv s
    → Forgotten m s
    → Quiet m (fire_found o i s)
unfolding fire_found
fire_found-Quiet m none i s e v f = (f, tt)
fire_found-Quiet m (some t) i s e v f =
    retry-Quiet m t _ (find_timer-All _ i t s.timers f.no_timer e) (clear_timeout-Inv i s v)
      (clear_timeout-Forgotten m i s f)

clear_entries-Forgotten :
    (m : String) (r : List (ℕ × SeqEntry)) (s : MqLogic)
    → Forgotten m s
    → Forgotten m (record s { timers = clear_entries r s.timers })
unfolding clear_entries
clear_entries-Forgotten m [] s f = f
clear_entries-Forgotten m ((k, w) ∷ r) s f =
    clear_entries-Forgotten m r _ (clear_timeout-Forgotten m w.timer_id s f)

step-Quiet :
    (m : String) (o : Op) (s : MqLogic)
    → NotSending m o
    → Inv s
    → Forgotten m s
    → Quiet m (step o s)
unfolding step send stop_all_retries
step-Quiet m (sends d (buffer b) n) s q v f = ground (arith, perform_send-Quiet m d b n 0 s q f)
step-Quiet m (sends d other n) s q v f = (f, tt)
step-Quiet m (cleans_up n) s q v f = clean_up-Quiet m n s v f
step-Quiet m (fires i) s q v f =
    unfold fire in fire_found-Quiet m (find_timer i s.timers) i s refl v f
step-Quiet m stops s q v f = (clear_entries-Forgotten m s.seq_map s f, tt)

run-Quiet :
    (m : String) (os : List Op) (s : MqLogic)
    → All (NotSending m) os
    → Inv s
    → Forgotten m s
    → Quiet m (run os s)
unfolding run
run-Quiet m [] s q v f = (f, tt)
run-Quiet m (o ∷ os) s q v f =
    let now = step-Quiet m o s q.0 v f in
    let later = run-Quiet m os (step o s).0 q.1 (step-Inv o s v) now.0 in
    (later.0, All-append _ _ _ now.1 later.1)

-- From a state that meets the invariant: once a message is cleaned up (it was acknowledged or
-- cancelled), nothing that happens short of
-- sending it anew emits an event about it: no retry, no time-out, whatever timers were pending.
pub clean_up-Silent :
    (m : String) (s : MqLogic) (os : List Op)
    → Inv s
    → All (NotSending m) os
    → Silent m (run os (clean_up m s).0).1
clean_up-Silent m s os v q = (run-Quiet m os _ q (clean_up-Inv m s v) (clean_up-Forgotten m s v)).1
