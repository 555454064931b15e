-- ===== src/Mq/Logic/Invariant.antt =====
-- What holds of the sender's bookkeeping between two calls.
use ndidplatform_api.Base.{
  ℕ, suc, ◌≤◌, ◌<◌, String, ◌≡◌, refl, ap, Bool, true, Option, none, some, List, [], ◌∷◌, ◌++◌,
  arith, ◌==◌, ==_iff, nat_eq, string_eq, select, get, put, not, Absent, Distinct, Distinct-put,
  All-put, get-put, Bool-cases, inl, inr, All, All-append, All-select, All-imp, get-All,
}
use ndidplatform_api.Mq.Logic.{
  MqLogic, SeqEntry, Timer, Dest, Payload, buffer, other, Config, Event, Result, ok, err,
  clear_timeout, clear_entries, clean_up, perform_send, new, retry, find_timer, fire, fire_found,
  send, stop_all_retries,
}
use ndidplatform_api.Mq.Logic.CleanUp.{Ticketed, entry_of, entry_not_of, timer_not_of, clean_up_lem}

-- The entries are distinct, numbered up to `max_seq_id` and ticketed; a pending timer has its entry.
pub record Inv (s : MqLogic) : Type 0 where
  pub distinct : Distinct s.seq_map
  pub ticketed : All Ticketed s.seq_map
  pub bounded : All (λ e. e.0 ≤ s.max_seq_id) s.seq_map
  pub in_step : s.next_timer_id ≡ s.max_seq_id
  pub known : All (λ t. get t.seq_id s.seq_map ≡ some (entry_of t)) s.timers

pub new-Inv : (c : Config) → Inv (new c)
unfolding new
new-Inv c = record { distinct = tt; ticketed = tt; bounded = tt; in_step = refl; known = tt }

-- An entry that the filter keeps is still found.
pub get-select :
    (p : ℕ × SeqEntry → Bool) (k : ℕ) (v : SeqEntry) (r : List (ℕ × SeqEntry))
    → p (k, v) ≡ true
    → get k r ≡ some v
    → get k (select p r) ≡ some v
unfolding get
get-select p k v [] h g = cc
get-select p k v ((j, w) ∷ r) h g = elim (Bool-cases (j == k)) [
  | inl t ↦
      let same : w ≡ v = ground (arith, t, g) in
      let keeps : p (j, w) ≡ true = rw (same, (==_iff j k).0 t) h in rw keeps (ground (arith, t, g))
  | inr f ↦ ground (arith, get-select p k v r)
]

Distinct-select :
    (p : ℕ × SeqEntry → Bool) (r : List (ℕ × SeqEntry)) → Distinct r → Distinct (select p r)
Distinct-select p [] d = d
Distinct-select p ((k, v) ∷ r) d = ground (arith, absent r d.0, Distinct-select p r d.1)
  where
    absent : (m : List (ℕ × SeqEntry)) → Absent k m → Absent k (select p m)
    absent [] a = a
    absent ((j, w) ∷ m) a = ground (arith, absent m a.1)

abbrev Known : List (ℕ × SeqEntry) → Timer → Type 0
Known m t = get t.seq_id m ≡ some (entry_of t)

Known-select :
    (m : String) (r : List (ℕ × SeqEntry)) (ts : List Timer)
    → All (Known r) ts
    → All (Known (select (entry_not_of m) r)) (select (timer_not_of m) ts)
Known-select m r [] h = tt
Known-select m r (t ∷ ts) h = elim (Bool-cases (timer_not_of m t)) [
  | inl q ↦
      rw q (get-select (entry_not_of m) t.seq_id (entry_of t) r q h.0, Known-select m r ts h.1)
  | inr q ↦ rw q (Known-select m r ts h.1)
]

pub clean_up-Inv : (m : String) (s : MqLogic) → Inv s → Inv (clean_up m s).0
clean_up-Inv m s v = rw (clean_up_lem m s v.distinct v.ticketed v.known) (record {
  distinct = Distinct-select _ s.seq_map v.distinct;
  ticketed = All-select Ticketed _ s.seq_map v.ticketed;
  bounded = All-select _ _ s.seq_map v.bounded;
  in_step = v.in_step;
  known = Known-select m s.seq_map s.timers v.known;
})

-- A number above `max_seq_id` is in no entry.
pub Absent-fresh : (n k : ℕ) (r : List (ℕ × SeqEntry)) → n < k → All (λ e. e.0 ≤ n) r → Absent k r
Absent-fresh n k [] h b = tt
Absent-fresh n k ((j, w) ∷ r) h b = (ground arith, Absent-fresh n k r h b.1)

Known-put :
    (n : ℕ) (w : SeqEntry) (r : List (ℕ × SeqEntry)) (ts : List Timer)
    → All (λ e. e.0 ≤ n) r
    → All (Known r) ts
    → All (Known (put (suc n) w r)) ts
Known-put n w r [] b h = tt
Known-put n w r (t ∷ ts) b h = (
  rw (get-put (suc n) t.seq_id w r)
      (ground (arith, h.0, get-All (λ e. e.0 ≤ n) t.seq_id (entry_of t) r b h.0)),
  Known-put n w r ts b h.1,
)

pub perform_send-Inv :
    (d : Dest) (p : List ℕ) (m : String) (n : ℕ) (s : MqLogic)
    → Inv s
    → Inv (perform_send d p m n s).0
unfolding perform_send
perform_send-Inv d p m n s v = record {
  distinct = Distinct-put _ _ s.seq_map v.distinct;
  ticketed = All-put Ticketed _ _ s.seq_map (refl, ap suc v.in_step) v.ticketed;
  bounded =
      All-put (λ e. e.0 ≤ suc s.max_seq_id) _ _ s.seq_map (omega arith)
        (All-imp _ _ (λ e h. omega arith) s.seq_map v.bounded);
  in_step = ap suc v.in_step;
  known =
      All-append _ s.timers _ (Known-put s.max_seq_id _ s.seq_map s.timers v.bounded v.known)
        (rw (get-put (suc s.max_seq_id) (suc s.max_seq_id)) (ground arith), tt);
}

-- Timers may go at any time: a subset of known timers is known.
timers-Inv :
    (p : Timer → Bool) (s : MqLogic) → Inv s → Inv (record s { timers = select p s.timers })
timers-Inv p s v = record {
  distinct = v.distinct;
  ticketed = v.ticketed;
  bounded = v.bounded;
  in_step = v.in_step;
  known = All-select (Known s.seq_map) p s.timers v.known;
}

pub clear_timeout-Inv :
    (i : ℕ) (s : MqLogic) → Inv s → Inv (record s { timers = clear_timeout i s.timers })
unfolding clear_timeout
clear_timeout-Inv i s v = timers-Inv (λ x. not (x.timer_id == i)) s v

pub retry-Inv : (t : Timer) (s : MqLogic) → Inv s → Inv (retry t s).0
unfolding retry
retry-Inv t s v =
    ground (
      arith,
      clean_up-Inv t.msg_id s v,
      perform_send-Inv t.dest t.payload t.msg_id t.retry_count s v,
    )

fire_found-Inv : (o : Option Timer) (i : ℕ) (s : MqLogic) → Inv s → Inv (fire_found o i s).0
unfolding fire_found
fire_found-Inv none i s v = v
fire_found-Inv (some t) i s v = retry-Inv t _ (clear_timeout-Inv i s v)

pub fire-Inv : (i : ℕ) (s : MqLogic) → Inv s → Inv (fire i s).0
unfolding fire
fire-Inv i s v = fire_found-Inv (find_timer i s.timers) i s v

clear_entries_subset :
    (r : List (ℕ × SeqEntry)) (s : MqLogic)
    → Inv s
    → Inv (record s { timers = clear_entries r s.timers })
unfolding clear_entries
clear_entries_subset [] s v = v
clear_entries_subset ((k, w) ∷ r) s v = clear_entries_subset r _ (clear_timeout-Inv w.timer_id s v)

pub stop_all_retries-Inv : (s : MqLogic) → Inv s → Inv (stop_all_retries s)
unfolding stop_all_retries
stop_all_retries-Inv s v = clear_entries_subset s.seq_map s v

-- What the outside does to the object: its public methods, and timers that run out.
pub data Op : Type 0 where
  sends : Dest → Payload → String → Op
  cleans_up : String → Op
  fires : ℕ → Op
  stops : Op

-- A `send` that throws changes nothing.
abbrev after_send : MqLogic → Result (MqLogic × List Event) → MqLogic × List Event
after_send s (ok r) = r
after_send s (err e) = (s, [])

unfoldable pub step : Op → MqLogic → MqLogic × List Event
step (sends d p m) s = after_send s (send d p m s)
step (cleans_up m) s = clean_up m s
step (fires i) s = fire i s
step stops s = (stop_all_retries s, [])

unfoldable pub run : List Op → MqLogic → MqLogic × List Event
run [] s = (s, [])
run (o ∷ os) s = let (s', es) = step o s in let (s'', es') = run os s' in (s'', es ++ es')

send-Inv :
    (d : Dest) (p : Payload) (m : String) (s : MqLogic)
    → Inv s
    → Inv (after_send s (send d p m s)).0
unfolding send
send-Inv d (buffer bytes) m s v = ground (arith, perform_send-Inv d bytes m 0 s v)
send-Inv d other m s v = v

pub step-Inv : (o : Op) (s : MqLogic) → Inv s → Inv (step o s).0
unfolding step
step-Inv (sends d p m) s v = send-Inv d p m s v
step-Inv (cleans_up m) s v = clean_up-Inv m s v
step-Inv (fires i) s v = fire-Inv i s v
step-Inv stops s v = stop_all_retries-Inv s v

pub run_from-Inv : (os : List Op) (s : MqLogic) → Inv s → Inv (run os s).0
unfolding run
run_from-Inv [] s v = v
run_from-Inv (o ∷ os) s v = run_from-Inv os (step o s).0 (step-Inv o s v)

-- Whatever sequence of sends, acknowledgements, cancellations, stops and expired timers a new object
-- goes through, its entries stay distinct and numbered up to `maxSeqId`, and each pending timer has
-- the entry of the sequence number and the message that it is to send again.
pub run-new-Inv : (c : Config) (os : List Op) → Inv (run os (new c)).0
run-new-Inv c os = run_from-Inv os (new c) (new-Inv c)
