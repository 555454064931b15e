-- ===== src/Mq/Logic/Unacknowledged.antt =====
-- A message that nobody acknowledges: how often it is sent, and that the timers run dry.
use mathlib.Core.List.{append-nil}
use ndidplatform_api.Base.{
  ℕ, zero, suc, ◌+◌, ◌-◌, ◌*◌, ◌≤◌, ◌<◌, String, ◌≡◌, refl, ap, subst, ◌∙◌, Bool, true, false, some,
  List, [], ◌∷◌, ◌++◌, arith, ◌==◌, ==_refl, nat_eq, string_eq, is_some, select, get, put, not,
  Bool-cases, inl, inr, All, All-put, leb,
}
use ndidplatform_api.Mq.Logic.{
  MqLogic, SeqEntry, Timer, Dest, buffer, Config, Event, performs_clean_up, performs_send,
  performs_total_timeout, retries_send, ok, clear_timeout, perform_send, new, retry, find_timer,
  fire, fire_found, send, send_buffer, reached_max,
}
use ndidplatform_api.Mq.Logic.CleanUp.{
  entry_of, entry_not_of, timer_not_of, clean_up_lem, clean_up_events,
}
use ndidplatform_api.Mq.Logic.Invariant.{Inv, new-Inv, clear_timeout-Inv, perform_send-Inv}

-- `max` attempts are what the two time-outs of the object allow.
abbrev pub Allows : MqLogic → ℕ → Type 0
Allows s max = ((max - 1) * s.timeout < s.total_timeout) × (s.total_timeout ≤ max * s.timeout)

reached_max_lem : (s : MqLogic) (max r : ℕ) → Allows s max → reached_max s r ≡ leb max r
unfolding reached_max
reached_max_lem s max r a = elim (Bool-cases (leb max r)) [
  | inl e ↦ rw e (late (ground arith))
  | inr e ↦ rw e (early (ground arith))
]
  where
    late : max ≤ r → leb s.total_timeout (r * s.timeout) ≡ true
    late h = grind arith

    early : r < max → leb s.total_timeout (r * s.timeout) ≡ false
    early h = grind arith

-- How many more times a timer with this count can run out.
left : ℕ → ℕ → ℕ
left max r = suc (max - r)

pub potential : ℕ → List Timer → ℕ
unfolding left
potential max [] = 0
potential max (t ∷ ts) = left max t.retry_count + potential max ts

potential-append :
    (max : ℕ) (xs ys : List Timer) → potential max (xs ++ ys) ≡ potential max xs + potential max ys
unfolding potential
potential-append max [] ys = omega arith
potential-append max (x ∷ xs) ys = omega (arith, potential-append max xs ys)

potential-select :
    (max : ℕ) (p : Timer → Bool) (ts : List Timer) → potential max (select p ts) ≤ potential max ts
unfolding potential
potential-select max p [] = omega arith
potential-select max p (t ∷ ts) = ground (arith, potential-select max p ts)

potential-clear_timeout :
    (max i : ℕ) (t : Timer) (ts : List Timer)
    → find_timer i ts ≡ some t
    → potential max (clear_timeout i ts) + suc (max - t.retry_count) ≤ potential max ts
unfolding potential clear_timeout find_timer
potential-clear_timeout max i t [] e = cc
potential-clear_timeout max i t (x ∷ ts) e = ground (
  arith,
  potential-clear_timeout max i t ts,
  potential-select max (λ x. not (x.timer_id == i)) ts,
)

potential-retry :
    (max : ℕ) (t : Timer) (s : MqLogic)
    → Allows s max
    → Inv s
    → potential max (retry t s).0.timers < potential max s.timers + suc (max - t.retry_count)
unfolding retry
potential-retry max t s a v =
    rw
      (clean_up_lem t.msg_id s v.distinct v.ticketed v.known, reached_max_lem s max t.retry_count a)
      (ground (arith, potential-select max (timer_not_of t.msg_id) s.timers, sent))
  where
    sent :
        potential max (perform_send t.dest t.payload t.msg_id t.retry_count s).0.timers
        ≡ potential max s.timers + suc (max - suc t.retry_count)
    sent = unfold perform_send potential left in potential-append max s.timers _ ∙ omega arith

-- From a state that meets the invariant, while the time-outs allow `max` attempts: each pending timer that runs out brings the end nearer,
-- whatever else is in flight: `potential`, the number of expiries that can still come, falls.
pub fire-potential-lt :
    (max i : ℕ) (t : Timer) (s : MqLogic)
    → Allows s max
    → Inv s
    → find_timer i s.timers ≡ some t
    → potential max (fire i s).0.timers < potential max s.timers
unfolding fire fire_found
fire-potential-lt max i t s a v e = rw e (
    omega (
      arith,
      potential-retry max t _ a (clear_timeout-Inv i s v),
      potential-clear_timeout max i t s.timers e,
    ))

drain : (MqLogic → MqLogic × List Event) → List Timer → MqLogic → MqLogic × List Event
drain rest [] s = (s, [])
drain rest (t ∷ ts) s =
    let (s', es) = fire t.timer_id s in let (s'', es') = rest s' in (s'', es ++ es')

-- The runtime lets the pending timers run out, the longest pending first, until none is left.
pub unacknowledged : ℕ → MqLogic → MqLogic × List Event
unfolding drain
unacknowledged zero s = (s, [])
unacknowledged (suc fuel) s = drain (unacknowledged fuel) s.timers s

abbrev pub sent_count : List Event → ℕ
sent_count [] = 0
sent_count (performs_send i d p m k ∷ es) = suc (sent_count es)
sent_count (_ ∷ es) = sent_count es

abbrev pub timed_out_count : List Event → ℕ
timed_out_count [] = 0
timed_out_count (performs_total_timeout i m ∷ es) = suc (timed_out_count es)
timed_out_count (_ ∷ es) = timed_out_count es

abbrev EntriesOf : String → List (ℕ × SeqEntry) → Type 0
EntriesOf m = All (λ e. (e.1.msg_id == m) ≡ true)

select-EntriesOf :
    (m : String) (r : List (ℕ × SeqEntry)) → EntriesOf m r → select (entry_not_of m) r ≡ []
select-EntriesOf m [] h = refl
select-EntriesOf m (e ∷ r) h = rw h.0 (select-EntriesOf m r h.1)

given_up_counts :
    (m i : String) (r : List (ℕ × SeqEntry))
    → (sent_count (clean_up_events m r ++ performs_total_timeout i m ∷ []) ≡ 0)
      × (timed_out_count (clean_up_events m r ++ performs_total_timeout i m ∷ []) ≡ 1)
given_up_counts m i [] = (refl, refl)
given_up_counts m i ((k, v) ∷ r) = ground (arith, given_up_counts m i r)

-- The only pending timer is that of `t`, and all entries are of its message.
record Lone (t : Timer) (s : MqLogic) : Type 0 where
  only : s.timers ≡ t ∷ []
  entries : EntriesOf t.msg_id s.seq_map

fire-Lone :
    (t : Timer) (s : MqLogic) → Lone t s → fire t.timer_id s ≡ retry t (record s { timers = [] })
unfolding fire find_timer fire_found clear_timeout
fire-Lone t s l = simp (l.only, ==_refl t.timer_id)

-- What the loop is to end in: nothing pending, nothing kept, so many sends, one time-out.
abbrev pub GivesUp : ℕ → MqLogic × List Event → Type 0
GivesUp n r =
    (r.0.timers ≡ []) × (r.0.seq_map ≡ []) × (sent_count r.1 ≡ n) × (timed_out_count r.1 ≡ 1)

known_head :
    (s : MqLogic) (t : Timer) → s.timers ≡ t ∷ [] → Inv s → is_some (get t.seq_id s.seq_map) ≡ true
known_head s t e v = rw (subst (All (λ x. get x.seq_id s.seq_map ≡ some (entry_of x))) e v.known).0

retry_last :
    (t : Timer) (s : MqLogic)
    → Inv s
    → Lone t s
    → reached_max s t.retry_count ≡ true
    → GivesUp 0 (retry t (record s { timers = [] }))
unfolding retry
retry_last t s v l last =
    rw (there, last, clean_up_lem t.msg_id (record s { timers = [] }) v.distinct v.ticketed tt)
      (refl, select-EntriesOf t.msg_id s.seq_map l.entries, counts.0, counts.1)
  where
    counts :
        (sent_count
            (clean_up_events t.msg_id s.seq_map ++ performs_total_timeout s.id t.msg_id ∷ [])
          ≡ 0)
        × (timed_out_count
              (clean_up_events t.msg_id s.seq_map ++ performs_total_timeout s.id t.msg_id ∷ [])
            ≡ 1)
    counts = given_up_counts t.msg_id s.id s.seq_map

    there : is_some (get t.seq_id s.seq_map) ≡ true
    there = known_head s t l.only v

-- The timer that a retry leaves pending.
abbrev resent : Timer → MqLogic → Timer
resent t s = record {
  timer_id = s.next_timer_id;
  dest = t.dest;
  payload = t.payload;
  msg_id = t.msg_id;
  seq_id = suc s.max_seq_id;
  retry_count = suc t.retry_count;
}

retry_more :
    (t : Timer) (s : MqLogic)
    → Inv s
    → Lone t s
    → reached_max s t.retry_count ≡ false
    → retry t (record s { timers = [] }) ≡ (
      (perform_send t.dest t.payload t.msg_id t.retry_count (record s { timers = [] })).0,
      retries_send s.id t.msg_id t.retry_count
          ∷ performs_send s.id t.dest t.payload t.msg_id (suc s.max_seq_id)
          ∷ [],
    )
unfolding retry perform_send
retry_more t s v l more = rw (known_head s t l.only v, more)

-- One round of the loop on a lone timer.
round_lem :
    (fuel : ℕ) (t : Timer) (s : MqLogic)
    → Lone t s
    → unacknowledged (suc fuel) s ≡ (
        let (s', es) = retry t (record s { timers = [] }) in
        let (s'', es') = unacknowledged fuel s' in (s'', es ++ es'))
unfolding unacknowledged
round_lem fuel t s l =
    ap (λ ts. drain (unacknowledged fuel) ts s) l.only
    ∙ ap (λ r. let (s'', es') = unacknowledged fuel r.0 in (s'', r.1 ++ es')) (fire-Lone t s l)

unacknowledged_done : (fuel : ℕ) (s : MqLogic) → s.timers ≡ [] → unacknowledged fuel s ≡ (s, [])
unfolding unacknowledged drain
unacknowledged_done zero s e = refl
unacknowledged_done (suc fuel) s e = ap (λ ts. drain (unacknowledged fuel) ts s) e

sent_count-append : (xs ys : List Event) → sent_count (xs ++ ys) ≡ sent_count xs + sent_count ys
sent_count-append [] ys = omega arith
sent_count-append (performs_send i d p m k ∷ xs) ys = omega (arith, sent_count-append xs ys)
sent_count-append (performs_clean_up m k ∷ xs) ys = sent_count-append xs ys
sent_count-append (performs_total_timeout i m ∷ xs) ys = sent_count-append xs ys
sent_count-append (retries_send i m n ∷ xs) ys = sent_count-append xs ys

append_nil_counts :
    (xs : List Event)
    → (sent_count (xs ++ []) ≡ sent_count xs) × (timed_out_count (xs ++ []) ≡ timed_out_count xs)
append_nil_counts xs = rw (append-nil xs) (refl, refl)

no_timers-Inv : (s : MqLogic) → Inv s → Inv (record s { timers = [] })
no_timers-Inv s v = record {
  distinct = v.distinct;
  ticketed = v.ticketed;
  bounded = v.bounded;
  in_step = v.in_step;
  known = tt;
}

resent-Lone :
    (t : Timer) (s : MqLogic) (n : ℕ)
    → Lone t s
    → Allows s (t.retry_count + suc n)
    → let s' =
        (perform_send t.dest t.payload t.msg_id t.retry_count (record s { timers = [] })).0 in
      Lone (resent t s) s' × Allows s' (suc t.retry_count + n)
unfolding perform_send
resent-Lone t s n l a = (
  record { only = refl; entries = All-put _ _ _ s.seq_map (==_refl t.msg_id) l.entries },
  subst (Allows s) (omega arith) a,
)

unacknowledged_lem :
    (n fuel : ℕ) (t : Timer) (s : MqLogic)
    → n < fuel
    → Inv s
    → Lone t s
    → Allows s (t.retry_count + n)
    → GivesUp n (unacknowledged fuel s)
unacknowledged_lem n zero t s h v l a = absurd (omega arith)
unacknowledged_lem zero (suc fuel) t s h v l a =
    let g =
      retry_last t s v l (reached_max_lem s (t.retry_count + 0) t.retry_count a ∙ ground arith) in
    rw (round_lem fuel t s l, unacknowledged_done fuel (retry t (record s { timers = [] })).0 g.0)
      (
        g.0,
        g.1,
        (append_nil_counts (retry t (record s { timers = [] })).1).0 ∙ g.2,
        (append_nil_counts (retry t (record s { timers = [] })).1).1 ∙ g.3,
      )
unacknowledged_lem (suc n) (suc fuel) t s h v l a =
    let s' = (perform_send t.dest t.payload t.msg_id t.retry_count (record s { timers = [] })).0 in
    let next = resent-Lone t s n l a in
    let ih =
      unacknowledged_lem n fuel (resent t s) s' (omega arith)
        (perform_send-Inv t.dest t.payload t.msg_id t.retry_count _ (no_timers-Inv s v)) next.0
        next.1 in
    rw
      (
        round_lem fuel t s l,
        retry_more t s v l
            (reached_max_lem s (t.retry_count + suc n) t.retry_count a ∙ ground arith),
      )
      (ih.0, ih.1, ap suc ih.2, ih.3)

after_first :
    (c : Config) (d : Dest) (bytes : List ℕ) (m : String) (max fuel : ℕ)
    → 0 < max
    → Allows (new c) max
    → max ≤ fuel
    → let r = perform_send d bytes m 0 (new c) in
      GivesUp (max - 1) (unacknowledged fuel r.0) × (sent_count r.1 ≡ 1)
unfolding perform_send
after_first c d bytes m max fuel pos a h = (
  unacknowledged_lem (max - 1) fuel first _ (omega arith)
      (unfold perform_send in perform_send-Inv d bytes m 0 (new c) (new-Inv c))
      (unfold new put in record { only = refl; entries = (==_refl m, tt) })
      (subst (Allows (new c)) (omega arith) a),
  refl,
)
  where
    first : Timer
    first = record {
      timer_id = (new c).next_timer_id;
      dest = d;
      payload = bytes;
      msg_id = m;
      seq_id = suc (new c).max_seq_id;
      retry_count = 1;
    }

-- A message handed to a new sender and never acknowledged is sent exactly `max` times, the number of
-- time-outs that fit in the total time-out, rounded up; then one total time-out is reported, and no
-- timer and no entry is left. Each round of the loop is an expired timer, and `max` rounds suffice.
pub send-unacknowledged :
    (c : Config) (d : Dest) (bytes : List ℕ) (m : String) (max fuel : ℕ) {s : MqLogic}
    {es : List Event}
    → 0 < max
    → Allows (new c) max
    → max ≤ fuel
    → send d (buffer bytes) m (new c) ≡ ok (s, es)
    → GivesUp (max - 1) (unacknowledged fuel s) × (sent_count es ≡ 1)
unfolding send send_buffer
send-unacknowledged c d bytes m max fuel {s} {es} pos a h e =
    subst (λ r. GivesUp (max - 1) (unacknowledged fuel r.0) × (sent_count r.1 ≡ 1)) first
      (after_first c d bytes m max fuel pos a h)
  where
    first : perform_send d bytes m 0 (new c) ≡ (s, es)
    first = ground arith
