-- ===== src/Mq/Logic/CleanUp.antt =====
-- What `_cleanUp` leaves behind: nothing of the message, and all of every other message.
use ndidplatform_api.Base.{
  ℕ, suc, String, ◌≡◌, refl, sym, ap, ◌∙◌, Bool, true, false, some, List, [], ◌∷◌, arith,
  if◌then◌else◌, ◌==◌, ==_iff, nat_eq, string_eq, select, select-select, select-congr, get-All, get,
  delete, not, Absent, Distinct, delete-head, ◌&&◌, ◌||◌, Bool-cases, inl, inr, All,
}
use ndidplatform_api.Mq.Logic.{
  MqLogic, SeqEntry, Timer, Event, performs_clean_up, clear_timeout, clean_up_loop, delete_all,
  clean_up,
}

abbrev pub entry_not_of : String → ℕ × SeqEntry → Bool
entry_not_of m e = not (e.1.msg_id == m)

abbrev pub timer_not_of : String → Timer → Bool
timer_not_of m t = not (t.msg_id == m)

-- The keys that the loop collects.
hits : String → List (ℕ × SeqEntry) → List ℕ
hits m [] = []
hits m ((k, v) ∷ r) = if v.msg_id == m then k ∷ hits m r else hits m r

-- The events of a clean-up, one for each entry of the message.
abbrev pub clean_up_events : String → List (ℕ × SeqEntry) → List Event
clean_up_events m [] = []
clean_up_events m ((k, v) ∷ r) =
    if v.msg_id == m
    then performs_clean_up m v.seq_id ∷ clean_up_events m r
    else clean_up_events m r

-- The timers whose ids no entry of the message names.
cleared : String → List (ℕ × SeqEntry) → List Timer → List Timer
cleared m [] ts = ts
cleared m ((k, v) ∷ r) ts = cleared m r (if v.msg_id == m then clear_timeout v.timer_id ts else ts)

clean_up_loop_lem :
    (m : String) (r : List (ℕ × SeqEntry)) (ts : List Timer)
    → clean_up_loop m r ts ≡ (hits m r, cleared m r ts, clean_up_events m r)
unfolding clean_up_loop hits cleared
clean_up_loop_lem m [] ts = refl
clean_up_loop_lem m ((k, v) ∷ r) ts = elim (Bool-cases (v.msg_id == m)) [
  | inl h ↦ rw h (rw (clean_up_loop_lem m r (clear_timeout v.timer_id ts)))
  | inr h ↦ rw h (rw (clean_up_loop_lem m r ts))
]

hits-Absent :
    (k : ℕ) (m : String) (r : List (ℕ × SeqEntry))
    → Absent k r
    → All (λ j. (j == k) ≡ false) (hits m r)
unfolding hits
hits-Absent k m [] h = tt
hits-Absent k m ((j, v) ∷ r) h = ground (arith, hits-Absent k m r h.1)

delete_all-miss :
    (ks : List ℕ) (k : ℕ) (v : SeqEntry) (r : List (ℕ × SeqEntry))
    → All (λ j. (j == k) ≡ false) ks
    → delete_all ks ((k, v) ∷ r) ≡ (k, v) ∷ delete_all ks r
unfolding delete_all delete
delete_all-miss [] k v r h = refl
delete_all-miss (j ∷ ks) k v r h =
    ground (arith, ==_iff k j, ==_iff j k, delete_all-miss ks k v (delete j r) h.1)

delete_all-hits :
    (m : String) (r : List (ℕ × SeqEntry))
    → Distinct r
    → delete_all (hits m r) r ≡ select (entry_not_of m) r
unfolding delete_all hits
delete_all-hits m [] d = refl
delete_all-hits m ((k, v) ∷ r) d = elim (Bool-cases (v.msg_id == m)) [
  | inl h ↦ rw h (ap (delete_all (hits m r)) (delete-head k v r d.0) ∙ delete_all-hits m r d.1)
  | inr h ↦ rw h (
      delete_all-miss (hits m r) k v r (hits-Absent k m r d.0)
      ∙ ap (λ x. (k, v) ∷ x) (delete_all-hits m r d.1))
]

-- Whether an entry of the message names the timer.
names : String → List (ℕ × SeqEntry) → ℕ → Bool
names m [] i = false
names m ((k, v) ∷ r) i = (v.msg_id == m && v.timer_id == i) || names m r i

cleared_lem :
    (m : String) (r : List (ℕ × SeqEntry)) (ts : List Timer)
    → cleared m r ts ≡ select (λ t. not (names m r t.timer_id)) ts
unfolding cleared names clear_timeout
cleared_lem m [] ts = sym (select_true ts)
  where
    select_true : (xs : List Timer) → select (λ t. true) xs ≡ xs
    select_true [] = refl
    select_true (x ∷ xs) = ap (λ r. x ∷ r) (select_true xs)
cleared_lem m ((k, v) ∷ r) ts = elim (Bool-cases (v.msg_id == m)) [
  | inl h ↦ rw h (
      cleared_lem m r _
      ∙ select-select (λ t. not (names m r t.timer_id)) (λ t. not (t.timer_id == v.timer_id)) ts
      ∙ select-congr _ _ ts (each ts h))
  | inr h ↦ rw h (cleared_lem m r ts)
]
  where
    each :
        (xs : List Timer)
        → (v.msg_id == m) ≡ true
        → All
            (λ t.
              (not (t.timer_id == v.timer_id) && not (names m r t.timer_id))
              ≡ not ((true && v.timer_id == t.timer_id) || names m r t.timer_id))
            xs
    each [] h = tt
    each (x ∷ xs) h =
        (ground (arith, ==_iff x.timer_id v.timer_id, ==_iff v.timer_id x.timer_id), each xs h)

-- An entry is kept under its own number, and its timer was the one made with it.
abbrev pub Ticketed : ℕ × SeqEntry → Type 0
Ticketed e = (e.1.seq_id ≡ e.0) × (suc e.1.timer_id ≡ e.0)

abbrev pub entry_of : Timer → SeqEntry
entry_of t = record { seq_id = t.seq_id; msg_id = t.msg_id; timer_id = t.timer_id }

names-Absent :
    (m : String) (i : ℕ) (r : List (ℕ × SeqEntry))
    → Absent (suc i) r
    → All Ticketed r
    → names m r i ≡ false
unfolding names
names-Absent m i [] a h = refl
names-Absent m i ((k, v) ∷ r) a h = ground (arith, names-Absent m i r a.1 h.1)

names_lem :
    (m : String) (t : Timer) (r : List (ℕ × SeqEntry))
    → Distinct r
    → All Ticketed r
    → get t.seq_id r ≡ some (entry_of t)
    → names m r t.timer_id ≡ (t.msg_id == m)
unfolding names get
names_lem m t [] d h g = cc
names_lem m t ((k, v) ∷ r) d h g = ground (
  arith,
  names-Absent m t.timer_id r,
  names_lem m t r d.1 h.1,
  ==_iff k t.seq_id,
  get-All Ticketed t.seq_id (entry_of t) ((k, v) ∷ r) h g,
)

-- A clean-up removes the entries and the timers of its message, and only those: the state is
-- otherwise the same, and one event is emitted for each entry that goes, in order.
-- The entries are distinct and ticketed, and each pending timer has its entry.
pub clean_up_lem :
    (m : String) (s : MqLogic)
    → Distinct s.seq_map
    → All Ticketed s.seq_map
    → All (λ t. get t.seq_id s.seq_map ≡ some (entry_of t)) s.timers
    → clean_up m s ≡ (
      record s {
        seq_map = select (entry_not_of m) s.seq_map;
        timers = select (timer_not_of m) s.timers;
      },
      clean_up_events m s.seq_map,
    )
unfolding clean_up
clean_up_lem m s d h k = rw (clean_up_loop_lem m s.seq_map s.timers) (λ i. (
  record s { seq_map = delete_all-hits m s.seq_map d i; timers = timers_left i },
  clean_up_events m s.seq_map,
))
  where
    known :
        (ts : List Timer)
        → All (λ t. get t.seq_id s.seq_map ≡ some (entry_of t)) ts
        → All (λ t. not (names m s.seq_map t.timer_id) ≡ timer_not_of m t) ts
    known [] q = tt
    known (t ∷ ts) q = (ap not (names_lem m t s.seq_map d h q.0), known ts q.1)

    timers_left : cleared m s.seq_map s.timers ≡ select (timer_not_of m) s.timers
    timers_left = cleared_lem m s.seq_map s.timers ∙ select-congr _ _ s.timers (known s.timers k)
