-- ===== src/Utils/LongTimeout/Elapsed.antt =====
-- A long timer runs its listener after exactly the time asked for.
use ndidplatform_api.Base.{
  ℕ, zero, suc, ◌+◌, ◌-◌, ◌*◌, ◌≤◌, ◌<◌, ◌≡◌, ap, ◌∙◌, inl, inr, false, Option, none, some,
  if◌then◌else◌, leb, arith, Bool-cases,
}
use ndidplatform_api.Utils.LongTimeout.{
  timeout_max, Pending, Timeout, start, set_timeout, fire, fire_leg, Interval, start_interval,
  set_interval, fire_interval, fire_interval_leg, unref, ref, close,
}

abbrev delay_of : Option Pending → ℕ
delay_of none = 0
delay_of (some p) = p.delay

abbrev plus : ℕ → Option ℕ → Option ℕ
plus n none = none
plus n (some m) = some (n + m)

-- The milliseconds until the listener runs, if it runs within so many legs.
pub elapsed : ℕ → Timeout → Option ℕ
elapsed zero t = none
elapsed (suc legs) t =
    let rest = plus (delay_of t.timeout) (elapsed legs (fire t).0) in
    if (fire t).1 then some (delay_of t.timeout) else rest

-- The runtime is never asked for more than it can wait.
abbrev pub InLimit : Option Pending → Type 0
InLimit none = Unit
InLimit (some p) = p.delay ≤ timeout_max

start-InLimit : (t : Timeout) → InLimit (start t).timeout
unfolding start
start-InLimit t = ground arith

elapsed_lem :
    (legs : ℕ) (t : Timeout)
    → t.after ≤ legs * timeout_max
    → 0 < legs
    → elapsed legs (start t) ≡ some t.after
unfolding elapsed fire start fire_leg
elapsed_lem zero t h p = absurd (omega arith)
elapsed_lem (suc legs) t h p = elim (Bool-cases (leb t.after timeout_max)) [
  | inl e ↦ rw e
  | inr e ↦ rw e (
      ap (plus timeout_max) (
        elapsed_lem legs (record t { after = t.after - timeout_max }) (ground arith) (ground arith))
      ∙ ap some (ground arith))
]

-- However long the time asked for, the listener runs after exactly that many milliseconds, the sum
-- of the legs' delays, within as many legs as the limit goes into the time, rounded up (one at
-- least).
pub set_timeout_exact :
    (after legs : ℕ)
    → after ≤ legs * timeout_max
    → 0 < legs
    → elapsed legs (set_timeout after) ≡ some after
unfolding set_timeout
set_timeout_exact after legs h p =
    elapsed_lem legs (record { after = after; unreffed = false; timeout = none }) h p

-- What may happen to a timer.
pub data Op : Type 0 where
  fires refs unrefs closes : Op

unfoldable pub step : Op → Timeout → Timeout
step fires t = (fire t).0
step refs t = ref t
step unrefs t = unref t
step closes t = close t

fire_leg-InLimit :
    (o : Option Pending) (t : Timeout) → InLimit t.timeout → InLimit (fire_leg o t).0.timeout
unfolding fire_leg start
fire_leg-InLimit none t h = h
fire_leg-InLimit (some p) t h = ground arith

-- If the pending leg asks the runtime for no more than its limit, it does not do so either once the
-- timer has fired, or was referenced, unreferenced or closed.
pub step-InLimit : (o : Op) (t : Timeout) → InLimit t.timeout → InLimit (step o t).timeout
unfolding step fire ref unref close
step-InLimit fires t h = fire_leg-InLimit t.timeout t h
step-InLimit refs t h = ground arith
step-InLimit unrefs t h = ground arith
step-InLimit closes t h = tt

abbrev later : ℕ → Option (ℕ × Interval) → Option (ℕ × Interval)
later n none = none
later n (some (m, t)) = some (n + m, t)

-- The time until an interval's listener runs next, and the interval then, within so many legs.
pub next_call : ℕ → Interval → Option (ℕ × Interval)
next_call zero t = none
next_call (suc legs) t =
    let rest = later (delay_of t.timeout) (next_call legs (fire_interval t).0) in
    if (fire_interval t).1 then some (delay_of t.timeout, (fire_interval t).0) else rest

next_call_lem :
    (legs : ℕ) (t : Interval)
    → t.time_left ≤ legs * timeout_max
    → 0 < legs
    → next_call legs (start_interval t)
      ≡ some (t.time_left, start_interval (record t { time_left = t.after }))
unfolding next_call fire_interval start_interval fire_interval_leg
next_call_lem zero t h p = absurd (omega arith)
next_call_lem (suc legs) t h p = elim (Bool-cases (leb t.time_left timeout_max)) [
  | inl e ↦ rw e
  | inr e ↦ rw e (
      ap (later timeout_max) (
        next_call_lem legs (record t { time_left = t.time_left - timeout_max }) (ground arith)
          (ground arith))
      ∙ ap (λ n. some (n, start_interval (record t { time_left = t.after }))) (ground arith))
]

-- An interval's listener runs after exactly the time asked for, and leaves the interval as it was
-- at first: so it runs again and again at that distance.
pub set_interval_periodic :
    (after legs : ℕ)
    → after ≤ legs * timeout_max
    → 0 < legs
    → next_call legs (set_interval after) ≡ some (after, set_interval after)
unfolding set_interval
set_interval_periodic after legs h p =
    next_call_lem legs
      (record { after = after; time_left = after; unreffed = false; timeout = none }) h p
