-- ===== src/Utils/LongTimeout.antt =====
-- main-server/src/utils/long_timeout.js: timers longer than the runtime's limit, in legs.
-- `fire` is the runtime calling the pending timer; its second result says whether the listener ran.
pub mod Elapsed
mod Tests
use ndidplatform_api.Base.{ℕ, ◌-◌, ◌≡◌, Bool, true, false, Option, none, some, if◌then◌else◌, leb}

-- 2^31 - 1
abbrev pub timeout_max : ℕ
timeout_max = 2147483647

-- What the pending `global.setTimeout` call is to do.
pub data Leg : Type 0 where
  listen restart : Leg

pub record Pending : Type 0 where
  pub delay : ℕ
  pub leg : Leg
  pub unreffed : Bool

pub record Timeout : Type 0 where
  pub after : ℕ
  pub unreffed : Bool
  pub timeout : Option Pending

unfoldable pub start : Timeout → Timeout
start t = record t {
  timeout = some (
      if leb t.after timeout_max
      then record { delay = t.after; leg = listen; unreffed = t.unreffed }
      else record { delay = timeout_max; leg = restart; unreffed = t.unreffed });
}

unfoldable pub set_timeout : ℕ → Timeout
unfolding start
set_timeout after = start (record { after = after; unreffed = false; timeout = none })

abbrev with_flag : Bool → Option Pending → Option Pending
with_flag b none = none
with_flag b (some p) = some (record p { unreffed = b })

unfoldable pub unref : Timeout → Timeout
unref t = if t.unreffed then t else record t { unreffed = true; timeout = with_flag true t.timeout }

unfoldable pub ref : Timeout → Timeout
ref t = if t.unreffed then record t { unreffed = false; timeout = with_flag false t.timeout } else t

unfoldable pub close : Timeout → Timeout
close t = record t { timeout = none }

fire_leg : Option Pending → Timeout → Timeout × Bool
unfolding start
fire_leg none t = (t, false)
fire_leg (some p) t = elim p.leg [
  | listen ↦ (record t { timeout = none }, true)
  | restart ↦ (start (record t { after = t.after - timeout_max }), false)
]

unfoldable pub fire : Timeout → Timeout × Bool
unfolding fire_leg
fire t = fire_leg t.timeout t

pub record Interval : Type 0 where
  pub after : ℕ
  pub time_left : ℕ
  pub unreffed : Bool
  pub timeout : Option Pending

unfoldable pub start_interval : Interval → Interval
start_interval t = record t {
  timeout = some (
      if leb t.time_left timeout_max
      then record { delay = t.time_left; leg = listen; unreffed = t.unreffed }
      else record { delay = timeout_max; leg = restart; unreffed = t.unreffed });
}

unfoldable pub set_interval : ℕ → Interval
unfolding start_interval
set_interval after =
    start_interval (record { after = after; time_left = after; unreffed = false; timeout = none })

fire_interval_leg : Option Pending → Interval → Interval × Bool
unfolding start_interval
fire_interval_leg none t = (t, false)
fire_interval_leg (some p) t = elim p.leg [
  | listen ↦ (start_interval (record t { time_left = t.after }), true)
  | restart ↦ (start_interval (record t { time_left = t.time_left - timeout_max }), false)
]

unfoldable pub fire_interval : Interval → Interval × Bool
unfolding fire_interval_leg
fire_interval t = fire_interval_leg t.timeout t
