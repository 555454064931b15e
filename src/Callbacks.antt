-- ===== src/Callbacks.antt =====
-- `callbackWithRetry` of main-server/src/callback.js: the loop that posts a callback to a client
-- until the client answers or the loop gives up. The clock is read once in a round; the HTTP call,
-- the function that decides on another try, and the backoff's waits are the round's data. Metrics,
-- the saved callback data and the call with the client's answer are left out.
pub mod Retry
mod Tests
use ndidplatform_api.Base.{
  ℕ, ◌+◌, ◌-◌, Bool, true, false, ◌||◌, Option, none, some, List, [], ◌∷◌, if◌then◌else◌, ◌==◌, ltb,
  nat_eq,
}

-- What the post came to: an answer, a `FetchError` of type `max-size`, or any other error.
pub data Outcome : Type 0 where
  answered max_size failed : Outcome

pub record Round : Type 0 where
  -- `stopCallbackRetry`, at the head of the loop.
  pub is_stopping : Bool
  pub outcome : Outcome
  -- What the function that decides on another try says; it may throw.
  pub should_retry : Option Bool
  pub now : ℕ
  pub next_retry : ℕ

pub record Callback : Type 0 where
  pub start_time : ℕ
  pub deadline : Option ℕ
  pub has_should_retry_fn : Bool
  -- `config.callbackRetryTimeout * 1000`.
  pub retry_timeout : ℕ

pub data Result : Type 0 where
  retrying stopped delivered body_too_large given_up timed_out : Result

unfoldable pub decision : Option Bool → Result
decision none = retrying
decision (some true) = retrying
decision (some false) = given_up

-- `!deadline || Date.now() < deadline`.
unfoldable pub is_timed : Option ℕ → ℕ → Bool
is_timed none now = true
is_timed (some d) now = d == 0 || ltb now d

unfoldable pub is_overdue : Callback → Round → Bool
is_overdue c r = ltb c.retry_timeout (r.now - c.start_time + r.next_retry)

unfoldable pub check_time : Callback → Round → Result
check_time c r =
    if is_timed c.deadline r.now then if is_overdue c r then timed_out else retrying else retrying

unfoldable pub after_failure : Callback → Round → Result
after_failure c r = if c.has_should_retry_fn then decision r.should_retry else check_time c r

unfoldable pub after_post : Outcome → Callback → Round → Result
after_post answered c r = delivered
after_post max_size c r = body_too_large
after_post failed c r = after_failure c r

unfoldable pub try_once : Callback → Round → Result
try_once c r = if r.is_stopping then stopped else after_post r.outcome c r

-- The next round is only entered by a callback that is tried again.
unfoldable pub next : Result → Result → Result
next retrying rest = rest
next result rest = result

unfoldable pub callback_with_retry : Callback → List Round → Result
callback_with_retry c [] = retrying
callback_with_retry c (r ∷ rs) = next (try_once c r) (callback_with_retry c rs)
