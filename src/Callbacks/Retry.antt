-- ===== src/Callbacks/Retry.antt =====
-- When `callbackWithRetry` of main-server/src/callback.js gives up on a client that does not answer.
use ndidplatform_api.Base.{
  ◌⊎◌, ◌↔◌, Option, ◌+◌, ◌-◌, ℕ, ◌≤◌, ◌<◌, ◌≡◌, refl, inl, inr, true, false, none, some, List, [],
  ◌∷◌, nat_eq, All, Bool-cases, arith,
}
use package.ndidplatform_api.Callbacks.{
  failed, Round, Callback, retrying, timed_out, is_timed, is_overdue, check_time, after_failure,
  after_post, try_once, next, callback_with_retry,
}

-- The client cannot be reached, and the server is not stopping.
abbrev pub IsFailing : Round → Type 0
IsFailing r = (r.is_stopping ≡ false) × (r.outcome ≡ failed)

-- The retry timeout is not over when the next try is due, or the deadline is past.
abbrev pub IsPast : Option ℕ → ℕ → Type 0
IsPast none now = ⊥
IsPast (some d) now = (0 < d) × (d ≤ now)

abbrev pub GoesOn : Callback → Round → Type 0
GoesOn c r = IsPast c.deadline r.now ⊎ ((r.now - c.start_time) + r.next_retry ≤ c.retry_timeout)

failing_round :
    (c : Callback) (r : Round)
    → c.has_should_retry_fn ≡ false
    → IsFailing r
    → try_once c r ≡ check_time c r
unfolding try_once after_post after_failure
failing_round c r n f = rw (f.0, f.1, n) refl

timed_or_IsPast : (o : Option ℕ) (now : ℕ) → is_timed o now ≡ false → IsPast o now
unfolding is_timed
timed_or_IsPast none now h = absurd (cc)
timed_or_IsPast (some d) now h = ground arith

timed_not_IsPast : (o : Option ℕ) (now : ℕ) → is_timed o now ≡ true → IsPast o now → true ≡ false
unfolding is_timed
timed_not_IsPast none now h p = elim p [ ]
timed_not_IsPast (some d) now h p = ground arith

overdue_not_in_time :
    (c : Callback) (r : Round)
    → is_overdue c r ≡ true
    → (r.now - c.start_time) + r.next_retry ≤ c.retry_timeout
    → true ≡ false
unfolding is_overdue
overdue_not_in_time c r h p = ground arith

in_time :
    (c : Callback) (r : Round)
    → is_overdue c r ≡ false
    → (r.now - c.start_time) + r.next_retry ≤ c.retry_timeout
unfolding is_overdue
in_time c r h = ground arith

check_time_lem :
    (c : Callback) (r : Round)
    → ((check_time c r ≡ retrying) × GoesOn c r)
      ⊎ ((check_time c r ≡ timed_out) × (GoesOn c r → true ≡ false))
unfolding check_time
check_time_lem c r = elim (Bool-cases (is_timed c.deadline r.now)) [
  | inl t ↦ elim (Bool-cases (is_overdue c r)) [
    | inl o ↦ inr (
      rw (t, o) refl,
      λ g. elim g [
        | inl p ↦ timed_not_IsPast c.deadline r.now t p
        | inr p ↦ overdue_not_in_time c r o p
      ],
    )
    | inr o ↦ inl (rw (t, o) refl, inr (in_time c r o))
  ]
  | inr t ↦ inl (rw t refl, inl (timed_or_IsPast c.deadline r.now t))
]

-- Without a function that decides on another try, and if the client cannot be reached and the server
-- is not stopping: a callback is still tried exactly if in each round the next try was due within the
-- retry timeout or the deadline was past; else it has timed out. So once the deadline is past it is
-- tried for ever.
pub retried_iff :
    (c : Callback) (rs : List Round)
    → c.has_should_retry_fn ≡ false
    → All IsFailing rs
    → ((callback_with_retry c rs ≡ retrying) ↔ All (GoesOn c) rs)
      × ((callback_with_retry c rs ≡ retrying) ⊎ (callback_with_retry c rs ≡ timed_out))
unfolding callback_with_retry next
retried_iff c [] n f = ((λ h. tt, λ h. refl), inl refl)
retried_iff c (r ∷ rs) n f = elim (check_time_lem c r) [
  | inl g ↦
      let rest = retried_iff c rs n f.1 in
      rw (failing_round c r n f.0, g.0) ((λ h. (g.1, rest.0.0 h), λ h. rest.0.1 h.1), rest.1)
  | inr g ↦
      rw (failing_round c r n f.0, g.0)
        ((λ h. absurd (cc), λ h. let z = g.1 h.0 in absurd (cc)), inr refl)
]
