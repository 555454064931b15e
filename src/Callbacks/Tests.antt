-- ===== src/Callbacks/Tests.antt =====
-- The theorems on callbacks that are tried again, at concrete ones.
use ndidplatform_api.Base.{◌⊎◌, ◌↔◌, All, ◌≡◌, refl, false, Option, none, some, List, [], ◌∷◌, ℕ}
use package.ndidplatform_api.Callbacks.{
  failed, Round, Callback, retrying, timed_out, callback_with_retry,
}
use package.ndidplatform_api.Callbacks.Retry.{GoesOn, retried_iff}

abbrev failing_at : ℕ → ℕ → Round
failing_at now next_retry = record {
  is_stopping = false;
  outcome = failed;
  should_retry = none;
  now = now;
  next_retry = next_retry;
}

abbrev callback : Option ℕ → Callback
callback deadline = record {
  start_time = 1000;
  deadline = deadline;
  has_should_retry_fn = false;
  retry_timeout = 20000;
}

abbrev rounds : List Round
rounds = failing_at 1100 5000 ∷ failing_at 6200 10000 ∷ failing_at 16300 20000 ∷ []

retried_iff_example :
    ((callback_with_retry (callback (some 7000)) rounds ≡ retrying)
      ↔ All (GoesOn (callback (some 7000))) rounds)
    × ((callback_with_retry (callback (some 7000)) rounds ≡ retrying)
        ⊎ (callback_with_retry (callback (some 7000)) rounds ≡ timed_out))
retried_iff_example =
    retried_iff (callback (some 7000)) rounds refl
      ((refl, refl), ((refl, refl), ((refl, refl), tt)))
