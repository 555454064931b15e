-- ===== src/Utils/LongTimeout/Tests.antt =====
-- Long timers on concrete times: 90 days take four legs.
use ndidplatform_api.Base.{ℕ, ◌≡◌, some, arith}
use ndidplatform_api.Utils.LongTimeout.{set_timeout}
use ndidplatform_api.Utils.LongTimeout.Elapsed.{elapsed, set_timeout_exact}

abbrev ninety_days : ℕ
ninety_days = 7776000000

set_timeout_exact_example : elapsed 4 (set_timeout ninety_days) ≡ some ninety_days
set_timeout_exact_example = set_timeout_exact ninety_days 4 (omega arith) (omega arith)
