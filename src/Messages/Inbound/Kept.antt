-- ===== src/Messages/Inbound/Kept.antt =====
-- That a message that was acknowledged is processed, in main-server/src/mq/index.js.
use ndidplatform_api.Base.{
  ℕ, ◌+◌, ◌≤◌, String, ◌≡◌, true, List, nat_eq, string_eq, get, times, one_if_some,
}
use package.ndidplatform_api.Messages.Inbound.{
  Inbound, new, load_and_process_backlog_messages, Event, run,
}
use package.ndidplatform_api.Messages.Inbound.Saved.{IsSaved, run-IsSaved}

HasWorker : Inbound → Type 0
HasWorker s = s.has_worker ≡ true

new-IsSaved : (h : String) → IsSaved h new
unfolding new get
new-IsSaved h p = p

-- The server after anything at all, restarts too, once it has loaded its backlog.
abbrev pub resumed : List Event → Inbound
resumed before = load_and_process_backlog_messages (run before new)

-- Being processed, or waiting to be tried again.
abbrev pub in_hand : String → Inbound → ℕ
in_hand h s = one_if_some (get h s.raw_messages_to_retry) + one_if_some (get h s.in_progress)

-- Whatever came before, restarts too, and workers or none: each message that was ever acknowledged is
-- still saved in the cache DB, or its processing has ended, with success or an error.
pub acknowledged_is_saved :
    (h : String) (es : List Event)
    → 1 ≤ times h (run es new).acknowledged
    → 1 ≤ one_if_some (get h (run es new).raw_messages) + times h (run es new).finished
acknowledged_is_saved h es p = run-IsSaved h es new (new-IsSaved h) p
