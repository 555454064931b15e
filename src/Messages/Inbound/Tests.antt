-- ===== src/Messages/Inbound/Tests.antt =====
-- Messages that come twice, wait and are processed, and the theorems about them.
use ndidplatform_api.Base.{
  one_if_some, false, ℕ, ◌+◌, ◌≤◌, ◌<◌, String, ◌≡◌, refl, true, false, none, some, List, [], ◌∷◌,
  All, Distinct, string_eq, get, put, delete, times, arith,
}
use package.ndidplatform_api.Messages.Inbound.{
  mq_send_total_timeout, new, on_message, restart, Event, receives, timer_fires, is_ready, finishes,
  restarts, loads_backlog, workers_change, run,
}
use package.ndidplatform_api.Messages.Inbound.Duplicates.{loads, processed_once}
use package.ndidplatform_api.Messages.Inbound.Kept.{acknowledged_is_saved}
use package.ndidplatform_api.Messages.Inbound.Faults.{
  processed_again_after_restart, unsaved_not_acknowledged,
}

abbrev id_of_first : String
id_of_first = "rp1:x_1"

-- A message comes while Tendermint is away, comes again, is tried and comes once more.
abbrev thrice : List Event
thrice =
    receives 1000 id_of_first "a" true false
    ∷ receives 2000 id_of_first "a" true false
    ∷ is_ready true
    ∷ timer_fires 500000 id_of_first
    ∷ loads_backlog
    ∷ workers_change false
    ∷ receives 600999 id_of_first "a" true true
    ∷ []

new-Distinct : Distinct new.raw_messages
unfolding ndidplatform_api.Messages.Inbound.new
new-Distinct = tt

processed_once_example :
    times id_of_first (run thrice new).processed
    ≤ 1
      + (loads thrice
          + (times id_of_first new.processed + times id_of_first new.raw_messages_to_retry))
unfolding ndidplatform_api.Messages.Inbound.mq_send_total_timeout
processed_once_example =
    processed_once 1000 id_of_first thrice new
      (
        (omega arith, omega arith),
        (
          (omega arith, omega arith),
          (tt, ((omega arith, omega arith), (tt, (tt, ((omega arith, omega arith), tt))))),
        ),
      )
      new-Distinct

-- One waits, the server restarts and loads it, and it is processed.
abbrev waits : List Event
waits = receives 1000 id_of_first "a" true false ∷ restarts 2000 ∷ []

waits_acknowledged : 1 ≤ times id_of_first (run waits new).acknowledged
unfolding ndidplatform_api.Base.get ndidplatform_api.Base.put ndidplatform_api.Base.delete
    ndidplatform_api.Messages.Inbound.run ndidplatform_api.Messages.Inbound.step
    ndidplatform_api.Messages.Inbound.on_message ndidplatform_api.Messages.Inbound.on_new_message
    ndidplatform_api.Messages.Inbound.remember
    ndidplatform_api.Messages.Inbound.save_and_acknowledge
    ndidplatform_api.Messages.Inbound.process_or_keep
    ndidplatform_api.Messages.Inbound.process_raw_message_switch
    ndidplatform_api.Messages.Inbound.mq_send_total_timeout ndidplatform_api.Messages.Inbound.new
    ndidplatform_api.Messages.Inbound.restart
    ndidplatform_api.Messages.Inbound.init_duplicate_inbound_message_timeout
    ndidplatform_api.Messages.Inbound.init_each ndidplatform_api.Messages.Inbound.init_timeout
    ndidplatform_api.Messages.Inbound.load_and_process_backlog_messages
    ndidplatform_api.Messages.Inbound.process_each
waits_acknowledged = omega arith

acknowledged_is_saved_example :
    1
    ≤ one_if_some (get id_of_first (run waits new).raw_messages)
      + times id_of_first (run waits new).finished
acknowledged_is_saved_example = acknowledged_is_saved id_of_first waits waits_acknowledged

abbrev heard : List Event
heard = receives 1000 id_of_first "a" true true ∷ finishes id_of_first ∷ []

heard-Distinct : Distinct (run heard new).duplicate_message_timeouts
unfolding ndidplatform_api.Base.get ndidplatform_api.Base.put ndidplatform_api.Base.delete
    ndidplatform_api.Messages.Inbound.run ndidplatform_api.Messages.Inbound.step
    ndidplatform_api.Messages.Inbound.on_message ndidplatform_api.Messages.Inbound.on_new_message
    ndidplatform_api.Messages.Inbound.remember
    ndidplatform_api.Messages.Inbound.save_and_acknowledge
    ndidplatform_api.Messages.Inbound.process_or_keep
    ndidplatform_api.Messages.Inbound.process_raw_message_switch
    ndidplatform_api.Messages.Inbound.mq_send_total_timeout ndidplatform_api.Messages.Inbound.new
    ndidplatform_api.Messages.Inbound.finish
heard-Distinct = (tt, tt)

heard_until : get id_of_first (run heard new).duplicate_message_timeouts ≡ some 601000
unfolding ndidplatform_api.Base.get ndidplatform_api.Base.put ndidplatform_api.Base.delete
    ndidplatform_api.Messages.Inbound.run ndidplatform_api.Messages.Inbound.step
    ndidplatform_api.Messages.Inbound.on_message ndidplatform_api.Messages.Inbound.on_new_message
    ndidplatform_api.Messages.Inbound.remember
    ndidplatform_api.Messages.Inbound.save_and_acknowledge
    ndidplatform_api.Messages.Inbound.process_or_keep
    ndidplatform_api.Messages.Inbound.process_raw_message_switch
    ndidplatform_api.Messages.Inbound.mq_send_total_timeout ndidplatform_api.Messages.Inbound.new
    ndidplatform_api.Messages.Inbound.finish
heard_until = refl

processed_again_after_restart_example :
    (on_message 6000 id_of_first "a" true true (restart 5000 (run heard new))).processed
    ≡ (id_of_first, "a") ∷ (run heard new).processed
processed_again_after_restart_example =
    processed_again_after_restart 5000 6000 601000 id_of_first "a" (run heard new) heard-Distinct
      heard_until (omega arith)

unknown_at_first : get id_of_first new.timer ≡ none
unfolding ndidplatform_api.Base.get ndidplatform_api.Base.put ndidplatform_api.Base.delete
    ndidplatform_api.Messages.Inbound.new
unknown_at_first = refl

abbrev sent_again : List Event
sent_again = receives 2000 id_of_first "a" true true ∷ receives 9000 id_of_first "a" true true ∷ []

unsaved_not_acknowledged_example :
    times id_of_first (run sent_again (on_message 1000 id_of_first "a" false true new)).acknowledged
    ≡ times id_of_first new.acknowledged
unfolding ndidplatform_api.Messages.Inbound.mq_send_total_timeout
unsaved_not_acknowledged_example =
    unsaved_not_acknowledged 1000 id_of_first "a" true sent_again new unknown_at_first
      ((omega arith, omega arith), ((omega arith, omega arith), tt))
