-- ===== src/Mq/Logic/Tests.antt =====
-- Runs of the sender on small inputs, and the theorems at inputs that meet their hypotheses.
use ndidplatform_api.Base.{
  ◌≡◌, refl, some, none, List, [], ◌∷◌, arith, get, put, select, map, nat_eq, string_eq,
}
use ndidplatform_api.Mq.Logic.{
  MqLogic, Config, Dest, Timer, buffer, new, send, perform_send, clear_timeout, find_timer, fire,
  retry, clean_up, ok,
}
use ndidplatform_api.Mq.Logic.CleanUp.{clean_up_lem, entry_not_of, timer_not_of, clean_up_events}
use ndidplatform_api.Mq.Logic.Invariant.{Inv, Op, sends, fires, run, step, run-new-Inv}
use ndidplatform_api.Mq.Logic.Retry.{Silent, clean_up-Silent}
use ndidplatform_api.Mq.Logic.Unacknowledged.{GivesUp, unacknowledged, send-unacknowledged}

abbrev defaults : Config
defaults = record { total_timeout = some 100; timeout = some 30; id = none }

abbrev dest : Dest
dest = record { ip = "10.0.0.1"; port = 5555 }

abbrev traffic : List Op
traffic = sends dest (buffer (1 ∷ [])) "a" ∷ sends dest (buffer (2 ∷ [])) "b" ∷ fires 0 ∷ []

abbrev busy : MqLogic
busy = (run traffic (new defaults)).0

busy_timers : map (λ (t : Timer). t.seq_id) busy.timers ≡ 2 ∷ 3 ∷ []
unfolding run new step fire find_timer send perform_send retry get put clear_timeout
busy_timers = refl

run-new-Inv_example : Inv busy
run-new-Inv_example = run-new-Inv defaults traffic

clean_up_example : clean_up "a" busy ≡ (
  record busy {
    seq_map = select (entry_not_of "a") busy.seq_map;
    timers = select (timer_not_of "a") busy.timers;
  },
  clean_up_events "a" busy.seq_map,
)
clean_up_example = clean_up_lem "a" busy v.distinct v.ticketed v.known
  where
    v : Inv busy
    v = run-new-Inv defaults traffic

clean_up-Silent_example :
    Silent "a" (run (fires 1 ∷ fires 2 ∷ sends dest (buffer []) "c" ∷ []) (clean_up "a" busy).0).1
clean_up-Silent_example =
    clean_up-Silent "a" busy (fires 1 ∷ fires 2 ∷ sends dest (buffer []) "c" ∷ [])
      (run-new-Inv defaults traffic) (tt, (tt, (refl, tt)))

first_send :
    send dest (buffer (1 ∷ [])) "a" (new defaults)
    ≡ ok (perform_send dest (1 ∷ []) "a" 0 (new defaults))
unfolding send
first_send = refl

send-unacknowledged_example :
    GivesUp 3 (unacknowledged 4 (perform_send dest (1 ∷ []) "a" 0 (new defaults)).0)
unfolding new
send-unacknowledged_example =
    (send-unacknowledged defaults dest (1 ∷ []) "a" 4 4 (omega arith) (omega arith) (omega arith)
      first_send).0
