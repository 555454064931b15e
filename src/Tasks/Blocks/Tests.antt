-- ===== src/Tasks/Blocks/Tests.antt =====
-- Runs of waiting messages, and the theorems about them at concrete ones.
use ndidplatform_api.Base.{◌≡◌, refl, true, false, List, [], ◌∷◌, All, arith}
use package.ndidplatform_api.Tasks.Blocks.{
  Flow, new, Event, handler, message_row, id_row, resume, block, look_up, test_lock, fetch, finish,
  run,
}
use package.ndidplatform_api.Tasks.Blocks.Settle.{can_be_added}
use package.ndidplatform_api.Tasks.Blocks.Once.{
  Changed, IsSettled, added_in_time, settled_exactly_once,
}

-- The block comes while the rows are written, and looks them up while the lock is held.
abbrev overtaken : List Event
overtaken =
    handler resume
    ∷ handler message_row
    ∷ handler id_row
    ∷ block 8 true
    ∷ look_up 0
    ∷ handler resume
    ∷ test_lock
    ∷ handler id_row
    ∷ handler message_row
    ∷ handler resume
    ∷ finish
    ∷ []

-- The block comes after the handler has returned; the event for block 6 was missed.
abbrev waited : List Event
waited =
    handler resume
    ∷ handler id_row
    ∷ handler message_row
    ∷ handler resume
    ∷ block 5 true
    ∷ block 8 true
    ∷ look_up 1
    ∷ look_up 0
    ∷ test_lock
    ∷ fetch
    ∷ []

overtaken-once : (run overtaken (new 7 7)).tasks ≡ 1
unfolding ndidplatform_api.Tasks.Blocks.new ndidplatform_api.Tasks.Blocks.run
    ndidplatform_api.Tasks.Blocks.step ndidplatform_api.Tasks.Blocks.release
    ndidplatform_api.Tasks.Blocks.handler_step ndidplatform_api.Tasks.Blocks.skip_if_locked
    ndidplatform_api.Tasks.Blocks.ids_in_range ndidplatform_api.Tasks.Blocks.remove_at
    ndidplatform_api.Tasks.Blocks.process_new_block ndidplatform_api.Tasks.Blocks.handle_message
    ndidplatform_api.Tasks.Blocks.check_again ndidplatform_api.Tasks.Blocks.covers
    ndidplatform_api.Tasks.Blocks.add_when_erased ndidplatform_api.Tasks.Blocks.add_if_saved
overtaken-once = refl

waited-Changed : All Changed waited
waited-Changed = (tt, (tt, (tt, (tt, (refl, (refl, (tt, (tt, (tt, (tt, tt))))))))))

settled_exactly_once_example : (run waited (new 7 4)).tasks ≡ 1
unfolding ndidplatform_api.Tasks.Blocks.new ndidplatform_api.Tasks.Blocks.run
    ndidplatform_api.Tasks.Blocks.step ndidplatform_api.Tasks.Blocks.release
    ndidplatform_api.Tasks.Blocks.handler_step ndidplatform_api.Tasks.Blocks.skip_if_locked
    ndidplatform_api.Tasks.Blocks.ids_in_range ndidplatform_api.Tasks.Blocks.remove_at
    ndidplatform_api.Tasks.Blocks.process_new_block ndidplatform_api.Tasks.Blocks.handle_message
    ndidplatform_api.Tasks.Blocks.check_again ndidplatform_api.Tasks.Blocks.covers
    ndidplatform_api.Tasks.Blocks.add_when_erased ndidplatform_api.Tasks.Blocks.add_if_saved
    ndidplatform_api.Tasks.Blocks.Once.IsSettled
settled_exactly_once_example =
    settled_exactly_once 7 4 waited waited-Changed ((false, refl), omega arith, refl, refl, refl)

can_be_added_example :
    (rest : List Event) × All Changed rest × ((run rest (run waited (new 7 4))).tasks ≡ 1)
can_be_added_example = can_be_added 7 4 waited waited-Changed
