-- ===== src/Tasks/Blocks.antt =====
-- Waiting for a block, in main-server/src/core/request_process_manager.js
-- (`handleMessageFromMqWithBlockWait`, `processMessageInBlocks`) with `processNewBlock` of
-- main-server/src/tendermint/index.js and `handleTendermintNewBlock` of the roles' event_handlers.js.
-- A message must not be processed before the block that it names. One that is early is put into the
-- cache DB, and a new block fetches it from there; the handler and the blocks run interleaved at
-- every `await`. Locks and rows of the cache DB are kept per message id, so the state is the part of
-- them that belongs to one message, with the calls at work on it; an event is what happens between
-- two `await`s, and one that is not due changes nothing. Block heights are known from the start, the
-- chain id is a known one, and calls of the cache DB and of Tendermint succeed.
pub mod Tracked
pub mod Fetched
pub mod Once
pub mod Settle
mod Tests
use ndidplatform_api.Base.{
  ℕ, zero, suc, ◌+◌, ◌-◌, Bool, true, false, ◌&&◌, not, Option, none, some, List, [], ◌∷◌, ◌++◌,
  if◌then◌else◌, leb, ltb,
}

-- Where `handleMessageFromMqWithBlockWait` stands.
pub data Phase : Type 0 where
  arriving saving removing : Phase
  returned : Bool → Phase

pub record Flow : Type 0 where
  -- `message.height` and `tendermint.latestBlockHeight`.
  pub height : ℕ
  pub latest : ℕ
  -- `messageProcessLock[messageId]`.
  pub lock : Bool
  -- The rows `messageFromMQ` and `messageIdToProcessAtBlock`.
  pub saved : Bool
  pub listed : Bool
  pub phase : Phase
  -- Calls of `processMessageInBlocks`: the ranges not yet looked up, the lookups that found the id,
  -- and those that passed the lock and wait for `getMessageFromMQ`.
  pub ranges : List (ℕ × ℕ)
  pub found : ℕ
  pub fetching : ℕ
  -- How often the message was added to the task queue.
  pub tasks : ℕ

unfoldable pub new : ℕ → ℕ → Flow
new height latest = record {
  height = height;
  latest = latest;
  lock = false;
  saved = false;
  listed = false;
  phase = arriving;
  ranges = [];
  found = 0;
  fetching = 0;
  tasks = 0;
}

-- The row's key is in the range.
unfoldable pub covers : ℕ → ℕ × ℕ → Bool
covers h (from, to) = leb from h && leb h to

abbrev pub put_back : ℕ × ℕ → Option ((ℕ × ℕ) × List (ℕ × ℕ)) → Option ((ℕ × ℕ) × List (ℕ × ℕ))
put_back r none = none
put_back r (some (q, rs)) = some (q, r ∷ rs)

unfoldable pub remove_at : ℕ → List (ℕ × ℕ) → Option ((ℕ × ℕ) × List (ℕ × ℕ))
remove_at i [] = none
remove_at zero (r ∷ rs) = some (r, rs)
remove_at (suc i) (r ∷ rs) = put_back r (remove_at i rs)

-- What the handler waits for: the call of the cache DB on either row, or both.
pub data Progress : Type 0 where
  message_row id_row resume : Progress

pub data Event : Type 0 where
  handler : Progress → Event
  block : ℕ → Bool → Event
  look_up : ℕ → Event
  test_lock fetch finish : Event

-- Up to the first `await`; a message that need not wait goes to the queue.
unfoldable pub handle_message : Flow → Flow
handle_message s =
    if leb s.latest s.height
    then record s { lock = true; phase = saving }
    else record s { phase = returned true; tasks = suc s.tasks }

-- Both rows are written: has the block come in the meantime?
unfoldable pub check_again : Flow → Flow
check_again s =
    if leb s.latest s.height
    then record s { lock = false; phase = returned false }
    else record s { phase = removing }

-- `processNewBlock`, with whether the app hash differs from the last known one.
unfoldable pub process_new_block : ℕ → Bool → Flow → Flow
process_new_block block_height is_changed s =
    if ltb s.latest block_height
    then record s {
      latest = block_height;
      ranges =
          if is_changed
          then s.ranges ++ (block_height - 1 - (block_height - s.latest - 1), block_height - 1) ∷ []
          else s.ranges;
    }
    else s

-- `getMessageIdsToProcessAtBlock` answers one of the calls.
unfoldable pub ids_in_range : Option ((ℕ × ℕ) × List (ℕ × ℕ)) → Flow → Flow
ids_in_range none s = s
ids_in_range (some (r, rs)) s = record s {
  ranges = rs;
  found = if s.listed && covers s.height r then suc s.found else s.found;
}

unfoldable pub skip_if_locked : ℕ → Flow → Flow
skip_if_locked zero s = s
skip_if_locked (suc n) s = record s {
  found = n;
  fetching = if s.lock then s.fetching else suc s.fetching;
}

-- `getMessageFromMQ` answers.
unfoldable pub add_if_saved : ℕ → Flow → Flow
add_if_saved zero s = s
add_if_saved (suc n) s = record s { fetching = n; tasks = if s.saved then suc s.tasks else s.tasks }

-- The task is over: `releaseLock`, or `releaseLockAndCleanUp` for one that a block has fetched.
unfoldable pub release : Phase → ℕ → Flow → Flow
release (returned true) (suc n) s = record s { lock = false }
release (returned false) (suc n) s = record s { lock = false; saved = false; listed = false }
release p n s = s

unfoldable pub add_when_erased : Flow → Flow
add_when_erased s =
    if not s.saved && not s.listed
    then record s { phase = returned true; tasks = suc s.tasks }
    else s

unfoldable pub handler_step : Phase → Progress → Flow → Flow
handler_step arriving resume s = handle_message s
handler_step saving message_row s = record s { saved = true }
handler_step saving id_row s = record s { listed = true }
handler_step saving resume s = if s.saved && s.listed then check_again s else s
handler_step removing message_row s = record s { saved = false }
handler_step removing id_row s = record s { listed = false }
handler_step removing resume s = add_when_erased s
handler_step p e s = s

unfoldable pub step : Event → Flow → Flow
step (handler e) s = handler_step s.phase e s
step (block h c) s = process_new_block h c s
step (look_up i) s = ids_in_range (remove_at i s.ranges) s
step test_lock s = skip_if_locked s.found s
step fetch s = add_if_saved s.fetching s
step finish s = release s.phase s.tasks s

unfoldable pub run : List Event → Flow → Flow
run [] s = s
run (e ∷ es) s = run es (step e s)
