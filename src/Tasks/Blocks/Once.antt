-- ===== src/Tasks/Blocks/Once.antt =====
-- A message that waits for a block, from its arrival to the task queue: `handleMessageFromMqWithBlockWait`
-- and `processMessageInBlocks` of main-server/src/core/request_process_manager.js.
use ndidplatform_api.Base.{
  ℕ, zero, suc, ◌≤◌, ◌<◌, ◌≡◌, refl, ap, subst, Bool, true, false, Option, none, some, List, [],
  ◌∷◌, All, arith,
}
use package.ndidplatform_api.Tasks.Blocks.{
  Phase, arriving, saving, removing, returned, Flow, new, remove_at, Event, handler, block, look_up,
  test_lock, fetch, finish, ids_in_range, skip_if_locked, add_if_saved, release, step, run,
}
use package.ndidplatform_api.Tasks.Blocks.Tracked.{
  covering, due, ahead, IsInPhase, IsTracked, new-IsTracked, at_phase, handler_step-IsTracked,
}
use package.ndidplatform_api.Tasks.Blocks.Fetched.{
  block-IsTracked, remove_at-Weighed, ids_in_range-IsTracked, skip_if_locked-IsTracked,
  add_if_saved-IsTracked, release-IsTracked,
}

phase-ids_in_range :
    (o : Option ((ℕ × ℕ) × List (ℕ × ℕ))) (s : Flow) → (ids_in_range o s).phase ≡ s.phase
unfolding ids_in_range
phase-ids_in_range none s = refl
phase-ids_in_range (some (r, rs)) s = refl

phase-skip_if_locked : (n : ℕ) (s : Flow) → (skip_if_locked n s).phase ≡ s.phase
unfolding skip_if_locked
phase-skip_if_locked zero s = refl
phase-skip_if_locked (suc n) s = refl

phase-add_if_saved : (n : ℕ) (s : Flow) → (add_if_saved n s).phase ≡ s.phase
unfolding add_if_saved
phase-add_if_saved zero s = refl
phase-add_if_saved (suc n) s = refl

phase-release : (p : Phase) (n : ℕ) (s : Flow) → (release p n s).phase ≡ s.phase
unfolding release
phase-release arriving n s = refl
phase-release saving n s = refl
phase-release removing n s = refl
phase-release (returned true) zero s = refl
phase-release (returned true) (suc n) s = refl
phase-release (returned false) zero s = refl
phase-release (returned false) (suc n) s = refl

keep_phase : {p : Phase} (s : Flow) → s.phase ≡ p → (ahead s ≤ due s) × IsInPhase p s → IsTracked s
unfolding IsTracked
keep_phase s q h = (h.0, at_phase s q h.1)

-- A block that stands for the next height has another app hash than the one before.
abbrev pub Changed : Event → Type 0
Changed (block h c) = c ≡ true
Changed e = Unit

step-IsTracked : (e : Event) (s : Flow) → Changed e → IsTracked s → IsTracked (step e s)
unfolding IsTracked step
step-IsTracked (handler e) s c h = handler_step-IsTracked s.phase e s refl h.0 h.1
step-IsTracked (block b x) s c h = rw c (block-IsTracked b s h)
step-IsTracked (look_up i) s c h =
    keep_phase (ids_in_range (remove_at i s.ranges) s) (phase-ids_in_range (remove_at i s.ranges) s)
      (ids_in_range-IsTracked (remove_at i s.ranges) s.phase s refl
        (remove_at-Weighed s.height i s.ranges) h.0 h.1)
step-IsTracked test_lock s c h =
    keep_phase (skip_if_locked s.found s) (phase-skip_if_locked s.found s)
      (skip_if_locked-IsTracked s.found s.phase s refl h.0 h.1)
step-IsTracked fetch s c h =
    keep_phase (add_if_saved s.fetching s) (phase-add_if_saved s.fetching s)
      (add_if_saved-IsTracked s.fetching s.phase s refl h.0 h.1)
step-IsTracked finish s c h =
    keep_phase (release s.phase s.tasks s) (phase-release s.phase s.tasks s)
      (release-IsTracked s.tasks s.phase s refl h.0 h.1)

run-IsTracked : (es : List Event) (s : Flow) → All Changed es → IsTracked s → IsTracked (run es s)
unfolding run
run-IsTracked [] s c h = h
run-IsTracked (e ∷ es) s c h = run-IsTracked es (step e s) c.1 (step-IsTracked e s c.0 h)

-- The handler has returned, the block that the message names has come, and no call for a block is
-- at work.
unfoldable pub IsSettled : Flow → Type 0
IsSettled s =
    ((b : Bool) × (s.phase ≡ returned b))
    × (s.height < s.latest)
    × (s.ranges ≡ [])
    × (s.found ≡ 0)
    × (s.fetching ≡ 0)

tracked_once :
    (p : Phase) (s : Flow)
    → ahead s ≤ due s
    → IsInPhase p s
    → (s.tasks ≤ 1) × (s.tasks ≡ 1 → s.height < s.latest)
unfolding IsInPhase due
tracked_once arriving s le h = (ground arith, λ o. absurd (cc))
tracked_once saving s le h = (ground arith, λ o. absurd (cc))
tracked_once removing s le h = (ground arith, λ o. absurd (cc))
tracked_once (returned true) s le h = (omega arith, λ o. ground arith)
tracked_once (returned false) s le h = (ground arith, λ o. ground arith)

-- However the handler and the blocks interleave, if every new block has a new app hash, a message is
-- added to the queue at most once, and only after the block that it names has come.
pub added_in_time :
    (height latest : ℕ) (es : List Event)
    → All Changed es
    → ((run es (new height latest)).tasks ≤ 1)
      × ((run es (new height latest)).tasks ≡ 1
          → (run es (new height latest)).height < (run es (new height latest)).latest)
unfolding IsTracked
added_in_time height latest es c =
    let h = run-IsTracked es (new height latest) c (new-IsTracked height latest) in
    tracked_once (run es (new height latest)).phase (run es (new height latest)) h.0 h.1

settled_once :
    (b : Bool) (s : Flow)
    → s.phase ≡ returned b
    → IsTracked s
    → s.height < s.latest
    → s.ranges ≡ []
    → s.found ≡ 0
    → s.fetching ≡ 0
    → s.tasks ≡ 1
unfolding IsTracked IsInPhase ahead due covering
settled_once true s p h l r f g = (subst (λ x. IsInPhase x s) p h.1).1
settled_once false s p h l r f g =
    let e = (subst (λ x. IsInPhase x s) p h.1).0 in let c = ap (covering s.height) r in ground arith

-- However the handler and the blocks interleave, if every new block has a new app hash, then once
-- the handler has returned, the block that the message names has come and no call for a block is at
-- work, the message has been added to the queue exactly once: none is lost between the two.
pub settled_exactly_once :
    (height latest : ℕ) (es : List Event)
    → All Changed es
    → IsSettled (run es (new height latest))
    → (run es (new height latest)).tasks ≡ 1
unfolding IsSettled
settled_exactly_once height latest es c ((b, p), l, r, f, g) =
    settled_once b (run es (new height latest)) p
      (run-IsTracked es (new height latest) c (new-IsTracked height latest)) l r f g
