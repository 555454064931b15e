-- ===== src/Tasks/Blocks/Tracked.antt =====
-- What holds of a message that waits for a block, and that the steps of
-- `handleMessageFromMqWithBlockWait` (main-server/src/core/request_process_manager.js) keep it.
use ndidplatform_api.Base.{
  ℕ, suc, ◌+◌, ◌≤◌, ◌≡◌, refl, sym, ap, subst, inl, inr, true, false, ◌&&◌, not, List, [], ◌∷◌,
  ◌++◌, if◌then◌else◌, leb, Bool-cases, arith,
}
use package.ndidplatform_api.Tasks.Blocks.{
  Phase, arriving, saving, removing, returned, Flow, new, covers, Progress, message_row, id_row,
  resume, handle_message, check_again, add_when_erased, handler_step,
}

-- The ranges that cover a height.
unfoldable pub covering : ℕ → List (ℕ × ℕ) → ℕ
covering h [] = 0
covering h (r ∷ rs) = (if covers h r then 1 else 0) + covering h rs

pub covering-last :
    (h : ℕ) (rs : List (ℕ × ℕ)) (r : ℕ × ℕ)
    → covering h (rs ++ r ∷ []) ≡ covering h rs + (if covers h r then 1 else 0)
unfolding covering
covering-last h [] r = omega arith
covering-last h (q ∷ rs) r = rw (covering-last h rs r) (omega arith)

-- 1 once the block has come.
unfoldable pub due : Flow → ℕ
due s = if leb s.latest s.height then 0 else 1

-- The calls for blocks that may still add the message to the queue.
unfoldable pub ahead : Flow → ℕ
ahead s = covering s.height s.ranges + s.found + s.fetching

unfoldable pub IsInPhase : Phase → Flow → Type 0
IsInPhase arriving s =
    (s.saved ≡ false) × (s.listed ≡ false) × (s.found ≡ 0) × (s.fetching ≡ 0) × (s.tasks ≡ 0)
IsInPhase saving s = (s.lock ≡ true) × (s.fetching ≡ 0) × (s.tasks ≡ 0)
IsInPhase removing s = (s.lock ≡ true) × (s.fetching ≡ 0) × (s.tasks ≡ 0) × (due s ≡ 1)
IsInPhase (returned true) s = (s.saved ≡ false) × (s.tasks ≡ 1) × (due s ≡ 1)
IsInPhase (returned false) s =
    (s.tasks + ahead s ≡ due s)
    × (s.lock ≡ false)
    × (s.tasks ≡ 0 → (s.saved ≡ true) × (s.listed ≡ true))

unfoldable pub IsTracked : Flow → Type 0
IsTracked s = (ahead s ≤ due s) × IsInPhase s.phase s

pub new-IsTracked : (height latest : ℕ) → IsTracked (new height latest)
unfolding IsTracked IsInPhase new ahead covering due
new-IsTracked height latest = (omega arith, (refl, refl, refl, refl, refl))

handle_message-IsTracked :
    (s : Flow) → ahead s ≤ due s → IsInPhase arriving s → IsTracked (handle_message s)
unfolding IsTracked IsInPhase handle_message ahead due
handle_message-IsTracked s le h = elim (Bool-cases (leb s.latest s.height)) [
  | inl t ↦ rw (t, t) (rw t at le, (refl, h.3, h.4))
  | inr f ↦ rw (f, f) (rw f at le, (h.0, ap suc h.4, refl))
]

none_due :
    (s : Flow)
    → s.tasks ≡ 0
    → ahead s ≤ due s
    → leb s.latest s.height ≡ true
    → s.tasks + ahead s ≡ due s
unfolding due
none_due s z le t = ground arith

check_again-IsTracked :
    (s : Flow)
    → ahead s ≤ due s
    → s.saved ≡ true
    → s.listed ≡ true
    → IsInPhase saving s
    → IsTracked (check_again s)
unfolding IsTracked IsInPhase check_again ahead due
check_again-IsTracked s le a b h = elim (Bool-cases (leb s.latest s.height)) [
  | inl t ↦ rw t (le, (none_due s h.2 le t, refl, λ z. (a, b)))
  | inr f ↦ rw f (le, (h.0, h.1, h.2, rw f refl))
]

add_when_erased-IsTracked :
    (s : Flow) → s.phase ≡ removing → IsTracked s → IsTracked (add_when_erased s)
unfolding IsTracked IsInPhase add_when_erased ahead due
add_when_erased-IsTracked s p h = elim (Bool-cases (not s.saved && not s.listed)) [
  | inl t ↦ rw t (h.0, (ground arith, ap suc (rw p at h.1).2, (rw p at h.1).3))
  | inr f ↦ rw f h
]

pub at_phase : {p : Phase} (s : Flow) → s.phase ≡ p → IsInPhase p s → IsInPhase s.phase s
at_phase s q h = subst (λ x. IsInPhase x s) (sym q) h

pub handler_step-IsTracked :
    (p : Phase) (e : Progress) (s : Flow)
    → s.phase ≡ p
    → ahead s ≤ due s
    → IsInPhase p s
    → IsTracked (handler_step p e s)
unfolding IsTracked IsInPhase handler_step ahead due
handler_step-IsTracked arriving resume s q le h = handle_message-IsTracked s le h
handler_step-IsTracked saving resume s q le h = elim (Bool-cases (s.saved && s.listed)) [
  | inl t ↦ rw t (check_again-IsTracked s le (ground arith) (ground arith) h)
  | inr f ↦ rw f (le, at_phase s q h)
]
handler_step-IsTracked removing resume s q le h = add_when_erased-IsTracked s q (le, at_phase s q h)
handler_step-IsTracked saving message_row s q le h = (le, at_phase (record s { saved = true }) q h)
handler_step-IsTracked saving id_row s q le h = (le, at_phase (record s { listed = true }) q h)
handler_step-IsTracked removing message_row s q le h =
    (le, at_phase (record s { saved = false }) q h)
handler_step-IsTracked removing id_row s q le h = (le, at_phase (record s { listed = false }) q h)
handler_step-IsTracked arriving message_row s q le h = (le, at_phase s q h)
handler_step-IsTracked arriving id_row s q le h = (le, at_phase s q h)
handler_step-IsTracked (returned b) e s q le h = (le, at_phase s q h)
