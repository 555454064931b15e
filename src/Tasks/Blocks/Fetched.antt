-- ===== src/Tasks/Blocks/Fetched.antt =====
-- That new blocks and the calls of `processMessageInBlocks` (main-server/src/core/request_process_manager.js)
-- keep what holds of a waiting message.
use ndidplatform_api.Base.{
  ℕ, zero, suc, ◌+◌, ◌-◌, ◌≤◌, ◌≡◌, refl, sym, ◌∙◌, inl, inr, true, false, Option, none, some, List,
  [], ◌∷◌, if◌then◌else◌, ltb, Bool-cases, arith,
}
use package.ndidplatform_api.Tasks.Blocks.{
  Phase, arriving, saving, removing, returned, Flow, covers, put_back, remove_at, process_new_block,
  ids_in_range, skip_if_locked, add_if_saved, release,
}
use package.ndidplatform_api.Tasks.Blocks.Tracked.{
  covering, covering-last, due, ahead, IsInPhase, IsTracked,
}

-- A new block: what is due is what is ahead, or the block makes it both.
block-ahead :
    (b : ℕ) (s : Flow)
    → ahead (process_new_block b true s) + due s ≡ ahead s + due (process_new_block b true s)
unfolding process_new_block ahead due covers
block-ahead b s = elim (Bool-cases (ltb s.latest b)) [
  | inl t ↦
      rw (t, covering-last s.height s.ranges (b - 1 - (b - s.latest - 1), b - 1)) (ground arith)
  | inr f ↦ rw f refl
]

block-due : (b : ℕ) (s : Flow) → due s ≡ 1 → due (process_new_block b true s) ≡ 1
unfolding process_new_block due
block-due b s h = elim (Bool-cases (ltb s.latest b)) [
  | inl t ↦ rw t (ground arith)
  | inr f ↦ rw f h
]

block-kept :
    (b : ℕ) (s : Flow)
    → ((process_new_block b true s).tasks ≡ s.tasks)
      × ((process_new_block b true s).lock ≡ s.lock)
      × ((process_new_block b true s).saved ≡ s.saved)
      × ((process_new_block b true s).listed ≡ s.listed)
      × ((process_new_block b true s).found ≡ s.found)
      × ((process_new_block b true s).fetching ≡ s.fetching)
unfolding process_new_block
block-kept b s = elim (Bool-cases (ltb s.latest b)) [
  | inl t ↦ rw t (refl, refl, refl, refl, refl, refl)
  | inr f ↦ rw f (refl, refl, refl, refl, refl, refl)
]

IsInPhase-block :
    (p : Phase) (b : ℕ) (s : Flow) → IsInPhase p s → IsInPhase p (process_new_block b true s)
unfolding IsInPhase
IsInPhase-block arriving b s h =
    let k = block-kept b s in (k.2 ∙ h.0, k.3 ∙ h.1, k.4 ∙ h.2, k.5 ∙ h.3, k.0 ∙ h.4)
IsInPhase-block saving b s h = let k = block-kept b s in (k.1 ∙ h.0, k.5 ∙ h.1, k.0 ∙ h.2)
IsInPhase-block removing b s h =
    let k = block-kept b s in (k.1 ∙ h.0, k.5 ∙ h.1, k.0 ∙ h.2, block-due b s h.3)
IsInPhase-block (returned true) b s h =
    let k = block-kept b s in (k.2 ∙ h.0, k.0 ∙ h.1, block-due b s h.2)
IsInPhase-block (returned false) b s h =
    let e = block-ahead b s in
    let k = block-kept b s in
    (omega arith, k.1 ∙ h.1, λ z. (k.2 ∙ (h.2 (sym k.0 ∙ z)).0, k.3 ∙ (h.2 (sym k.0 ∙ z)).1))

phase-block : (b : ℕ) (s : Flow) → (process_new_block b true s).phase ≡ s.phase
unfolding process_new_block
phase-block b s = elim (Bool-cases (ltb s.latest b)) [ inl t ↦ rw t refl | inr f ↦ rw f refl ]

pub block-IsTracked : (b : ℕ) (s : Flow) → IsTracked s → IsTracked (process_new_block b true s)
unfolding IsTracked process_new_block
block-IsTracked b s h = (ahead_le b s h.0, rw (phase-block b s) (IsInPhase-block s.phase b s h.1))
  where
    ahead_le :
        (b : ℕ) (s : Flow)
        → ahead s ≤ due s
        → ahead (process_new_block b true s) ≤ due (process_new_block b true s)
    ahead_le b s le = let e = block-ahead b s in omega arith

-- The range that is taken out was counted.
unfoldable pub Weighed : ℕ → List (ℕ × ℕ) → Option ((ℕ × ℕ) × List (ℕ × ℕ)) → Type 0
Weighed h rs none = Unit
Weighed h rs (some (r, qs)) = covering h rs ≡ (if covers h r then 1 else 0) + covering h qs

pub remove_at-Weighed : (h i : ℕ) (rs : List (ℕ × ℕ)) → Weighed h rs (remove_at i rs)
unfolding Weighed remove_at covering
remove_at-Weighed h i [] = tt
remove_at-Weighed h zero (r ∷ rs) = refl
remove_at-Weighed h (suc i) (r ∷ rs) = further (remove_at i rs) (remove_at-Weighed h i rs)
  where
    further :
        (o : Option ((ℕ × ℕ) × List (ℕ × ℕ))) → Weighed h rs o → Weighed h (r ∷ rs) (put_back r o)
    further none w = tt
    further (some (q, qs)) w = rw w (omega arith)

pub ids_in_range-IsTracked :
    (o : Option ((ℕ × ℕ) × List (ℕ × ℕ))) (p : Phase) (s : Flow)
    → s.phase ≡ p
    → Weighed s.height s.ranges o
    → ahead s ≤ due s
    → IsInPhase p s
    → (ahead (ids_in_range o s) ≤ due (ids_in_range o s)) × IsInPhase p (ids_in_range o s)
unfolding Weighed IsInPhase ids_in_range ahead due
ids_in_range-IsTracked none p s q w le h = (le, h)
ids_in_range-IsTracked (some (r, rs)) arriving s q w le h = ground arith
ids_in_range-IsTracked (some (r, rs)) saving s q w le h = ground arith
ids_in_range-IsTracked (some (r, rs)) removing s q w le h = ground arith
ids_in_range-IsTracked (some (r, rs)) (returned true) s q w le h = ground arith
ids_in_range-IsTracked (some (r, rs)) (returned false) s q w le h = ground arith

pub skip_if_locked-IsTracked :
    (n : ℕ) (p : Phase) (s : Flow)
    → s.found ≡ n
    → ahead s ≤ due s
    → IsInPhase p s
    → (ahead (skip_if_locked n s) ≤ due (skip_if_locked n s)) × IsInPhase p (skip_if_locked n s)
unfolding IsInPhase skip_if_locked ahead due
skip_if_locked-IsTracked zero p s q le h = (le, h)
skip_if_locked-IsTracked (suc n) arriving s q le h = ground arith
skip_if_locked-IsTracked (suc n) saving s q le h = ground arith
skip_if_locked-IsTracked (suc n) removing s q le h = ground arith
skip_if_locked-IsTracked (suc n) (returned true) s q le h = ground arith
skip_if_locked-IsTracked (suc n) (returned false) s q le h = ground arith

pub add_if_saved-IsTracked :
    (n : ℕ) (p : Phase) (s : Flow)
    → s.fetching ≡ n
    → ahead s ≤ due s
    → IsInPhase p s
    → (ahead (add_if_saved n s) ≤ due (add_if_saved n s)) × IsInPhase p (add_if_saved n s)
unfolding IsInPhase add_if_saved ahead due
add_if_saved-IsTracked zero p s q le h = (le, h)
add_if_saved-IsTracked (suc n) arriving s q le h = ground arith
add_if_saved-IsTracked (suc n) saving s q le h = ground arith
add_if_saved-IsTracked (suc n) removing s q le h = ground arith
add_if_saved-IsTracked (suc n) (returned true) s q le h = ground arith
add_if_saved-IsTracked (suc n) (returned false) s q le h = ground arith

pub release-IsTracked :
    (n : ℕ) (p : Phase) (s : Flow)
    → s.tasks ≡ n
    → ahead s ≤ due s
    → IsInPhase p s
    → (ahead (release p n s) ≤ due (release p n s)) × IsInPhase p (release p n s)
unfolding IsInPhase release ahead due
release-IsTracked zero (returned true) s q le h = (le, h)
release-IsTracked zero (returned false) s q le h = (le, h)
release-IsTracked n arriving s q le h = (le, h)
release-IsTracked n saving s q le h = (le, h)
release-IsTracked n removing s q le h = (le, h)
release-IsTracked (suc n) (returned true) s q le h = (le, h)
release-IsTracked (suc n) (returned false) s q le h = (le, (h.0, refl, λ z. absurd (cc)))
