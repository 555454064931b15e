-- ===== src/Workers/LeastBusy.antt =====
-- Which worker `getWorker` of main-server/src/master-worker-interface/server.js chooses.
use ndidplatform_api.Base.{
  ◌≤◌, ◌≡◌, refl, subst, ◌≢◌, ◌⊎◌, inl, inr, true, false, ◌&&◌, not, Option, none, some, List, [],
  ◌∷◌, if◌then◌else◌, nat_eq, ltb, Bool-cases, All, All-imp, length, arith,
}
use package.ndidplatform_api.Workers.{
  Worker, Master, no_worker_available, type_error, none_available, is_better, least_busy, Choice,
  chosen, failed, found_or, choose, get_worker,
}
use package.ndidplatform_api.Workers.Books.{count_stopping, IsSound}
use package.ndidplatform_api.Workers.Sound.{Holds, least_busy-Holds}

-- Every worker that is not stopping has at least as many jobs.
abbrev pub Outdoes : Worker → Worker → Type 0
Outdoes best w = w.stopping ≡ false → best.job_count ≤ w.job_count

Leads : Option Worker → Worker → Type 0
Leads none w = w.stopping ≡ true
Leads (some best) w = Outdoes best w

abbrev better : Worker → Option Worker → Option Worker
better w best = if is_better w best then some w else best

better-Leads :
    (w : Worker) (best : Option Worker) (v : Worker) → Leads best v → Leads (better w best) v
unfolding Leads is_better
better-Leads w none v h = elim (Bool-cases (not w.stopping)) [
  | inl t ↦ simp t (λ k. absurd (cc))
  | inr f ↦ simp f h
]
better-Leads w (some b) v h = elim (Bool-cases (ltb w.job_count b.job_count && not w.stopping)) [
  | inl t ↦ simp t (λ k. let m = h k in ground arith)
  | inr f ↦ simp f h
]

better-Leads_self : (w : Worker) (best : Option Worker) → Leads (better w best) w
unfolding Leads is_better
better-Leads_self w none = elim (Bool-cases (not w.stopping)) [
  | inl t ↦ simp t (λ k. omega arith)
  | inr f ↦ simp f (ground arith)
]
better-Leads_self w (some b) = elim (Bool-cases (ltb w.job_count b.job_count && not w.stopping)) [
  | inl t ↦ simp t (λ k. omega arith)
  | inr f ↦ simp f (λ k. ground arith)
]

least_busy-Leads :
    (best : Option Worker) (ws : List Worker) (v : Worker)
    → Leads best v
    → Leads (least_busy best ws) v
unfolding least_busy
least_busy-Leads best [] v h = h
least_busy-Leads best (w ∷ ws) v h = least_busy-Leads (better w best) ws v (better-Leads w best v h)

least_busy-All_Leads :
    (best : Option Worker) (ws : List Worker) → All (Leads (least_busy best ws)) ws
unfolding least_busy
least_busy-All_Leads best [] = tt
least_busy-All_Leads best (w ∷ ws) = (
  least_busy-Leads (better w best) ws w (better-Leads_self w best),
  least_busy-All_Leads (better w best) ws,
)

-- What is chosen is not stopping.
awake :
    (best : Option Worker) (ws : List Worker)
    → Holds (λ w. w.stopping ≡ false) best
    → Holds (λ w. w.stopping ≡ false) (least_busy best ws)
unfolding least_busy is_better
awake best [] h = h
awake none (w ∷ ws) h = elim (Bool-cases (not w.stopping)) [
  | inl t ↦ simp t (awake (some w) ws (ground arith))
  | inr f ↦ simp f (awake none ws tt)
]
awake (some b) (w ∷ ws) h = elim (Bool-cases (ltb w.job_count b.job_count && not w.stopping)) [
  | inl t ↦ simp t (awake (some w) ws (ground arith))
  | inr f ↦ simp f (awake (some b) ws h)
]

-- Unless all are stopping, one is found.
pub all_stopping :
    (ws : List Worker) → All (λ w. w.stopping ≡ true) ws → count_stopping ws ≡ length ws
all_stopping [] h = refl
all_stopping (w ∷ ws) h = ground (arith, all_stopping ws h.1)

pub stopping-le : (ws : List Worker) → count_stopping ws ≤ length ws
stopping-le [] = omega arith
stopping-le (w ∷ ws) = ground (arith, stopping-le ws)

stopping_all : (ws : List Worker) → count_stopping ws ≡ length ws → All (λ w. w.stopping ≡ true) ws
stopping_all [] h = tt
stopping_all (w ∷ ws) h = ground (arith, stopping-le ws, stopping_all ws)

-- One of the list.
abbrev pub Among : Worker → List Worker → Type 0
Among w [] = ⊥
Among w (v ∷ ws) = (w ≡ v) ⊎ Among w ws

all-Among : (ws : List Worker) → All (λ w. Among w ws) ws
all-Among [] = tt
all-Among (w ∷ ws) =
    (inl refl, All-imp (λ v. Among v ws) (λ v. Among v (w ∷ ws)) (λ v m. inr m) ws (all-Among ws))

-- A worker that is not stopping and has the fewest jobs of those, or none if all are stopping.
unfoldable pub IsLeastBusy : List Worker → Choice → Type 0
IsLeastBusy ws (chosen w) = (w.stopping ≡ false) × Among w ws × All (Outdoes w) ws
IsLeastBusy ws (failed f) = (f ≡ no_worker_available) × All (λ w. w.stopping ≡ true) ws

abbrev first_choice : List Worker → Choice
first_choice ws = found_or type_error (least_busy none ws)

found_least_busy :
    (o : Option Worker) (ws : List Worker)
    → least_busy none ws ≡ o
    → count_stopping ws ≢ length ws
    → IsLeastBusy ws (found_or type_error o)
unfolding IsLeastBusy found_or Leads
found_least_busy none ws e n =
    absurd (n (all_stopping ws (subst (λ o. All (Leads o) ws) e (least_busy-All_Leads none ws))))
found_least_busy (some w) ws e n = (
  subst (Holds (λ v. v.stopping ≡ false)) e (awake none ws tt),
  subst (Holds (λ v. Among v ws)) e (least_busy-Holds (λ v. Among v ws) none ws tt (all-Among ws)),
  subst (λ o. All (Leads o) ws) e (least_busy-All_Leads none ws),
)

pub not_all_stopping :
    (s : Master)
    → IsSound s
    → none_available s ≡ false
    → count_stopping s.worker_list ≢ length s.worker_list
unfolding none_available
not_all_stopping s h f e = ground (arith, h.stopping)

none_stopping :
    (s : Master) → IsSound s → none_available s ≡ true → All (λ w. w.stopping ≡ true) s.worker_list
unfolding none_available
none_stopping s h t =
    stopping_all s.worker_list (let k = stopping-le s.worker_list in ground (arith, h.stopping))

-- If the books are right, `getWorker` without an id chooses a connected worker that is not stopping
-- and has no more jobs than any other such worker; and it throws, for lack of a worker, exactly if
-- every connected worker is stopping.
pub get_worker-IsLeastBusy :
    (s : Master) → IsSound s → IsLeastBusy s.worker_list (get_worker none s)
unfolding get_worker choose IsLeastBusy
get_worker-IsLeastBusy s h = elim (Bool-cases (none_available s)) [
  | inl t ↦ rw t (refl, none_stopping s h t)
  | inr f ↦
      rw f (
        found_least_busy (least_busy none s.worker_list) s.worker_list refl
          (not_all_stopping s h f))
]
