-- ===== src/Tasks/Blocks/Settle.antt =====
-- That a waiting message can always come to the queue: `handleMessageFromMqWithBlockWait` and
-- `processMessageInBlocks` of main-server/src/core/request_process_manager.js never block each other.
use ndidplatform_api.Base.{
  ℕ, zero, suc, ◌+◌, ◌<◌, ◌≡◌, refl, sym, ap, ◌∙◌, subst, inl, inr, Bool, true, false, List, [],
  ◌∷◌, ◌++◌, leb, All, Bool-cases, lt→ltb, arith,
}
use package.ndidplatform_api.Tasks.Blocks.{
  Phase, arriving, saving, removing, returned, Flow, new, remove_at, message_row, id_row, resume,
  Event, handler, block, look_up, test_lock, fetch, handle_message, check_again, process_new_block,
  ids_in_range, skip_if_locked, add_if_saved, add_when_erased, handler_step, step, run,
}
use package.ndidplatform_api.Tasks.Blocks.Once.{Changed, IsSettled, settled_exactly_once}

-- Some events lead there.
unfoldable Reaches : (Flow → Type 0) → Flow → Type 0
Reaches P s = (es : List Event) × All Changed es × P (run es s)

run-append : (es fs : List Event) (s : Flow) → run (es ++ fs) s ≡ run fs (run es s)
unfolding run
run-append [] fs s = refl
run-append (e ∷ es) fs s = run-append es fs (step e s)

Changed-append : (es fs : List Event) → All Changed es → All Changed fs → All Changed (es ++ fs)
Changed-append [] fs c d = d
Changed-append (e ∷ es) fs c d = (c.0, Changed-append es fs c.1 d)

and_then :
    (P Q : Flow → Type 0) (s : Flow) → Reaches P s → ((t : Flow) → P t → Reaches Q t) → Reaches Q s
unfolding Reaches
and_then P Q s (es, c, p) go = further (go (run es s) p)
  where
    further : Reaches Q (run es s) → Reaches Q s
    further (fs, d, q) = (es ++ fs, Changed-append es fs c d, subst Q (sym (run-append es fs s)) q)

HasReturned : Flow → Type 0
HasReturned s = (b : Bool) × (s.phase ≡ returned b)

at : (s : Flow) (p : Phase) → s.phase ≡ p → record s { phase = p } ≡ s
at s p q = ap (λ x. record s { phase = x }) (sym q)

removing_returns : (s : Flow) → s.phase ≡ removing → Reaches HasReturned s
unfolding Reaches HasReturned run step handler_step add_when_erased
removing_returns s q = (
  handler message_row ∷ handler id_row ∷ handler resume ∷ [],
  (tt, (tt, (tt, tt))),
  subst (λ t. HasReturned (run (handler message_row ∷ handler id_row ∷ handler resume ∷ []) t))
      (at s removing q) (true, refl),
)

checked_returns : (s : Flow) → Reaches HasReturned (check_again s)
unfolding Reaches HasReturned check_again run
checked_returns s = elim (Bool-cases (leb s.latest s.height)) [
  | inl t ↦ rw t ([], tt, (false, refl))
  | inr f ↦ rw f (removing_returns (record s { phase = removing }) refl)
]

first : (P : Flow → Type 0) (e : Event) (s : Flow) → Changed e → Reaches P (step e s) → Reaches P s
unfolding Reaches run
first P e s c (es, cs, p) = (e ∷ es, (c, cs), p)

saving_returns : (s : Flow) → s.phase ≡ saving → Reaches HasReturned s
unfolding step handler_step
saving_returns s q = subst (Reaches HasReturned) (at s saving q) (
    first HasReturned (handler message_row) (record s { phase = saving }) tt
      (first HasReturned (handler id_row) (record s { phase = saving; saved = true }) tt
        (first HasReturned (handler resume)
          (record s { phase = saving; saved = true; listed = true }) tt
          (checked_returns (record s { phase = saving; saved = true; listed = true })))))

handled_returns : (s : Flow) → Reaches HasReturned (handle_message s)
unfolding Reaches HasReturned handle_message run
handled_returns s = elim (Bool-cases (leb s.latest s.height)) [
  | inl t ↦ rw t (saving_returns (record s { lock = true; phase = saving }) refl)
  | inr f ↦ rw f ([], tt, (true, refl))
]

handler_ends : (p : Phase) (s : Flow) → s.phase ≡ p → Reaches HasReturned s
unfolding Reaches HasReturned step handler_step run
handler_ends arriving s q = subst (Reaches HasReturned) (at s arriving q) (
    first HasReturned (handler resume) (record s { phase = arriving }) tt
      (handled_returns (record s { phase = arriving })))
handler_ends saving s q = saving_returns s q
handler_ends removing s q = removing_returns s q
handler_ends (returned b) s q = ([], tt, (b, q))

HasCome : Flow → Type 0
HasCome s = HasReturned s × (s.height < s.latest)

comes : (s : Flow) → HasReturned s → Reaches HasCome s
unfolding HasReturned HasCome Reaches run step process_new_block
comes s (b, q) = (
  block (suc (s.height + s.latest)) true ∷ [],
  (refl, tt),
  rw (lt→ltb s.latest (suc (s.height + s.latest)) (omega arith)) ((b, q), omega arith),
)

HasNoRange : Flow → Type 0
HasNoRange s = HasCome s × (s.ranges ≡ [])

looked_up : (rs : List (ℕ × ℕ)) (s : Flow) → s.ranges ≡ rs → HasCome s → Reaches HasNoRange s
unfolding HasReturned HasCome HasNoRange Reaches step run ids_in_range remove_at
looked_up [] s q h = ([], tt, (h, q))
looked_up (r ∷ rs) s q h = subst (Reaches HasNoRange) (ap (λ x. record s { ranges = x }) (sym q)) (
    first HasNoRange (look_up 0) (record s { ranges = r ∷ rs }) tt
      (looked_up rs (step (look_up 0) (record s { ranges = r ∷ rs })) refl h))

HasNoneFound : Flow → Type 0
HasNoneFound s = HasNoRange s × (s.found ≡ 0)

tested : (n : ℕ) (s : Flow) → s.found ≡ n → HasNoRange s → Reaches HasNoneFound s
unfolding HasReturned HasCome HasNoRange HasNoneFound Reaches step run skip_if_locked
tested zero s q h = ([], tt, (h, q))
tested (suc n) s q h = subst (Reaches HasNoneFound) (ap (λ x. record s { found = x }) (sym q)) (
    first HasNoneFound test_lock (record s { found = suc n }) tt
      (tested n (step test_lock (record s { found = suc n })) refl h))

fetched : (n : ℕ) (s : Flow) → s.fetching ≡ n → HasNoneFound s → Reaches IsSettled s
unfolding HasReturned HasCome HasNoRange HasNoneFound IsSettled Reaches step run add_if_saved
fetched zero s q h = ([], tt, (h.0.0.0, h.0.0.1, h.0.1, h.1, q))
fetched (suc n) s q h = subst (Reaches IsSettled) (ap (λ x. record s { fetching = x }) (sym q)) (
    first IsSettled fetch (record s { fetching = suc n }) tt
      (fetched n (step fetch (record s { fetching = suc n })) refl h))

settles : (s : Flow) → Reaches IsSettled s
settles s = and_then HasReturned IsSettled s (handler_ends s.phase s refl) λ t r.
    and_then HasCome IsSettled t (comes t r) λ u c.
      and_then HasNoRange IsSettled u (looked_up u.ranges u refl c) λ v n.
        and_then HasNoneFound IsSettled v (tested v.found v refl n)
          λ w f. fetched w.fetching w refl f

-- However the handler and the blocks have interleaved so far, if every new block had a new app hash,
-- there are events, with such blocks only, after which the message has been added to the queue
-- exactly once: neither side waits for the other for ever.
pub can_be_added :
    (height latest : ℕ) (es : List Event)
    → All Changed es
    → (rest : List Event) × All Changed rest × ((run rest (run es (new height latest))).tasks ≡ 1)
unfolding Reaches
can_be_added height latest es c = finished (settles (run es (new height latest)))
  where
    finished :
        Reaches IsSettled (run es (new height latest))
        → (rest : List Event) × All Changed rest
          × ((run rest (run es (new height latest))).tasks ≡ 1)
    finished (rest, d, st) =
        let e = run-append es rest (new height latest) in
        (
          rest,
          d,
          ap (λ s. s.tasks) (sym e)
              ∙ settled_exactly_once height latest (es ++ rest) (Changed-append es rest c d)
                  (subst IsSettled (sym e) st),
        )
