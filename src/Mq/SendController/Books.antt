-- ===== src/Mq/SendController/Books.antt =====
-- The logic's entries and the sockets' books agree, so a clean-up finds all that it looks for.
use ndidplatform_api.Base.{
  ℕ, ◌≤◌, String, ◌≡◌, ◌⊎◌, refl, sym, ap, ◌∙◌, inl, inr, Bool, true, false, Option, none, some,
  List, [], ◌∷◌, if◌then◌else◌, ◌==◌, ==_iff, nat_eq, string_eq, get, includes, arith, Bool-cases,
  get-delete_cases, get-delete_self, some_inj,
}
use ndidplatform_api.Mq.Logic.{MqLogic, SeqEntry, Dest, Payload, performs_clean_up, performs_send}
use ndidplatform_api.Mq.Logic
use ndidplatform_api.Mq.Logic.CleanUp.{entry_not_of, clean_up_events, clean_up_lem}
use ndidplatform_api.Mq.Logic.Invariant.{Inv, get-select, clean_up-Inv}
use ndidplatform_api.Mq.SendSocket.{SendSocket}
use ndidplatform_api.Mq.SendSocket.Invariant.{Ledger}
use ndidplatform_api.Mq.SendSocket.Messages.{clean_up-Released}
use ndidplatform_api.Mq.SendController.{Env, Output, mq_send_clean_up_error, handle, handle_all}

-- Not the report of a failed clean-up.
abbrev pub NoError : Output → Type 0
NoError (mq_send_clean_up_error f) = ⊥
NoError _ = Unit

-- Each sequence number of a message in the pool has its entry in the logic, sockets are named for
-- numbers that were drawn, and the books of both are right.
pub record Agree (e : Env) (l : MqLogic) (s : SendSocket) : Type 0 where
  pub logic : Inv l
  pub ledger : Ledger e.max_messages_per_socket s
  pub entered :
      (m : String) (seqs : List ℕ) (q : ℕ)
      → get m s.seq_id_list ≡ some seqs
      → includes q seqs ≡ true
      → (entry : SeqEntry) × (get q l.seq_map ≡ some entry) × (entry.msg_id ≡ m)
  pub drawn :
      (i d : String)
      → get i s.socket_dest_map ≡ some d
      → (q : ℕ) × (i ≡ e.socket_id q) × (q ≤ l.max_seq_id)

-- What a pool loses while a message is cleaned up.
pub record Swept (max : ℕ) (s s' : SendSocket) : Type 0 where
  pub ledger : Ledger max s'
  pub lists :
      (m : String) (seqs : List ℕ)
      → get m s'.seq_id_list ≡ some seqs
      → get m s.seq_id_list ≡ some seqs
  pub dests : (i d : String) → get i s'.socket_dest_map ≡ some d → get i s.socket_dest_map ≡ some d

-- Whether the logic has an entry of the message.
entry_for : String → List (ℕ × SeqEntry) → Bool
entry_for m [] = false
entry_for m ((k, v) ∷ r) = if v.msg_id == m then true else entry_for m r

entry_for_lem :
    (m : String) (q : ℕ) (entry : SeqEntry) (r : List (ℕ × SeqEntry))
    → get q r ≡ some entry
    → entry.msg_id ≡ m
    → entry_for m r ≡ true
unfolding entry_for get
entry_for_lem m q entry [] h k = absurd (cc)
entry_for_lem m q entry ((j, v) ∷ r) h k = elim (Bool-cases (j == q)) [
  | inl t ↦
      let same : v ≡ entry = some_inj v entry (rw t at h) in
      rw ((==_iff v.msg_id m).1 (ap (λ x. x.msg_id) same ∙ k)) refl
  | inr f ↦ ground (arith, entry_for_lem m q entry r (rw f at h) k)
]

module _ (e : Env) (m : String) where
  pub handle_clean :
      (n : ℕ) (s : SendSocket)
      → Ledger e.max_messages_per_socket s
      → Swept e.max_messages_per_socket s (handle e (performs_clean_up m n) s).0
        × (get m (handle e (performs_clean_up m n) s).0.seq_id_list ≡ none)
  unfolding handle
  handle_clean n s g =
      let r = clean_up-Released e.max_messages_per_socket s g m in
      (
        record {
          ledger = r.ledger;
          lists = λ m' seqs h.
              (get-delete_cases m m' seqs s.seq_id_list (ap (get m') (sym r.messages) ∙ h)).1;
          dests = r.dests;
        },
        ap (get m) r.messages ∙ get-delete_self m s.seq_id_list,
      )

  sweeps :
      (r : List (ℕ × SeqEntry)) (s : SendSocket)
      → Ledger e.max_messages_per_socket s
      → Swept e.max_messages_per_socket s (handle_all e (clean_up_events m r) s).0
        × ((entry_for m r ≡ true) ⊎ (get m s.seq_id_list ≡ none)
            → get m (handle_all e (clean_up_events m r) s).0.seq_id_list ≡ none)
  unfolding handle_all entry_for
  sweeps [] s g = (
    record { ledger = g; lists = λ m' seqs h. h; dests = λ i d h. h },
    λ h. elim h [ inl t ↦ absurd (cc) | inr k ↦ k ],
  )
  sweeps ((k, v) ∷ r) s g = elim (Bool-cases (v.msg_id == m)) [
    | inl t ↦
        let s' = (handle e (performs_clean_up m v.seq_id) s).0 in
        let (first, gone) = handle_clean v.seq_id s g in
        let (rest, none_left) = sweeps r s' first.ledger in
        rw t (
          record {
            ledger = rest.ledger;
            lists = λ m' seqs h. first.lists m' seqs (rest.lists m' seqs h);
            dests = λ i d h. first.dests i d (rest.dests i d h);
          },
          λ h. none_left (inr gone),
        )
    | inr f ↦ rw f (sweeps r s g)
  ]

  pub clean-Agree :
      (l : MqLogic) (s : SendSocket)
      → Agree e l s
      → Agree e (Logic.clean_up m l).0 (handle_all e (Logic.clean_up m l).1 s).0
        × ((seqs : List ℕ) (q : ℕ)
            → get m (handle_all e (Logic.clean_up m l).1 s).0.seq_id_list ≡ some seqs
            → includes q seqs ≡ true
            → ⊥)
  clean-Agree l s a =
      let cleaned = clean_up_lem m l a.logic.distinct a.logic.ticketed a.logic.known in
      let inv = clean_up-Inv m l a.logic in
      let (swept, gone) = sweeps l.seq_map s a.ledger in
      let none_of =
        λ (seqs : List ℕ) (q : ℕ)
            (h : get m (handle_all e (clean_up_events m l.seq_map) s).0.seq_id_list ≡ some seqs)
            (k : includes q seqs ≡ true).
          let (entry, at, is) = a.entered m seqs q (swept.lists m seqs h) k in
          let z : none ≡ some seqs =
            sym (gone (inl (entry_for_lem m q entry l.seq_map at is))) ∙ h in
          absurd_some seqs z in
      rw cleaned (
        record {
          logic = rw cleaned at inv;
          ledger = swept.ledger;
          entered = λ m' seqs q h k. elim (Bool-cases (m == m')) [
            | inl t ↦ absurd (
                none_of seqs q
                  (ap (λ r. get r (handle_all e (clean_up_events m l.seq_map) s).0.seq_id_list)
                      ((==_iff m m').0 t)
                    ∙ h)
                  k)
            | inr f ↦
                let (entry, at, is) = a.entered m' seqs q (swept.lists m' seqs h) k in
                (
                  entry,
                  get-select (entry_not_of m) q entry l.seq_map
                      (ground (arith, is, ==_iff m m', ==_iff entry.msg_id m)) at,
                  is,
                )
          ];
          drawn = λ i d h. a.drawn i d (swept.dests i d h);
        },
        none_of,
      )
    where
      absurd_some : (seqs : List ℕ) → Path (Option (List ℕ)) none (some seqs) → ⊥
      absurd_some seqs z = cc
