-- ===== src/Mq/SendController/Sending.antt =====
-- A send, first or repeated, keeps the logic's entries and the sockets' books in agreement.
use ndidplatform_api.Base.{
  ℕ, suc, ◌≤◌, String, ◌≡◌, refl, sym, ap, ◌∙◌, inl, inr, Bool, true, false, none, some, List, [],
  ◌∷◌, ◌++◌, ◌==◌, ==_iff, nat_eq, string_eq, get, put, includes, arith, Bool-cases, Option-cases,
  get-put, get-put_cases, get-put_other, get-Absent, get-All,
}
use ndidplatform_api.Mq.Logic.{MqLogic, SeqEntry, Dest, performs_send}
use ndidplatform_api.Mq.Logic
use ndidplatform_api.Mq.Logic.Invariant.{Absent-fresh, perform_send-Inv}
use ndidplatform_api.Mq.SendSocket.{SendSocket, list_or_empty}
use ndidplatform_api.Mq.SendSocket
use ndidplatform_api.Mq.SendSocket.Attach.{includes_last_cases}
use ndidplatform_api.Mq.SendSocket.Messages.{send-Ledger, sent_to}
use ndidplatform_api.Mq.Protocol.{generate_send_msg}
use ndidplatform_api.Mq.SendController.{Env, send_on_socket, handle, handle_all}
use ndidplatform_api.Mq.SendController.Books.{Agree}

module _ (e : Env) (apart : (p q : ℕ) → e.socket_id p ≡ e.socket_id q → p ≡ q)
    (room : 1 ≤ e.max_messages_per_socket) (l : MqLogic) (s : SendSocket) (a : Agree e l s) where
  no_entry : get (suc l.max_seq_id) l.seq_map ≡ none
  no_entry =
      get-Absent (suc l.max_seq_id) l.seq_map
        (Absent-fresh l.max_seq_id (suc l.max_seq_id) l.seq_map (omega arith) a.logic.bounded)

  not_on_socket : get (suc l.max_seq_id) s.socket_map ≡ none
  not_on_socket = elim (Option-cases (get (suc l.max_seq_id) s.socket_map)) [
    | inl h ↦ h
    | inr (i, h) ↦
        let (m, seqs, at, k) = a.ledger.of_message (suc l.max_seq_id) i h in
        let (entry, found, is) = a.entered m seqs (suc l.max_seq_id) at k in
        absurd (not_entry entry found)
  ]
    where
      not_entry : (v : SeqEntry) → get (suc l.max_seq_id) l.seq_map ≡ some v → ⊥
      not_entry v h = let z : none ≡ some v = sym no_entry ∙ h in cc

  id_free : get (e.socket_id (suc l.max_seq_id)) s.socket_dest_map ≡ none
  id_free = elim (Option-cases (get (e.socket_id (suc l.max_seq_id)) s.socket_dest_map)) [
    | inl h ↦ h
    | inr (d, h) ↦
        let (q, same, low) = a.drawn (e.socket_id (suc l.max_seq_id)) d h in
        let p = apart (suc l.max_seq_id) q same in absurd (omega arith)
  ]

  -- An entry of another number is still there.
  entry_stays :
      (v w : SeqEntry) (q : ℕ)
      → get q l.seq_map ≡ some v
      → get q (put (suc l.max_seq_id) w l.seq_map) ≡ some v
  entry_stays v w q h = elim (Bool-cases (suc l.max_seq_id == q)) [
    | inl t ↦
        let low = get-All (λ x. x.0 ≤ l.max_seq_id) q v l.seq_map a.logic.bounded h in
        absurd (ground (arith, ==_iff (suc l.max_seq_id) q))
    | inr f ↦ get-put_other (suc l.max_seq_id) q w l.seq_map f ∙ h
  ]

  unsent-Agree :
      (d : Dest) (p : List ℕ) (m : String) (n : ℕ) → Agree e (Logic.perform_send d p m n l).0 s
  unfolding Logic.perform_send
  unsent-Agree d p m n = record {
    logic = unfold Logic.perform_send in perform_send-Inv d p m n l a.logic;
    ledger = a.ledger;
    entered =
        λ m' seqs q h k. let (v, at, is) = a.entered m' seqs q h k in (v, entry_stays v _ q at, is);
    drawn = λ i d' h. let (q, same, low) = a.drawn i d' h in (q, same, omega arith);
  }

  sent-Agree :
      (d : Dest) (p bytes : List ℕ) (m : String) (n : ℕ)
      → Agree e
          (Logic.perform_send d p m n l).0
          (SendSocket.send e.max_messages_per_socket
            (e.dest_key d)
            bytes
            m
            (suc l.max_seq_id)
            (e.socket_id (suc l.max_seq_id))
            s).0
  unfolding Logic.perform_send
  sent-Agree d p bytes m n =
      let seq = suc l.max_seq_id in
      let s' =
        (SendSocket.send e.max_messages_per_socket (e.dest_key d) bytes m seq (e.socket_id seq)
          s).0 in
      let old = list_or_empty (get m s.seq_id_list) in
      let entry : SeqEntry = record { seq_id = seq; msg_id = m; timer_id = l.next_timer_id } in
      let (i, map, lists, dests) =
        sent_to e.max_messages_per_socket (e.dest_key d) bytes m seq (e.socket_id seq) s in
      record {
        logic = unfold Logic.perform_send in perform_send-Inv d p m n l a.logic;
        ledger =
            send-Ledger e.max_messages_per_socket s a.ledger (e.dest_key d) bytes m seq
              (e.socket_id seq) room not_on_socket id_free;
        entered = λ m' seqs q h k.
            elim (get-put_cases m m' (old ++ seq ∷ []) seqs s.seq_id_list
              (ap (get m') (sym lists) ∙ h)) [
                | inl (same, r) ↦ elim (Bool-cases (seq == q)) [
                  | inl t ↦ (entry, rw (get-put seq q entry l.seq_map, t) refl, same)
                  | inr f ↦
                      let (seqs', at, k') =
                        listed_in m q (includes_last_cases seq q old (rw r k) f) in
                      let (v, found, is) = a.entered m seqs' q at k' in
                      (v, entry_stays v entry q found, is ∙ same)
                ]
                | inr (f, at) ↦
                    let (v, found, is) = a.entered m' seqs q at k in
                    (v, entry_stays v entry q found, is)
              ];
        drawn = λ j d' h. elim dests [
          | inl same ↦
              let (q, named, low) = a.drawn j d' (ap (get j) (sym same) ∙ h) in
              (q, named, omega arith)
          | inr more ↦
              elim (get-put_cases (e.socket_id seq) j (e.dest_key d) d' s.socket_dest_map
                (ap (get j) (sym more) ∙ h)) [
                  | inl (named, r) ↦ (seq, sym named, omega arith)
                  | inr (f, at) ↦ let (q, named, low) = a.drawn j d' at in (q, named, omega arith)
                ]
        ];
      }
    where
      false_true : Path Bool false true → ⊥
      false_true z = cc

      listed_in :
          (m : String) (q : ℕ)
          → includes q (list_or_empty (get m s.seq_id_list)) ≡ true
          → (seqs : List ℕ) × (get m s.seq_id_list ≡ some seqs) × (includes q seqs ≡ true)
      listed_in m q h = elim (Option-cases (get m s.seq_id_list)) [
        | inl none_there ↦
            let z : includes q [] ≡ true = rw none_there at h in
            absurd (unfold includes in false_true z)
        | inr (seqs, at) ↦ (seqs, at, rw at at h)
      ]

  pub perform_send-Agree :
      (d : Dest) (p : List ℕ) (m : String) (n : ℕ)
      → Agree e (Logic.perform_send d p m n l).0 (handle_all e (Logic.perform_send d p m n l).1 s).0
  unfolding handle_all handle send_on_socket
  perform_send-Agree d p m n =
      let coded = generate_send_msg e.codec e.sender_id p m (suc l.max_seq_id) in
      elim (Option-cases coded) [
        | inl h ↦ unfold Logic.perform_send in rw h (unsent-Agree d p m n)
        | inr (bytes, h) ↦ unfold Logic.perform_send in rw h (sent-Agree d p bytes m n)
      ]
