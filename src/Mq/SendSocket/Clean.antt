-- ===== src/Mq/SendSocket/Clean.antt =====
-- A clean-up finds every socket that it looks for, and keeps the books right.
use ndidplatform_api.Base.{
  ℕ, ◌-◌, String, ◌≡◌, refl, sym, ap, ◌∙◌, subst, inl, inr, true, false, Option, none, some, List,
  [], ◌∷◌, if◌then◌else◌, ◌==◌, nat_eq, string_eq, get, delete, is_nil, includes, remove_first,
  Unique, arith, Bool-cases, get-delete, get-delete_other, get-delete_cases, ==_iff, ==_refl, ◌||◌,
}
use ndidplatform_api.Mq.SendSocket.{
  SendSocket, closes, socket_connection_closed, Outcome, Fault, and_then, clean_up_seq, release,
  forget_seq, close_socket, clean_up_seqs,
}
use ndidplatform_api.Mq.SendSocket.Invariant.{Books}
use ndidplatform_api.Mq.SendSocket.Keep.{kept, kept-Books}
use ndidplatform_api.Mq.SendSocket.Close.{closed, closed-Books}

unlike : (a q : ℕ) (xs : List ℕ) → includes a xs ≡ false → includes q xs ≡ true → (a == q) ≡ false
unlike a q xs h k = elim (Bool-cases (a == q)) [
  | inl t ↦
      let e : true ≡ false = sym k ∙ ap (λ r. includes r xs) (sym ((==_iff a q).0 t)) ∙ h in
      absurd (cc)
  | inr f ↦ f
]

-- The clean-up of one sequence number in right books goes through: it takes that number out, and
-- leaves the books right and the lists of the messages as they are.
pub record Cleaned (max : ℕ) (s : SendSocket) (seq : ℕ) (o : Outcome) : Type 0 where
  pub no_fault : o.2 ≡ none
  pub books : Books max o.0
  pub gone : o.0.socket_map ≡ delete seq s.socket_map
  pub messages : o.0.seq_id_list ≡ s.seq_id_list
  pub dests : (i d : String) → get i o.0.socket_dest_map ≡ some d → get i s.socket_dest_map ≡ some d

clean_keep :
    (s : SendSocket) (seq : ℕ) (i : String) (seqs : List ℕ)
    → get seq s.socket_map ≡ some i
    → get i s.socket_used_by ≡ some seqs
    → includes seq seqs ≡ true
    → is_nil (remove_first seq seqs) ≡ false
    → clean_up_seq seq s ≡ (kept seq i (remove_first seq seqs) s, [], none)
unfolding clean_up_seq release forget_seq kept
clean_keep s seq i seqs h at there more = rw (h, at, there, more)

clean_close :
    (s : SendSocket) (seq : ℕ) (i : String) (seqs : List ℕ) (d : String) (is : List String)
    → get seq s.socket_map ≡ some i
    → get i s.socket_used_by ≡ some seqs
    → includes seq seqs ≡ true
    → is_nil (remove_first seq seqs) ≡ true
    → get i s.socket_dest_map ≡ some d
    → get d s.socket_list_by_dest ≡ some is
    → includes i is ≡ true
    → clean_up_seq seq s ≡ (
      closed seq i (remove_first seq seqs) d is s,
      closes i ∷ socket_connection_closed (s.count - 1) ∷ [],
      none,
    )
unfolding clean_up_seq release forget_seq closed close_socket
clean_close s seq i seqs d is h at there last dest found k = rw (h, at, there, last, dest, found, k)

pub clean_up_seq-Cleaned :
    (max : ℕ) (s : SendSocket) (seq : ℕ) (i : String)
    → Books max s
    → get seq s.socket_map ≡ some i
    → Cleaned max s seq (clean_up_seq seq s)
unfolding kept closed
clean_up_seq-Cleaned max s seq i b h =
    let (seqs, at, there) = b.held seq i h in
    let (d, is, dest, found, k) = b.placed i seqs at in
    elim (Bool-cases (is_nil (remove_first seq seqs))) [
      | inl last ↦ rw (clean_close s seq i seqs d is h at there last dest found k) (record {
        no_fault = refl;
        books = closed-Books max s b seq i seqs at there d is dest found last;
        gone = refl;
        messages = refl;
        dests = λ j d' h'. (get-delete_cases i j d' s.socket_dest_map h').1;
      })
      | inr more ↦ rw (clean_keep s seq i seqs h at there more) (record {
        no_fault = refl;
        books = kept-Books max s b seq i seqs at there more;
        gone = refl;
        messages = refl;
        dests = λ j d' h'. h';
      })
    ]

pub and_then-state :
    (o : Outcome) (next : SendSocket → Outcome)
    → o.2 ≡ none
    → ((and_then o next).0 ≡ (next o.0).0) × ((and_then o next).2 ≡ (next o.0).2)
unfolding and_then
and_then-state (s, events, none) next h = (refl, refl)
and_then-state (s, events, some f) next h = absurd (cc)

-- What a clean-up of several sequence numbers does.
pub record AllCleaned (max : ℕ) (s : SendSocket) (seqs : List ℕ) (s' : SendSocket)
    (fault : Option Fault) : Type 0 where
  pub no_fault : fault ≡ none
  pub books : Books max s'
  pub left : (q : ℕ) → get q s'.socket_map ≡ (if includes q seqs then none else get q s.socket_map)
  pub messages : s'.seq_id_list ≡ s.seq_id_list
  pub dests : (i d : String) → get i s'.socket_dest_map ≡ some d → get i s.socket_dest_map ≡ some d

pub clean_up_seqs-AllCleaned :
    (max : ℕ) (seqs : List ℕ) (s : SendSocket)
    → Books max s
    → Unique seqs
    → ((q : ℕ) → includes q seqs ≡ true → (i : String) × (get q s.socket_map ≡ some i))
    → AllCleaned max s seqs (clean_up_seqs seqs s).0 (clean_up_seqs seqs s).2
unfolding clean_up_seqs includes
clean_up_seqs-AllCleaned max [] s b u present = record {
  no_fault = refl;
  books = b;
  left = λ q. refl;
  messages = refl;
  dests = λ i d h. h;
}
clean_up_seqs-AllCleaned max (seq ∷ seqs) s b u present =
    let (i, at) = present seq (rw (==_refl seq) refl) in
    let first = clean_up_seq-Cleaned max s seq i b at in
    let s' = (clean_up_seq seq s).0 in
    let rest = clean_up_seqs-AllCleaned max seqs s' first.books u.1 λ q k.
      let n = unlike seq q seqs u.0 k in
      let (j, e) = present q (ground arith) in
      (j, ap (get q) first.gone ∙ get-delete_other seq q s.socket_map n ∙ e) in
    let (to, fault) =
      and_then-state (clean_up_seq seq s) (λ s'. clean_up_seqs seqs s') first.no_fault in
    record {
      no_fault = fault ∙ rest.no_fault;
      books = subst (Books max) (sym to) rest.books;
      left = λ q.
          ap (λ t. get q t.socket_map) to
          ∙ rest.left q
          ∙ left_after q (get-delete seq q s.socket_map) (ap (get q) first.gone);
      messages = ap (λ t. t.seq_id_list) to ∙ rest.messages ∙ first.messages;
      dests = λ j d h.
          first.dests j d (rest.dests j d (ap (λ t. get j t.socket_dest_map) (sym to) ∙ h));
    }
  where
    left_after :
        (q : ℕ) {m : Option String}
        → get q (delete seq s.socket_map) ≡ (if seq == q then none else get q s.socket_map)
        → m ≡ get q (delete seq s.socket_map)
        → (if includes q seqs then none else m)
          ≡ (if seq == q || includes q seqs then none else get q s.socket_map)
    left_after q h k = ground arith
