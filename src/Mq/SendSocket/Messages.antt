-- ===== src/Mq/SendSocket/Messages.antt =====
-- The messages of the socket pool: sending one, and cleaning one up whole.
use ndidplatform_api.Base.{
  ℕ, ◌≤◌, String, ◌≡◌, ◌⊎◌, refl, sym, ap, ◌∙◌, subst, inl, inr, Bool, true, false, Option, none,
  some, List, [], ◌∷◌, ◌++◌, length, if◌then◌else◌, ◌==◌, ==_iff, ==_refl, nat_eq, string_eq, get,
  put, delete, includes, Unique, arith, Bool-cases, Option-cases, get-put, get-put_cases,
  get-put_other, get-put_self, get-delete_cases, get-delete_other, delete-Absent, Absent-get,
  includes_last, Unique-append_one, some_inj,
}
use ndidplatform_api.Mq.SendSocket.{
  SendSocket, Fault, list_or_empty, register, choose_socket, attach, find_socket, send,
  clean_up_seqs, forget_message, clean_up,
}
use ndidplatform_api.Mq.SendSocket.Invariant.{Books, Ledger}
use ndidplatform_api.Mq.SendSocket.Attach.{not_none, includes_last_cases}
use ndidplatform_api.Mq.SendSocket.Send.{send-Books}
use ndidplatform_api.Mq.SendSocket.Clean.{and_then-state, AllCleaned, clean_up_seqs-AllCleaned}

-- Where `send` leaves the message's list and the new sequence number.
pub sent_to :
    (max : ℕ) (d : String) (payload : List ℕ) (m : String) (seq : ℕ) (fresh : String)
    (s : SendSocket)
    → (i : String) × ((send max d payload m seq fresh s).0.socket_map ≡ put seq i s.socket_map)
      × ((send max d payload m seq fresh s).0.seq_id_list
          ≡ put m (list_or_empty (get m s.seq_id_list) ++ seq ∷ []) s.seq_id_list)
      × (((send max d payload m seq fresh s).0.socket_dest_map ≡ s.socket_dest_map)
          ⊎ ((send max d payload m seq fresh s).0.socket_dest_map ≡ put fresh d s.socket_dest_map))
unfolding send choose_socket register attach
sent_to max d payload m seq fresh s =
    let s1 = register m seq d s in
    let is = list_or_empty (get d s1.socket_list_by_dest) in
    elim (Option-cases (find_socket max s1.socket_used_by is)) [
      | inl e ↦ (fresh, rw e refl, rw e refl, inr (rw e refl))
      | inr (i, e) ↦ (i, rw e refl, rw e refl, inl (rw e refl))
    ]

module _ (max : ℕ) (s : SendSocket) (g : Ledger max s) where
  in_list_of :
      (m : String) (q : ℕ)
      → includes q (list_or_empty (get m s.seq_id_list)) ≡ true
      → (seqs : List ℕ) × (get m s.seq_id_list ≡ some seqs) × (includes q seqs ≡ true)
  unfolding includes
  in_list_of m q h = elim (Option-cases (get m s.seq_id_list)) [
    | inl e ↦ let r : false ≡ true = rw e at h in absurd (cc)
    | inr (seqs, e) ↦ (seqs, e, rw e at h)
  ]

  list_once : (m : String) → Unique (list_or_empty (get m s.seq_id_list))
  list_once m = elim (Option-cases (get m s.seq_id_list)) [
    | inl e ↦ rw e tt
    | inr (seqs, e) ↦ rw e (g.once m seqs e)
  ]

  not_listed :
      (m : String) (seqs : List ℕ) (seq : ℕ)
      → get seq s.socket_map ≡ none
      → get m s.seq_id_list ≡ some seqs
      → includes seq seqs ≡ false
  not_listed m seqs seq new e = elim (Bool-cases (includes seq seqs)) [
    | inl t ↦
        let (i, at) = g.in_flight m seqs seq e t in
        absurd (not_none (get seq s.socket_map) i new at)
    | inr f ↦ f
  ]

  -- Where a sequence number of a message's list comes from, once `seq` has joined the list of `m`.
  Origin : String → ℕ → String → ℕ → Type 0
  Origin m seq m' q =
      ((m ≡ m') × ((seq == q) ≡ true))
      ⊎ (((seq == q) ≡ false)
          × ((us : List ℕ) × (get m' s.seq_id_list ≡ some us) × (includes q us ≡ true)))

  origin :
      (m : String) (seq : ℕ) (m' : String) (seqs : List ℕ) (q : ℕ)
      → get seq s.socket_map ≡ none
      → ((m ≡ m') × (list_or_empty (get m s.seq_id_list) ++ seq ∷ [] ≡ seqs))
        ⊎ (((m == m') ≡ false) × (get m' s.seq_id_list ≡ some seqs))
      → includes q seqs ≡ true
      → Origin m seq m' q
  unfolding Origin
  origin m seq m' seqs q new view k = elim (Bool-cases (seq == q)) [
    | inl t ↦ elim view [
      | inl (p, r) ↦ inl (p, t)
      | inr (n, e) ↦
          let z : true ≡ false =
            sym k
            ∙ ap (λ r. includes r seqs) (sym ((==_iff seq q).0 t))
            ∙ not_listed m' seqs seq new e in
          absurd (cc)
    ]
    | inr f ↦ elim view [
      | inl (p, r) ↦ inr (
        f,
        subst (λ r. (us : List ℕ) × (get r s.seq_id_list ≡ some us) × (includes q us ≡ true)) p
            (in_list_of m q (includes_last_cases seq q _ (rw r k) f)),
      )
      | inr (n, e) ↦ inr (f, (seqs, e, k))
    ]
  ]

  one_message :
      (m : String) (seq : ℕ) (m1 m2 : String) (q : ℕ)
      → Origin m seq m1 q
      → Origin m seq m2 q
      → m1 ≡ m2
  unfolding Origin
  one_message m seq m1 m2 q (inl a) (inl b) = sym a.0 ∙ b.0
  one_message m seq m1 m2 q (inl a) (inr b) = cc
  one_message m seq m1 m2 q (inr a) (inl b) = cc
  one_message m seq m1 m2 q (inr a) (inr b) = g.apart m1 m2 a.1.0 b.1.0 q a.1.1 b.1.1 a.1.2 b.1.2

  -- The ledger with one more sequence number, `seq` of the message `m`, on the socket `i`.
  added :
      (s' : SendSocket) (m : String) (seq : ℕ) (i : String)
      → get seq s.socket_map ≡ none
      → Books max s'
      → s'.socket_map ≡ put seq i s.socket_map
      → s'.seq_id_list ≡ put m (list_or_empty (get m s.seq_id_list) ++ seq ∷ []) s.seq_id_list
      → Ledger max s'
  added s' m seq i new b map lists =
      let old = list_or_empty (get m s.seq_id_list) in
      let view = λ (m' : String) (seqs : List ℕ) (h : get m' s'.seq_id_list ≡ some seqs).
        get-put_cases m m' (old ++ seq ∷ []) seqs s.seq_id_list (rw lists at h) in
      let of_old = λ (q : ℕ) (k : includes q (old ++ seq ∷ []) ≡ true) (f : (seq == q) ≡ false).
        in_list_of m q (includes_last_cases seq q old k f) in
      record {
        books = b;
        in_flight = λ m' seqs q h k. elim (Bool-cases (seq == q)) [
          | inl t ↦ (i, rw (map, get-put seq q i s.socket_map, t) refl)
          | inr f ↦
              let (j, at) : (j : String) × (get q s.socket_map ≡ some j) = elim (view m' seqs h) [
                | inl (p, r) ↦ let (us, e, k') = of_old q (rw r k) f in g.in_flight m us q e k'
                | inr (n, e) ↦ g.in_flight m' seqs q e k
              ] in
              (j, rw map (get-put_other seq q i s.socket_map f ∙ at))
        ];
        once = λ m' seqs h. elim (view m' seqs h) [
          | inl (p, r) ↦ subst (λ us. Unique us) r (Unique-append_one seq old not_old (list_once m))
          | inr (n, e) ↦ g.once m' seqs e
        ];
        apart = λ m1 m2 us1 us2 q h1 h2 k1 k2.
            one_message m seq m1 m2 q (origin m seq m1 us1 q new (view m1 us1 h1) k1)
              (origin m seq m2 us2 q new (view m2 us2 h2) k2);
        of_message = λ q j h. elim (get-put_cases seq q i j s.socket_map (rw map at h)) [
          | inl (p, r) ↦ (
            m,
            old ++ seq ∷ [],
            rw lists (get-put_self m (old ++ seq ∷ []) s.seq_id_list),
            ground (arith, includes_last seq q old, ==_iff seq q),
          )
          | inr (f, e) ↦
              let (m', us, at, k) = g.of_message q j e in
              elim (Bool-cases (m == m')) [
                | inl t ↦
                    let same : old ≡ us =
                      ap (λ r. list_or_empty (get r s.seq_id_list)) ((==_iff m m').0 t)
                      ∙ ap list_or_empty at in
                    (
                      m',
                      old ++ seq ∷ [],
                      rw (lists, get-put m m' (old ++ seq ∷ []) s.seq_id_list, t) refl,
                      rw (includes_last seq q old, same, k) refl,
                    )
                | inr n ↦ (
                  m',
                  us,
                  rw lists (get-put_other m m' (old ++ seq ∷ []) s.seq_id_list n ∙ at),
                  k,
                )
              ]
        ];
      }
    where
      not_old : includes seq (list_or_empty (get m s.seq_id_list)) ≡ false
      not_old = elim (Bool-cases (includes seq (list_or_empty (get m s.seq_id_list)))) [
        | inl t ↦
            let (us, e, k) = in_list_of m seq t in
            let q : false ≡ true = sym (not_listed m us seq new e) ∙ k in absurd (cc)
        | inr f ↦ f
      ]

  -- A new message joins the ledger.
  pub send-Ledger :
      (d : String) (payload : List ℕ) (m : String) (seq : ℕ) (fresh : String)
      → 1 ≤ max
      → get seq s.socket_map ≡ none
      → get fresh s.socket_dest_map ≡ none
      → Ledger max (send max d payload m seq fresh s).0
  send-Ledger d payload m seq fresh one new free =
      let (i, map, lists, dests) = sent_to max d payload m seq fresh s in
      added (send max d payload m seq fresh s).0 m seq i new
        (send-Books max d payload m seq fresh s g.books one new free) map lists

-- What cleaning up a message leaves.
pub record Released (max : ℕ) (s : SendSocket) (m : String) (s' : SendSocket) (fault : Option Fault)
    : Type 0 where
  pub no_fault : fault ≡ none
  pub ledger : Ledger max s'
  pub left :
      (q : ℕ)
      → get q s'.socket_map
        ≡ (if includes q (list_or_empty (get m s.seq_id_list)) then none else get q s.socket_map)
  pub messages : s'.seq_id_list ≡ delete m s.seq_id_list
  pub dests : (i d : String) → get i s'.socket_dest_map ≡ some d → get i s.socket_dest_map ≡ some d

module _ (max : ℕ) (s : SendSocket) (g : Ledger max s) (m : String) where
  -- The ledger after the numbers `seqs` of `m` are gone, and then their list.
  struck :
      (seqs : List ℕ) (s' : SendSocket)
      → get m s.seq_id_list ≡ some seqs
      → AllCleaned max s seqs s' none
      → Ledger max (record s' { seq_id_list = delete m s'.seq_id_list })
  struck seqs s' at a =
      let view = λ (m' : String) (us : List ℕ) (h : get m' (delete m s'.seq_id_list) ≡ some us).
        get-delete_cases m m' us s.seq_id_list (rw a.messages at h) in
      record {
        books = reassigned s' (delete m s'.seq_id_list) a.books;
        in_flight = λ m' us q h k.
            let (n, e) = view m' us h in
            let (i, found) = g.in_flight m' us q e k in
            (i, a.left q ∙ if_false (kept_out m' us q n e k) found);
        once = λ m' us h. g.once m' us (view m' us h).1;
        apart = λ m1 m2 us1 us2 q h1 h2 k1 k2.
            g.apart m1 m2 us1 us2 q (view m1 us1 h1).1 (view m2 us2 h2).1 k1 k2;
        of_message = λ q i h.
            let (out, found) = still_there (includes q seqs) (sym (a.left q) ∙ h) in
            let (m', us, e, k) = g.of_message q i found in
            (
              m',
              us,
              rw a.messages (get-delete_other m m' s.seq_id_list (other_than m' us q e k out) ∙ e),
              k,
            );
      }
    where
      reassigned :
          (t : SendSocket) (l : List (String × List ℕ))
          → Books max t
          → Books max (record t { seq_id_list = l })
      reassigned t l b = record {
        held = b.held;
        carries = b.carries;
        used = b.used;
        placed = b.placed;
        listed = b.listed;
        lists = b.lists;
        distinct = b.distinct;
        counted = b.counted;
      }

      if_false :
          {x : Bool} {o : Option String} {i : String}
          → x ≡ false
          → o ≡ some i
          → (if x then none else o) ≡ some i
      if_false h k = rw (h, k)

      still_there :
          (x : Bool) {o : Option String} {i : String}
          → (if x then none else o) ≡ some i
          → (x ≡ false) × (o ≡ some i)
      still_there true h = absurd (cc)
      still_there false h = (refl, h)

      other_than :
          (m' : String) (us : List ℕ) (q : ℕ)
          → get m' s.seq_id_list ≡ some us
          → includes q us ≡ true
          → includes q seqs ≡ false
          → (m == m') ≡ false
      other_than m' us q e k out = elim (Bool-cases (m == m')) [
        | inl t ↦
            let same : us ≡ seqs =
              some_inj us seqs
                (sym e ∙ ap (λ r. get r s.seq_id_list) (sym ((==_iff m m').0 t)) ∙ at) in
            let z : true ≡ false = sym k ∙ ap (includes q) same ∙ out in absurd (cc)
        | inr f ↦ f
      ]

      kept_out :
          (m' : String) (us : List ℕ) (q : ℕ)
          → (m == m') ≡ false
          → get m' s.seq_id_list ≡ some us
          → includes q us ≡ true
          → includes q seqs ≡ false
      kept_out m' us q n e k = elim (Bool-cases (includes q seqs)) [
        | inl t ↦
            let p = g.apart m m' seqs us q at e t k in
            let z : true ≡ false = sym ((==_iff m m').1 p) ∙ n in absurd (cc)
        | inr f ↦ f
      ]

  -- Cleaning up a message never throws. It ends exactly that message's sequence numbers.
  pub clean_up-Released : Released max s m (clean_up m s).0 (clean_up m s).2
  unfolding clean_up includes
  clean_up-Released = elim (Option-cases (get m s.seq_id_list)) [
    | inl e ↦ rw e (record {
      no_fault = refl;
      ledger = g;
      left = λ q. rw e refl;
      messages = sym (delete-Absent m s.seq_id_list (Absent-get m s.seq_id_list e));
      dests = λ i d h. h;
    })
    | inr (seqs, e) ↦
        let a =
          clean_up_seqs-AllCleaned max seqs s g.books (g.once m seqs e)
            (λ q k. g.in_flight m seqs q e k) in
        let (to, fault) = and_then-state (clean_up_seqs seqs s) (forget_message m) a.no_fault in
        rw e (record {
          no_fault = fault ∙ forgotten _;
          ledger =
              subst (Ledger max) (sym to ∙ refl)
                (unfold forget_message in struck seqs _ e (calm a));
          left = λ q. rw e (ap (λ t. get q t.socket_map) to ∙ (unfold forget_message in a.left q));
          messages =
              ap (λ t. t.seq_id_list) to ∙ (unfold forget_message in ap (delete m) a.messages);
          dests = λ i d h.
              a.dests i d
                (ap (get i) (same_dests _) ∙ ap (λ t. get i t.socket_dest_map) (sym to) ∙ h);
        })
  ]
    where
      forgotten : (t : SendSocket) → (forget_message m t).2 ≡ none
      forgotten t = unfold forget_message in refl

      same_dests : (t : SendSocket) → t.socket_dest_map ≡ (forget_message m t).0.socket_dest_map
      same_dests t = unfold forget_message in refl

      calm :
          {seqs : List ℕ} {t : SendSocket} {fault : Option Fault}
          → AllCleaned max s seqs t fault
          → AllCleaned max s seqs t none
      calm a = record {
        no_fault = refl;
        books = a.books;
        left = a.left;
        messages = a.messages;
        dests = a.dests;
      }

-- In right books no socket is open without a message: where no message has a list, the count is 0.
pub idle :
    (max : ℕ) (s : SendSocket)
    → Ledger max s
    → ((m : String) → get m s.seq_id_list ≡ none)
    → (s.socket_used_by ≡ []) × (s.count ≡ 0)
unfolding includes get
idle max s g quiet =
    let none_open = empty s.socket_used_by (λ i seqs h. h) in
    (none_open, g.books.counted ∙ ap length none_open)
  where
    unused : (i : String) (seqs : List ℕ) → get i s.socket_used_by ≡ some seqs → ⊥
    unused i [] h = absurd (omega (arith, (g.books.used i [] h).1))
    unused i (q ∷ seqs) h =
        let at = g.books.carries i (q ∷ seqs) q h (rw (==_refl q) refl) in
        let (m, us, found, k) = g.of_message q i at in
        not_none (get m s.seq_id_list) us (quiet m) found

    empty :
        (l : List (String × List ℕ))
        → ((i : String) (seqs : List ℕ) → get i l ≡ some seqs → get i s.socket_used_by ≡ some seqs)
        → l ≡ []
    empty [] all = refl
    empty ((i, seqs) ∷ l) all = absurd (unused i seqs (all i seqs (rw (==_refl i) refl)))
