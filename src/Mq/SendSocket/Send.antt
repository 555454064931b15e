-- ===== src/Mq/SendSocket/Send.antt =====
-- A message that is sent is on one socket, to its destination, which had room for it.
use ndidplatform_api.Base.{
  ℕ, suc, ◌+◌, ◌≤◌, ◌<◌, String, ◌≡◌, refl, sym, ap, ◌∙◌, subst, inl, inr, Bool, true, false,
  Option, none, some, List, [], ◌∷◌, ◌++◌, ◌||◌, length, ◌==◌, ==_iff, ==_refl, nat_eq, string_eq,
  get, put, includes, Unique, arith, Bool-cases, Option-cases, get-put_cases, get-put_other,
  get-put_self, includes_last, Unique-append_one, length-append, Distinct-put, some_inj,
  length-put_old, length-put_new, get-put,
}
use ndidplatform_api.Mq.SendSocket.{
  SendSocket, list_or_empty, register, choose_socket, attach, find_socket, has_room, send,
}
use ndidplatform_api.Mq.SendSocket.Invariant.{Books}
use ndidplatform_api.Mq.SendSocket.Attach.{
  not_none, includes_last_cases, register-Books, choose_socket-Books,
}

pub find_socket_lem :
    (max : ℕ) (used : List (String × List ℕ)) (is : List String) (i : String)
    → find_socket max used is ≡ some i
    → (includes i is ≡ true) × (has_room max (get i used) ≡ true)
unfolding find_socket includes
find_socket_lem max used [] i h = absurd (cc)
find_socket_lem max used (j ∷ js) i h = elim (Bool-cases (has_room max (get j used))) [
  | inl t ↦
      let p : j ≡ i = some_inj j i (rw t at h) in
      subst (λ i. ((j == i || includes i js) ≡ true) × (has_room max (get i used) ≡ true)) p
        (rw (==_refl j) refl, t)
  | inr f ↦ let (k, r) = find_socket_lem max used js i (rw f at h) in (ground arith, r)
]

abbrev pub Placed : SendSocket → String → Type 0
Placed s i =
    (d : String) × (is : List String) × (get i s.socket_dest_map ≡ some d)
    × (get d s.socket_list_by_dest ≡ some is)
    × (includes i is ≡ true)

module _ (max : ℕ) (s : SendSocket) (b : Books max s) (seq : ℕ) (i : String) (seqs : List ℕ)
    (carried : list_or_empty (get i s.socket_used_by) ≡ seqs)
    (new : get seq s.socket_map ≡ none) where
  used_there : (j : String) (us : List ℕ) → i ≡ j → get j s.socket_used_by ≡ some us → us ≡ seqs
  used_there j us p e =
      sym (ap list_or_empty e) ∙ ap (λ r. list_or_empty (get r s.socket_used_by)) (sym p) ∙ carried

  carried_there : (q : ℕ) → includes q seqs ≡ true → get q s.socket_map ≡ some i
  unfolding includes
  carried_there q k = elim (Option-cases (get i s.socket_used_by)) [
    | inl e ↦
        let r : false ≡ true = ap (includes q) (sym (ap list_or_empty e) ∙ carried) ∙ k in
        absurd (cc)
    | inr (us, e) ↦ b.carries i us q e (ap (includes q) (used_there i us refl e) ∙ k)
  ]

  not_carried : includes seq seqs ≡ false
  not_carried = elim (Bool-cases (includes seq seqs)) [
    | inl t ↦ absurd (not_none (get seq s.socket_map) i new (carried_there seq t))
    | inr f ↦ f
  ]

  not_seq : (q : ℕ) (j : String) → get q s.socket_map ≡ some j → (seq == q) ≡ false
  not_seq q j e = elim (Bool-cases (seq == q)) [
    | inl t ↦ absurd (
        not_none (get q s.socket_map) j
          (ap (λ r. get r s.socket_map) (sym ((==_iff seq q).0 t)) ∙ new) e)
    | inr f ↦ f
  ]

  seqs-Unique : Unique seqs
  seqs-Unique = elim (Option-cases (get i s.socket_used_by)) [
    | inl e ↦ subst (λ us. Unique us) (sym (ap list_or_empty e) ∙ carried) tt
    | inr (us, e) ↦ subst (λ us. Unique us) (used_there i us refl e) (b.used i us e).0
  ]

  pub attach-Books :
      (c : ℕ)
      → length seqs < max
      → Placed s i
      → c ≡ length (put i (seqs ++ seq ∷ []) s.socket_used_by)
      → Books max (record (attach seq i s) { count = c })
  unfolding attach
  attach-Books c room here counted = rw carried (record {
    held = λ q j h. elim (get-put_cases seq q i j s.socket_map h) [
      | inl (p, r) ↦ (
        seqs ++ seq ∷ [],
        ap (λ k. get k (put i (seqs ++ seq ∷ []) s.socket_used_by)) (sym r)
            ∙ get-put_self i (seqs ++ seq ∷ []) s.socket_used_by,
        ground (arith, includes_last seq q seqs, ==_iff seq q),
      )
      | inr (f, e) ↦
          let (us, at, k) = b.held q j e in
          elim (Bool-cases (i == j)) [
            | inl t ↦ (
              seqs ++ seq ∷ [],
              rw (get-put i j (seqs ++ seq ∷ []) s.socket_used_by, t) refl,
              rw (includes_last seq q seqs, ← (used_there j us ((==_iff i j).0 t) at), k) refl,
            )
            | inr g ↦ (us, get-put_other i j (seqs ++ seq ∷ []) s.socket_used_by g ∙ at, k)
          ]
    ];
    carries = λ j us q h k. elim (get-put_cases i j (seqs ++ seq ∷ []) us s.socket_used_by h) [
      | inl (p, r) ↦ elim (Bool-cases (seq == q)) [
        | inl t ↦ rw (get-put seq q i s.socket_map, t) (ap some p)
        | inr f ↦
            get-put_other seq q i s.socket_map f
            ∙ carried_there q (includes_last_cases seq q seqs (rw r k) f)
            ∙ ap some p
      ]
      | inr (f, e) ↦
          let at = b.carries j us q e k in get-put_other seq q i s.socket_map (not_seq q j at) ∙ at
    ];
    used = λ j us h. elim (get-put_cases i j (seqs ++ seq ∷ []) us s.socket_used_by h) [
      | inl (p, r) ↦
          subst (λ us. Unique us × (1 ≤ length us) × (length us ≤ max)) r
            (
              Unique-append_one seq seqs not_carried seqs-Unique,
              omega (arith, length-append seqs (seq ∷ [])),
              omega (arith, length-append seqs (seq ∷ [])),
            )
      | inr (f, e) ↦ b.used j us e
    ];
    placed = λ j us h. elim (get-put_cases i j (seqs ++ seq ∷ []) us s.socket_used_by h) [
      | inl (p, r) ↦ subst (Placed s) p here
      | inr (f, e) ↦ b.placed j us e
    ];
    listed = b.listed;
    lists = b.lists;
    distinct = Distinct-put i _ s.socket_used_by b.distinct;
    counted = counted;
  })

count_attached :
    (s : SendSocket) (i : String) (us : List ℕ)
    → (get i s.socket_used_by ≡ none)
    → length s.socket_used_by + 1 ≡ length (put i us s.socket_used_by)
count_attached s i us h = sym (length-put_new i s.socket_used_by us h)

room_of :
    (max : ℕ) (o : Option (List ℕ))
    → has_room max o ≡ true
    → (us : List ℕ) × (o ≡ some us) × (length us < max)
room_of max none h = absurd (cc)
room_of max (some us) h = (us, refl, ground arith)

pub unused :
    (max : ℕ) (s : SendSocket) (b : Books max s) (i : String)
    → get i s.socket_dest_map ≡ none
    → get i s.socket_used_by ≡ none
unused max s b i h = elim (Option-cases (get i s.socket_used_by)) [
  | inl e ↦ e
  | inr (us, e) ↦
      let (d, is, to, lists, k) = b.placed i us e in
      absurd (not_none (get i s.socket_dest_map) d h to)
]

-- A socket that is found takes the message; without one, a new socket does.
pub join_found :
    (max : ℕ) (s : SendSocket) (b : Books max s) (seq : ℕ) (d i : String) (is : List String)
    → get seq s.socket_map ≡ none
    → find_socket max s.socket_used_by is ≡ some i
    → Books max (attach seq i s)
unfolding attach
join_found max s b seq d i is new h =
    let (k, r) = find_socket_lem max s.socket_used_by is i h in
    let (us, at, room) = room_of max (get i s.socket_used_by) r in
    attach-Books max s b seq i us (ap list_or_empty at) new s.count room (b.placed i us at)
      (b.counted ∙ sym (length-put_old i s.socket_used_by us (us ++ seq ∷ []) at))

pub join_new :
    (max : ℕ) (s : SendSocket) (b : Books max s) (seq : ℕ) (d fresh : String)
    → 1 ≤ max
    → get seq s.socket_map ≡ none
    → get fresh s.socket_dest_map ≡ none
    → Books max (attach seq fresh (choose_socket none d fresh s).0)
unfolding attach choose_socket
join_new max s b seq d fresh one new free =
    let opened = (choose_socket none d fresh s).0 in
    let none_used = unused max s b fresh free in
    attach-Books max (record opened { count = s.count }) (choose_socket-Books max s b d fresh free)
      seq fresh [] (ap list_or_empty none_used) new (suc s.count) (omega arith)
      (
        d,
        list_or_empty (get d s.socket_list_by_dest) ++ fresh ∷ [],
        get-put_self fresh d s.socket_dest_map,
        get-put_self d _ s.socket_list_by_dest,
        rw (includes_last fresh fresh (list_or_empty (get d s.socket_list_by_dest)), ==_refl fresh)
            (true_right _),
      )
      (omega (arith, b.counted, length-put_new fresh s.socket_used_by (seq ∷ []) none_used))
  where
    true_right : (x : Bool) → (x || true) ≡ true
    true_right x = ground arith

-- Right books stay right when a new message is sent, and it is on some socket.
pub send-Books :
    (max : ℕ) (d : String) (payload : List ℕ) (m : String) (seq : ℕ) (fresh : String)
    (s : SendSocket)
    → Books max s
    → 1 ≤ max
    → get seq s.socket_map ≡ none
    → get fresh s.socket_dest_map ≡ none
    → Books max (send max d payload m seq fresh s).0
unfolding send choose_socket register
send-Books max d payload m seq fresh s b one new free =
    let s1 = register m seq d s in
    let b1 = register-Books max s b m seq d in
    let is = list_or_empty (get d s1.socket_list_by_dest) in
    elim (Option-cases (find_socket max s1.socket_used_by is)) [
      | inl e ↦ rw e (join_new max s1 b1 seq d fresh one new free)
      | inr (i, e) ↦ rw e (join_found max s1 b1 seq d i is new e)
    ]
