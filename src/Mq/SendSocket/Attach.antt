-- ===== src/Mq/SendSocket/Attach.antt =====
-- A message is put on a socket: the steps of `send` that keep the books right.
use ndidplatform_api.Base.{
  ℕ, String, ◌≡◌, refl, sym, ap, ◌∙◌, subst, inl, inr, true, false, Option, none, some, List, [],
  ◌∷◌, ◌++◌, ◌==◌, ==_iff, nat_eq, string_eq, get, includes, Unique, arith, Bool-cases,
  Option-cases, get-put_cases, get-put_other, includes_last, Unique-append_one, get-put,
}
use ndidplatform_api.Mq.SendSocket.{SendSocket, list_or_empty, register, choose_socket}
use ndidplatform_api.Mq.SendSocket.Invariant.{Books}

pub not_none : {A : Type 0} (o : Option A) (a : A) → o ≡ none → o ≡ some a → ⊥
not_none o a h k = cc

pub includes_last_cases :
    (a q : ℕ) (xs : List ℕ)
    → includes q (xs ++ a ∷ []) ≡ true
    → (a == q) ≡ false
    → includes q xs ≡ true
includes_last_cases a q xs h n = ground (arith, includes_last a q xs)

module _ (max : ℕ) (s : SendSocket) (b : Books max s) where
  listed_in :
      (d i : String)
      → includes i (list_or_empty (get d s.socket_list_by_dest)) ≡ true
      → get i s.socket_dest_map ≡ some d
  unfolding includes
  listed_in d i h = elim (Option-cases (get d s.socket_list_by_dest)) [
    | inl e ↦ let q : false ≡ true = rw e at h in cc
    | inr (is, e) ↦ b.listed d is i e (rw e at h)
  ]

  list-Unique : (d : String) → Unique (list_or_empty (get d s.socket_list_by_dest))
  list-Unique d = elim (Option-cases (get d s.socket_list_by_dest)) [
    | inl e ↦ rw e tt
    | inr (is, e) ↦ rw e (b.lists d is e)
  ]

  list_there :
      (d d' : String) (js : List String)
      → d ≡ d'
      → get d' s.socket_list_by_dest ≡ some js
      → list_or_empty (get d s.socket_list_by_dest) ≡ js
  list_there d d' js p h =
      ap (λ k. list_or_empty (get k s.socket_list_by_dest)) p ∙ ap list_or_empty h

  pub register-Books : (m : String) (seq : ℕ) (d : String) → Books max (register m seq d s)
  unfolding register
  register-Books m seq d =
      let is = list_or_empty (get d s.socket_list_by_dest) in
      record {
        held = b.held;
        carries = b.carries;
        used = b.used;
        placed = λ j us h.
            let (d', js, to, lists, k) = b.placed j us h in
            elim (Bool-cases (d == d')) [
              | inl t ↦ (
                d',
                js,
                to,
                rw (get-put d d' is s.socket_list_by_dest, t)
                    (ap some (list_there d d' js ((==_iff d d').0 t) lists)),
                k,
              )
              | inr f ↦ (d', js, to, get-put_other d d' is s.socket_list_by_dest f ∙ lists, k)
            ];
        listed = λ d' js j h k. elim (get-put_cases d d' is js s.socket_list_by_dest h) [
          | inl (p, r) ↦ listed_in d j (rw r k) ∙ ap some p
          | inr (f, e) ↦ b.listed d' js j e k
        ];
        lists = λ d' js h. elim (get-put_cases d d' is js s.socket_list_by_dest h) [
          | inl (p, r) ↦ subst (λ js. Unique js) r (list-Unique d)
          | inr (f, e) ↦ b.lists d' js e
        ];
        distinct = b.distinct;
        counted = b.counted;
      }

  -- A new socket, not yet counted in.
  pub choose_socket-Books :
      (d fresh : String)
      → get fresh s.socket_dest_map ≡ none
      → Books max (record ((choose_socket none d fresh s).0) { count = s.count })
  unfolding choose_socket
  choose_socket-Books d fresh new =
      let is = list_or_empty (get d s.socket_list_by_dest) in
      let other = λ (j d' : String) (to : get j s.socket_dest_map ≡ some d').
        get-put_other fresh j d s.socket_dest_map (apart j d' to) ∙ to in
      record {
        held = b.held;
        carries = b.carries;
        used = b.used;
        placed = λ j us h.
            let (d', js, to, lists, k) = b.placed j us h in
            elim (Bool-cases (d == d')) [
              | inl t ↦ (
                d',
                is ++ fresh ∷ [],
                other j d' to,
                rw (get-put d d' (is ++ fresh ∷ []) s.socket_list_by_dest, t) refl,
                rw (includes_last fresh j is, list_there d d' js ((==_iff d d').0 t) lists, k) refl,
              )
              | inr f ↦ (
                d',
                js,
                other j d' to,
                get-put_other d d' (is ++ fresh ∷ []) s.socket_list_by_dest f ∙ lists,
                k,
              )
            ];
        listed = λ d' js j h k.
            elim (get-put_cases d d' (is ++ fresh ∷ []) js s.socket_list_by_dest h) [
              | inl (p, r) ↦ elim (Bool-cases (fresh == j)) [
                | inl t ↦ rw (get-put fresh j d s.socket_dest_map, t) (ap some p)
                | inr f ↦
                    get-put_other fresh j d s.socket_dest_map f
                    ∙ listed_in d j (in_list j is f (rw r k))
                    ∙ ap some p
              ]
              | inr (f, e) ↦ other j d' (b.listed d' js j e k)
            ];
        lists = λ d' js h. elim (get-put_cases d d' (is ++ fresh ∷ []) js s.socket_list_by_dest h) [
          | inl (p, r) ↦
              subst (λ js. Unique js) r
                (Unique-append_one fresh is (unlisted is refl) (list-Unique d))
          | inr (f, e) ↦ b.lists d' js e
        ];
        distinct = b.distinct;
        counted = b.counted;
      }
    where
      apart : (j d' : String) → get j s.socket_dest_map ≡ some d' → (fresh == j) ≡ false
      apart j d' to = elim (Bool-cases (fresh == j)) [
        | inl t ↦ absurd (
            not_none (get j s.socket_dest_map) d'
              (ap (λ r. get r s.socket_dest_map) (sym ((==_iff fresh j).0 t)) ∙ new) to)
        | inr f ↦ f
      ]

      in_list :
          (j : String) (is : List String)
          → (fresh == j) ≡ false
          → includes j (is ++ fresh ∷ []) ≡ true
          → includes j is ≡ true
      in_list j is f h = ground (arith, includes_last fresh j is)

      unlisted :
          (is : List String)
          → is ≡ list_or_empty (get d s.socket_list_by_dest)
          → includes fresh is ≡ false
      unlisted is e = elim (Bool-cases (includes fresh is)) [
        | inl t ↦
            absurd (not_none (get fresh s.socket_dest_map) d new (listed_in d fresh (rw (← e) t)))
        | inr f ↦ f
      ]
