-- ===== src/Mq/SendSocket/Close.antt =====
-- A socket whose last message is done: what closing it leaves keeps the books right.
use ndidplatform_api.Base.{
  ℕ, ◌-◌, String, ◌≡◌, refl, sym, ap, ◌∙◌, subst, inl, inr, ◌⊎◌, true, false, some, List, [], ◌∷◌,
  if◌then◌else◌, ◌==◌, ==_iff, nat_eq, string_eq, get, put, delete, is_nil, includes, remove_first,
  Unique, arith, Bool-cases, get-put_cases, get-put_other, get-delete_cases, get-delete_other,
  get-put_self, includes-remove_first, Unique-remove_first, Distinct-put, Distinct-delete, some_inj,
  length-put_old, length-delete,
}
use ndidplatform_api.Mq.SendSocket.{SendSocket}
use ndidplatform_api.Mq.SendSocket.Invariant.{Books}
use ndidplatform_api.Mq.SendSocket.Keep.{same_seqs, elsewhere, still_in}

not-includes-nil : (q : ℕ) (xs : List ℕ) → is_nil xs ≡ true → includes q xs ≡ true → ⊥
unfolding includes
not-includes-nil q [] h k = cc
not-includes-nil q (x ∷ xs) h k = cc

nil-excludes : (j : String) (xs : List String) → includes j xs ≡ true → is_nil xs ≡ false
unfolding includes
nil-excludes j [] k = cc
nil-excludes j (x ∷ xs) k = refl

-- The destination's list without the socket; an empty list goes.
abbrev pub lists_without :
    String → String → List String → List (String × List String) → List (String × List String)
lists_without i d is m =
    if is_nil (remove_first i is) then delete d m else put d (remove_first i is) m

module _ (i d : String) (is : List String) (m : List (String × List String)) where
  without-same :
      is_nil (remove_first i is) ≡ false → get d (lists_without i d is m) ≡ some (remove_first i is)
  without-same h = rw h (get-put_self d (remove_first i is) m)

  without-other : (d' : String) → (d == d') ≡ false → get d' (lists_without i d is m) ≡ get d' m
  without-other d' f = elim (Bool-cases (is_nil (remove_first i is))) [
    | inl t ↦ rw t (get-delete_other d d' m f)
    | inr n ↦ rw n (get-put_other d d' (remove_first i is) m f)
  ]

  without_cases :
      (d' : String) (is' : List String)
      → get d' (lists_without i d is m) ≡ some is'
      → ((d ≡ d') × (remove_first i is ≡ is')) ⊎ (((d == d') ≡ false) × (get d' m ≡ some is'))
  without_cases d' is' h = elim (Bool-cases (is_nil (remove_first i is))) [
    | inl t ↦ inr (get-delete_cases d d' is' m (rw t at h))
    | inr n ↦ get-put_cases d d' (remove_first i is) is' m (rw n at h)
  ]

unfoldable pub closed : ℕ → String → List ℕ → String → List String → SendSocket → SendSocket
closed seq i rest d is s = record s {
  socket_used_by = delete i (put i rest s.socket_used_by);
  count = s.count - 1;
  socket_list_by_dest = lists_without i d is s.socket_list_by_dest;
  socket_dest_map = delete i s.socket_dest_map;
  socket_map = delete seq s.socket_map;
}

module _ (max : ℕ) (s : SendSocket) (b : Books max s) (seq : ℕ) (i : String) (seqs : List ℕ)
    (at : get i s.socket_used_by ≡ some seqs) (there : includes seq seqs ≡ true) (d : String)
    (is : List String) (dest : get i s.socket_dest_map ≡ some d)
    (found : get d s.socket_list_by_dest ≡ some is) where
  others :
      (j : String) (us : List ℕ)
      → get j (delete i (put i (remove_first seq seqs) s.socket_used_by)) ≡ some us
      → ((i == j) ≡ false) × (get j s.socket_used_by ≡ some us)
  others j us h =
      let (f, e) = get-delete_cases i j us (put i (remove_first seq seqs) s.socket_used_by) h in
      (f, sym (get-put_other i j (remove_first seq seqs) s.socket_used_by f) ∙ e)

  in_rest :
      (j : String)
      → includes j (remove_first i is) ≡ true
      → ((i == j) ≡ false) × (includes j is ≡ true)
  in_rest j k = ground (arith, includes-remove_first i j is (b.lists d is found))

  held-closed :
      is_nil (remove_first seq seqs) ≡ true
      → (q : ℕ) (j : String) → get q (delete seq s.socket_map) ≡ some j
      → (us : List ℕ) × (get j (delete i (put i (remove_first seq seqs) s.socket_used_by))
          ≡ some us)
        × (includes q us ≡ true)
  held-closed last q j h =
      let (n, was) = get-delete_cases seq q j s.socket_map h in
      let (us, e, k) = b.held q j was in
      elim (Bool-cases (i == j)) [
        | inl t ↦
            let same = same_seqs max s b seq i seqs at there j us ((==_iff i j).0 t) e in
            absurd (
              not-includes-nil q (remove_first seq seqs) last (
                still_in max s b seq i seqs at there q n
                  (subst (λ us. includes q us ≡ true) same k)))
        | inr f ↦ (
          us,
          get-delete_other i j (put i (remove_first seq seqs) s.socket_used_by) f
              ∙ get-put_other i j (remove_first seq seqs) s.socket_used_by f
              ∙ e,
          k,
        )
      ]

  placed-closed :
      (j : String) (us : List ℕ)
      → get j (delete i (put i (remove_first seq seqs) s.socket_used_by)) ≡ some us
      → (d' : String) × (js : List String) × (get j (delete i s.socket_dest_map) ≡ some d')
        × (get d' (lists_without i d is s.socket_list_by_dest) ≡ some js)
        × (includes j js ≡ true)
  placed-closed j us h =
      let (f, e) = others j us h in
      let (d', js, to, lists, k) = b.placed j us e in
      let to' = get-delete_other i j s.socket_dest_map f ∙ to in
      elim (Bool-cases (d == d')) [
        | inl t ↦
            let p = (==_iff d d').0 t in
            let same =
              some_inj js is (sym lists ∙ ap (λ r. get r s.socket_list_by_dest) (sym p) ∙ found) in
            let k' : includes j (remove_first i is) ≡ true =
              rw (includes-remove_first i j is (b.lists d is found), f, ← same) k in
            (
              d,
              remove_first i is,
              to' ∙ ap some (sym p),
              without-same i d is s.socket_list_by_dest (nil-excludes j _ k'),
              k',
            )
        | inr n ↦ (d', js, to', without-other i d is s.socket_list_by_dest d' n ∙ lists, k)
      ]

  listed-closed :
      (d' : String) (js : List String) (j : String)
      → get d' (lists_without i d is s.socket_list_by_dest) ≡ some js
      → includes j js ≡ true
      → get j (delete i s.socket_dest_map) ≡ some d'
  listed-closed d' js j h k = elim (without_cases i d is s.socket_list_by_dest d' js h) [
    | inl (p, r) ↦
        let (f, k') = in_rest j (rw r k) in
        get-delete_other i j s.socket_dest_map f ∙ b.listed d is j found k' ∙ ap some p
    | inr (n, e) ↦
        let to = b.listed d' js j e k in
        elim (Bool-cases (i == j)) [
          | inl t ↦
              let p : d ≡ d' =
                some_inj d d'
                  (sym dest ∙ ap (λ r. get r s.socket_dest_map) ((==_iff i j).0 t) ∙ to) in
              absurd (ground (arith, ==_iff d d'))
          | inr f ↦ get-delete_other i j s.socket_dest_map f ∙ to
        ]
  ]

  pub closed-Books :
      is_nil (remove_first seq seqs) ≡ true
      → Books max (closed seq i (remove_first seq seqs) d is s)
  unfolding closed
  closed-Books last =
      let emptied = put i (remove_first seq seqs) s.socket_used_by in
      record {
        held = held-closed last;
        carries = λ j us q h k.
            let (f, e) = others j us h in
            get-delete_other seq q s.socket_map (elsewhere max s b seq i seqs at there j us q f e k)
            ∙ b.carries j us q e k;
        used = λ j us h. b.used j us (others j us h).1;
        placed = placed-closed;
        listed = listed-closed;
        lists = λ d' js h. elim (without_cases i d is s.socket_list_by_dest d' js h) [
          | inl (p, r) ↦ subst (λ js. Unique js) r (Unique-remove_first i is (b.lists d is found))
          | inr (n, e) ↦ b.lists d' js e
        ];
        distinct = Distinct-delete i emptied (Distinct-put i _ s.socket_used_by b.distinct);
        counted = omega (
          arith,
          b.counted,
          length-put_old i s.socket_used_by seqs (remove_first seq seqs) at,
          length-delete i emptied (remove_first seq seqs)
              (Distinct-put i _ s.socket_used_by b.distinct)
              (get-put_self i (remove_first seq seqs) s.socket_used_by),
        );
      }
