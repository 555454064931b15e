-- ===== src/Mq/SendSocket/Keep.antt =====
-- A message that is done while its socket has others: what is left keeps the books right.
use native.Mathlib.Nat.{le_trans}
use ndidplatform_api.Base.{
  ℕ, ◌≤◌, String, ◌≡◌, refl, sym, ap, ◌∙◌, subst, inl, inr, true, false, some, List, [], ◌∷◌,
  length, ◌==◌, ==_iff, nat_eq, string_eq, get, put, delete, is_nil, includes, remove_first, Unique,
  arith, Bool-cases, get-put_cases, get-put_other, get-delete_cases, get-delete_other,
  includes-remove_first, Unique-remove_first, length-remove_first-le, Distinct-put, some_inj,
  length-put_old, get-put,
}
use ndidplatform_api.Mq.SendSocket.{SendSocket}
use ndidplatform_api.Mq.SendSocket.Invariant.{Books}

not_nil : (xs : List ℕ) → is_nil xs ≡ false → 1 ≤ length xs
not_nil [] h = absurd (cc)
not_nil (x ∷ xs) h = omega arith

-- `seq` is taken off the socket `i`, which stays open.
unfoldable pub kept : ℕ → String → List ℕ → SendSocket → SendSocket
kept seq i rest s = record s {
  socket_used_by = put i rest s.socket_used_by;
  socket_map = delete seq s.socket_map;
}

module _ (max : ℕ) (s : SendSocket) (b : Books max s) (seq : ℕ) (i : String) (seqs : List ℕ)
    (at : get i s.socket_used_by ≡ some seqs) (there : includes seq seqs ≡ true) where
  pub still_in :
      (q : ℕ)
      → (seq == q) ≡ false
      → includes q seqs ≡ true
      → includes q (remove_first seq seqs) ≡ true
  still_in q n h = rw (includes-remove_first seq q seqs (b.used i seqs at).0, n) h

  was_in :
      (q : ℕ)
      → includes q (remove_first seq seqs) ≡ true
      → ((seq == q) ≡ false) × (includes q seqs ≡ true)
  was_in q h = ground (arith, includes-remove_first seq q seqs (b.used i seqs at).0)

  pub same_seqs : (j : String) (us : List ℕ) → i ≡ j → get j s.socket_used_by ≡ some us → us ≡ seqs
  same_seqs j us p h = some_inj us seqs (sym h ∙ ap (λ k. get k s.socket_used_by) (sym p) ∙ at)

  -- Another socket does not carry `seq`.
  pub elsewhere :
      (j : String) (us : List ℕ) (q : ℕ)
      → (i == j) ≡ false
      → get j s.socket_used_by ≡ some us
      → includes q us ≡ true
      → (seq == q) ≡ false
  elsewhere j us q f h k = elim (Bool-cases (seq == q)) [
    | inl t ↦
        let p : i ≡ j = some_inj i j (
          sym (b.carries i seqs seq at there)
          ∙ ap (λ r. get r s.socket_map) ((==_iff seq q).0 t)
          ∙ b.carries j us q h k) in
        ground (arith, ==_iff i j)
    | inr n ↦ n
  ]

  pub kept-Books :
      is_nil (remove_first seq seqs) ≡ false → Books max (kept seq i (remove_first seq seqs) s)
  unfolding kept
  kept-Books more =
      let rest = remove_first seq seqs in
      record {
        held = λ q j h.
            let (n, was) = get-delete_cases seq q j s.socket_map h in
            let (us, e, k) = b.held q j was in
            elim (Bool-cases (i == j)) [
              | inl t ↦
                  let p = (==_iff i j).0 t in
                  (
                    rest,
                    rw (get-put i j rest s.socket_used_by, t) refl,
                    still_in q n (subst (λ us. includes q us ≡ true) (same_seqs j us p e) k),
                  )
              | inr f ↦ (us, get-put_other i j rest s.socket_used_by f ∙ e, k)
            ];
        carries = λ j us q h k. elim (get-put_cases i j rest us s.socket_used_by h) [
          | inl (p, r) ↦
              let (n, k') = was_in q (rw r k) in
              get-delete_other seq q s.socket_map n ∙ b.carries i seqs q at k' ∙ ap some p
          | inr (f, e) ↦
              get-delete_other seq q s.socket_map (elsewhere j us q f e k) ∙ b.carries j us q e k
        ];
        used = λ j us h. elim (get-put_cases i j rest us s.socket_used_by h) [
          | inl (p, r) ↦
              subst (λ us. Unique us × (1 ≤ length us) × (length us ≤ max)) r
                (
                  Unique-remove_first seq seqs (b.used i seqs at).0,
                  not_nil rest more,
                  le_trans (length-remove_first-le seq seqs) (b.used i seqs at).2,
                )
          | inr (f, e) ↦ b.used j us e
        ];
        placed = λ j us h. elim (get-put_cases i j rest us s.socket_used_by h) [
          | inl (p, r) ↦
              subst
                (λ j.
                  (d : String) × (is : List String) × (get j s.socket_dest_map ≡ some d)
                  × (get d s.socket_list_by_dest ≡ some is)
                  × (includes j is ≡ true))
                p (b.placed i seqs at)
          | inr (f, e) ↦ b.placed j us e
        ];
        listed = b.listed;
        lists = b.lists;
        distinct = Distinct-put i _ s.socket_used_by b.distinct;
        counted = b.counted ∙ sym (length-put_old i s.socket_used_by seqs rest at);
      }
