-- ===== src/Request/Create/Idps.antt =====
-- Which IdPs a new request goes to.
use ndidplatform_api.Base.{
  ◌≤◌, String, ◌≡◌, ◌⊎◌, refl, sym, ap, ◌∙◌, subst, inl, inr, Bool, true, false, not, ◌&&◌, ◌||◌,
  Option, none, some, List, [], ◌∷◌, ◌==◌, ==_iff, ltb, nat_eq, string_eq, select, select-All,
  length, is_nil, All, arith, Bool-cases,
}
use ndidplatform_api.Base.Checked.{passed, refuse_if, then_passed, refuse_if_lem, passed_inj}
use ndidplatform_api.Request.Destinations.{Receiver, get_idp_mq_destinations}
use ndidplatform_api.Request.Create.{
  Platform, Params, Split, parted, count_receivers, check_receivers, has_node, split_by_knowledge,
  split_by_mode, wanted, wanted_with_ref_group_code, check_idp_list_condition,
}

-- The two lists that a split parts the receivers into.
abbrev pub list_of : Option (List Receiver) → List Receiver
list_of none = []
list_of (some rs) = rs

-- Each receiver is in one of the two lists, and none of the first is in the second.
abbrev pub Covered : Split → Type 0
Covered s =
    All
      (λ r.
        (has_node r.node_id (list_of s.receivers_with_sid) ≡ true)
        ⊎ (has_node r.node_id (list_of s.receivers_with_ref_group_code) ≡ true))
      s.receivers

abbrev pub Apart : Split → Type 0
Apart s =
    All (λ r. has_node r.node_id (list_of s.receivers_with_ref_group_code) ≡ false)
      (list_of s.receivers_with_sid)

-- What an accepted list of IdPs means.
pub record IsAccepted (c : Platform) (p : Params) (types : Option (List String)) (s : Split)
    : Type 0 where
  pub found : get_idp_mq_destinations c.get_idp_nodes_info (wanted p types) ≡ passed s.receivers
  pub list_long_enough : (is_nil p.idp_id_list ≡ true) ⊎ (p.min_idp ≤ length p.idp_id_list)
  pub list_given : (p.mode == 1 || p.bypass_identity_check) ≡ true → is_nil p.idp_id_list ≡ false
  pub enough : p.min_idp ≤ length s.receivers
  pub all_listed :
      (p.min_idp ≡ 0)
      ⊎ ((is_nil p.idp_id_list ≡ true) ⊎ (length p.idp_id_list ≤ length s.receivers))
  pub covered : (p.mode == 1 || (p.mode == 2 || p.mode == 3)) ≡ true → Covered s
  pub apart : Apart s

check_receivers_lem :
    (p : Params) (rs : List Receiver) {u : Unit {0}}
    → check_receivers p rs ≡ passed u
    → (p.min_idp ≤ length rs)
      × ((p.min_idp ≡ 0) ⊎ ((is_nil p.idp_id_list ≡ true) ⊎ (length p.idp_id_list ≤ length rs)))
unfolding check_receivers count_receivers
check_receivers_lem p rs h = ground arith

has_node_weaken :
    (x : Receiver) (rs xs : List Receiver)
    → All (λ r. has_node r.node_id xs ≡ true) rs
    → All (λ r. has_node r.node_id (x ∷ xs) ≡ true) rs
unfolding has_node
has_node_weaken x [] xs h = tt
has_node_weaken x (r ∷ rs) xs h = (ground arith, has_node_weaken x rs xs h.1)

has_node_self : (rs : List Receiver) → All (λ r. has_node r.node_id rs ≡ true) rs
has_node_self [] = tt
has_node_self (r ∷ rs) = (
  unfold has_node in ground (arith, ==_iff r.node_id r.node_id),
  has_node_weaken r rs rs (has_node_self rs),
)

in_first :
    (rs xs ys : List Receiver)
    → All (λ r. has_node r.node_id xs ≡ true) rs
    → All (λ r. (has_node r.node_id xs ≡ true) ⊎ (has_node r.node_id ys ≡ true)) rs
in_first [] xs ys h = tt
in_first (r ∷ rs) xs ys h = (inl h.0, in_first rs xs ys h.1)

in_second :
    (rs xs ys : List Receiver)
    → All (λ r. has_node r.node_id ys ≡ true) rs
    → All (λ r. (has_node r.node_id xs ≡ true) ⊎ (has_node r.node_id ys ≡ true)) rs
in_second [] xs ys h = tt
in_second (r ∷ rs) xs ys h = (inr h.0, in_second rs xs ys h.1)

none_in_nil : (rs : List Receiver) → All (λ r. has_node r.node_id [] ≡ false) rs
unfolding has_node
none_in_nil [] = tt
none_in_nil (r ∷ rs) = (refl, none_in_nil rs)

-- A receiver that the other list does not know is kept by the filter.
either_way :
    (rs known all : List Receiver)
    → All (λ r. has_node r.node_id known ≡ false → has_node r.node_id all ≡ true) rs
    → All (λ r. (has_node r.node_id all ≡ true) ⊎ (has_node r.node_id known ≡ true)) rs
either_way [] known all h = tt
either_way (r ∷ rs) known all h = (
  elim (Bool-cases (has_node r.node_id known)) [ inl t ↦ inr t | inr f ↦ inl (h.0 f) ],
  either_way rs known all h.1,
)

unknown_kept :
    (rs known : List Receiver)
    → All
        (λ r.
          has_node r.node_id known ≡ false
          → has_node r.node_id (select (λ x. not (has_node x.node_id known)) rs) ≡ true)
        rs
unknown_kept [] known = tt
unknown_kept (r ∷ rs) known = (
  λ f. rw f (unfold has_node in ground (arith, ==_iff r.node_id r.node_id)),
  more rs (unknown_kept rs known),
)
  where
    more :
        (xs : List Receiver)
        → All
            (λ x.
              has_node x.node_id known ≡ false
              → has_node x.node_id (select (λ y. not (has_node y.node_id known)) rs) ≡ true)
            xs
        → All
            (λ x.
              has_node x.node_id known ≡ false
              → has_node x.node_id (select (λ y. not (has_node y.node_id known)) (r ∷ rs)) ≡ true)
            xs
    more [] h = tt
    more (x ∷ xs) h = (
      λ f. elim (Bool-cases (has_node r.node_id known)) [
        | inl t ↦ rw t (h.0 f)
        | inr n ↦ rw n (unfold has_node in ground (arith, h.0 f))
      ],
      more xs h.1,
    )

unknown_ones :
    (rs known : List Receiver)
    → All (λ r. not (has_node r.node_id known) ≡ true) rs
    → All (λ r. has_node r.node_id known ≡ false) rs
unknown_ones [] known h = tt
unknown_ones (r ∷ rs) known h = (ground arith, unknown_ones rs known h.1)

split_lem :
    (c : Platform) (p : Params) (types : Option (List String)) (rs : List Receiver) (s : Split)
    → split_by_mode c p types rs ≡ passed s
    → (s.receivers ≡ rs)
      × ((p.mode == 1 || (p.mode == 2 || p.mode == 3)) ≡ true → Covered s)
      × Apart s
unfolding split_by_mode wanted_with_ref_group_code
split_lem c p types rs s h = elim (Bool-cases (p.mode == 1)) [
  | inl one ↦
      let e = passed_inj (parted rs (some rs) (some [])) s (rw one at h) in
      let whole = in_first rs rs [] (has_node_self rs) in
      (ap (λ x. x.receivers) (sym e), λ m. subst Covered e whole, subst Apart e (none_in_nil rs))
  | inr other ↦ elim (Bool-cases (p.mode == 2 || p.mode == 3)) [
    | inr neither ↦
        let e = passed_inj (parted rs none none) s (rw (other, neither) at h) in
        (
          ap (λ x. x.receivers) (sym e),
          λ m. let q : false ≡ true = rw (other, neither) at m in absurd (cc),
          subst Apart e tt,
        )
    | inl two ↦ elim (Bool-cases p.bypass_identity_check) [
      | inr checked ↦
          let e = passed_inj (parted rs (some []) (some rs)) s (rw (other, two, checked) at h) in
          let whole = in_second rs [] rs (has_node_self rs) in
          (ap (λ x. x.receivers) (sym e), λ m. subst Covered e whole, subst Apart e tt)
      | inl bypass ↦ onboarding (rw (other, two, bypass) at h)
    ]
  ]
]
  where
    onboarding :
        split_by_knowledge c p types rs ≡ passed s
        → (s.receivers ≡ rs)
          × ((p.mode == 1 || (p.mode == 2 || p.mode == 3)) ≡ true → Covered s)
          × Apart s
    onboarding k =
        then_passed
          (get_idp_mq_destinations c.get_idp_nodes_info (wanted_with_ref_group_code p types)) _
          (unfold split_by_knowledge in k)
          λ known asked last.
            let new = select (λ r. not (has_node r.node_id known)) rs in
            let e = passed_inj (parted rs (some new) (some known)) s last in
            let whole = either_way rs known new (unknown_kept rs known) in
            (
              ap (λ x. x.receivers) (sym e),
              λ m. subst Covered e whole,
              subst Apart e
                  (unknown_ones new known (select-All (λ r. not (has_node r.node_id known)) rs)),
            )

long_enough :
    (p : Params)
    → (not (is_nil p.idp_id_list) && ltb (length p.idp_id_list) p.min_idp) ≡ false
    → (is_nil p.idp_id_list ≡ true) ⊎ (p.min_idp ≤ length p.idp_id_list)
long_enough p h = ground arith

given :
    (p : Params) (x : Bool)
    → ((p.mode == 1 || p.bypass_identity_check) && x) ≡ false
    → (p.mode == 1 || p.bypass_identity_check) ≡ true
    → x ≡ false
given p x h m = ground arith

-- If the IdPs of a new request are accepted: as many are found as are asked for and as are listed
-- (where any are asked for), a list is at least as long as the number asked for and stands where
-- mode 1 or onboarding needs one, and in modes 1 to 3 each IdP found is told by the identifier or by
-- the reference group, none by both.
pub check_idp_list_condition-IsAccepted :
    (c : Platform) (p : Params) (types : Option (List String)) (s : Split)
    → check_idp_list_condition c p types ≡ passed s
    → IsAccepted c p types s
unfolding check_idp_list_condition
check_idp_list_condition-IsAccepted c p types s h =
    then_passed (refuse_if (not (is_nil p.idp_id_list) && ltb (length p.idp_id_list) p.min_idp) _) _
      h
      λ u1 a h1.
        then_passed (refuse_if ((p.mode == 1 || p.bypass_identity_check) && is_nil p.idp_id_list) _)
          _ h1
          λ u2 b h2.
            then_passed (get_idp_mq_destinations c.get_idp_nodes_info (wanted p types)) _ h2
              λ rs asked h3. then_passed (check_receivers p rs) _ h3 λ u3 counted h4.
                let (same, covered, apart) = split_lem c p types rs s h4 in
                let (enough, listed) = check_receivers_lem p rs counted in
                record {
                  found = asked ∙ ap passed (sym same);
                  list_long_enough = long_enough p (refuse_if_lem _ _ a);
                  list_given = given p (is_nil p.idp_id_list) (refuse_if_lem _ _ b);
                  enough = rw same enough;
                  all_listed = rw same listed;
                  covered = covered;
                  apart = apart;
                }
