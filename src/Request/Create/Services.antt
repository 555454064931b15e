-- ===== src/Request/Create/Services.antt =====
-- Which ASes a request's data is asked of.
use ndidplatform_api.Base.{
  ℕ, suc, ◌≤◌, String, ◌≡◌, ◌⊎◌, refl, sym, ap, ◌∙◌, subst, inl, inr, Bool, true, false, not,
  Option, none, some, List, [], ◌∷◌, map, ◌==◌, ==_iff, ltb, nat_eq, string_eq, select, length,
  includes, Unique, pigeonhole, arith, Bool-cases,
}
use ndidplatform_api.Base.Checked.{
  passed, ◌>>=◌, ◌>>◌, refuse_if, then_passed, refuse_if_lem, passed_inj,
}
use ndidplatform_api.Request.Destinations.{Refusal}
use ndidplatform_api.Request.Create.{
  Platform, Params, DataRequest, AsNode, listed_ids, in_as_list, is_able, able_nodes, with_as_list,
  check_data_request,
}

-- One of the nodes has the id, offers the namespace and asks for no more than the request's levels.
abbrev pub Serves : Params → String → List AsNode → Type 0
Serves p id [] = ⊥
Serves p id (a ∷ nodes) =
    ((a.node_id ≡ id)
      × (includes p.namespace a.supported_namespace_list ≡ true)
      × (a.min_ial ≤ p.min_ial)
      × (a.min_aal ≤ p.min_aal))
    ⊎ Serves p id nodes

abbrev pub ids_of : List AsNode → List String
ids_of nodes = map (λ (a : AsNode). a.node_id) nodes

includes-select :
    (q : AsNode → Bool) (id : String) (nodes : List AsNode)
    → includes id (ids_of (select q nodes)) ≡ true
    → includes id (ids_of nodes) ≡ true
unfolding includes
includes-select q id [] h = h
includes-select q id (a ∷ nodes) h = ground (arith, includes-select q id nodes)

excludes-select :
    (q : AsNode → Bool) (id : String) (nodes : List AsNode)
    → includes id (ids_of nodes) ≡ false
    → includes id (ids_of (select q nodes)) ≡ false
unfolding includes
excludes-select q id [] h = h
excludes-select q id (a ∷ nodes) h = ground (arith, excludes-select q id nodes)

Unique-select :
    (q : AsNode → Bool) (nodes : List AsNode)
    → Unique (ids_of nodes)
    → Unique (ids_of (select q nodes))
Unique-select q [] u = tt
Unique-select q (a ∷ nodes) u =
    ground (arith, Unique-select q nodes u.1, excludes-select q a.node_id nodes u.0)

able-Serves :
    (p : Params) (id : String) (nodes : List AsNode)
    → includes id (ids_of (able_nodes p nodes)) ≡ true
    → Serves p id nodes
unfolding able_nodes is_able includes
able-Serves p id [] h = cc
able-Serves p id (a ∷ nodes) h = ground (arith, ==_iff a.node_id id, able-Serves p id nodes)

Serves-select :
    (p : Params) (q : AsNode → Bool) (id : String) (nodes : List AsNode)
    → Serves p id (select q nodes)
    → Serves p id nodes
Serves-select p q id [] h = h
Serves-select p q id (a ∷ nodes) h = elim (Bool-cases (q a)) [
  | inl t ↦ elim (shown t h) [ inl s ↦ inl s | inr s ↦ inr (Serves-select p q id nodes s) ]
  | inr f ↦ inr (Serves-select p q id nodes (hidden f h))
]
  where
    shown : q a ≡ true → Serves p id (select q (a ∷ nodes)) → Serves p id (a ∷ select q nodes)
    shown t h = rw t at h

    hidden : q a ≡ false → Serves p id (select q (a ∷ nodes)) → Serves p id (select q nodes)
    hidden f h = rw f at h

chosen_are_listed :
    (ids : List String) (x : String) (nodes : List AsNode)
    → includes x (ids_of (select (λ a. includes a.node_id ids) nodes)) ≡ true
    → includes x ids ≡ true
unfolding includes
chosen_are_listed ids x [] h = cc
chosen_are_listed ids x (a ∷ nodes) h = elim (Bool-cases (includes a.node_id ids)) [
  | inl t ↦ elim (Bool-cases (a.node_id == x)) [
    | inl e ↦ ap (λ r. includes r ids) (sym ((==_iff a.node_id x).0 e)) ∙ t
    | inr n ↦ chosen_are_listed ids x nodes (rw (t, n) at h)
  ]
  | inr f ↦ chosen_are_listed ids x nodes (rw f at h)
]

able-Unique :
    (p : Params) (nodes : List AsNode)
    → Unique (ids_of nodes)
    → Unique (ids_of (able_nodes p nodes))
unfolding able_nodes
able-Unique p nodes u = Unique-select _ _ (Unique-select _ nodes u)

able-includes :
    (p : Params) (id : String) (nodes : List AsNode)
    → includes id (ids_of (able_nodes p nodes)) ≡ true
    → includes id (ids_of nodes) ≡ true
unfolding able_nodes
able-includes p id nodes h = includes-select _ id nodes (includes-select (is_able p) id _ h)

length-ids_of : (nodes : List AsNode) → length (ids_of nodes) ≡ length nodes
length-ids_of [] = refl
length-ids_of (a ∷ nodes) = ap suc (length-ids_of nodes)

-- The ASes that the request names are kept; where it names none, all that serve are there.
abbrev pub AsGiven :
    Params → List AsNode → List String → DataRequest → DataRequest → Option (List String) → Type 0
AsGiven p nodes ids d d' none = (id : String) → Serves p id nodes → includes id ids ≡ true
AsGiven p nodes ids d d' (some named) = d' ≡ d

Serves-able :
    (p : Params) (id : String) (nodes : List AsNode)
    → Serves p id nodes
    → includes id (ids_of (able_nodes p nodes)) ≡ true
unfolding able_nodes is_able includes
Serves-able p id [] h = elim h [ ]
Serves-able p id (a ∷ nodes) h = ground (arith, ==_iff a.node_id id, Serves-able p id nodes)

-- What a data request that passed asks: of how many ASes, and of which.
pub record IsQualified (p : Params) (nodes : List AsNode) (d d' : DataRequest) : Type 0 where
  pub ids : List String
  pub chosen : d'.as_id_list ≡ some ids
  pub same_service : d'.service_id ≡ d.service_id
  pub same_min_as : d'.min_as ≡ d.min_as
  pub enough : d.min_as ≤ length ids
  pub as_given : AsGiven p nodes ids d d' (listed_ids d.as_id_list)
  pub serve : (id : String) → includes id ids ≡ true → Serves p id nodes

listed_some :
    (o : Option (List String)) (ids : List String) → listed_ids o ≡ some ids → o ≡ some ids
listed_some none ids h = cc
listed_some (some []) ids h = absurd (cc)
listed_some (some (x ∷ xs)) ids h = h

enough_of : (m n : ℕ) → ltb m n ≡ false → n ≤ m
enough_of m n h = ground arith

equal_of : (m n : ℕ) → not (m == n) ≡ false → m ≡ n
equal_of m n h = ground arith

in_as_list-none : (min_as : ℕ) (nodes : List AsNode) → in_as_list none min_as nodes ≡ passed nodes
unfolding in_as_list
in_as_list-none min_as nodes = refl

with_as_list-none :
    (d d' : DataRequest) (able : List AsNode)
    → with_as_list d none able ≡ passed d'
    → record d { as_id_list = some (ids_of able) } ≡ d'
unfolding with_as_list
with_as_list-none d d' able h = passed_inj _ d' h

in_as_list_lem :
    (ids : List String) (min_as : ℕ) (nodes offering : List AsNode)
    → in_as_list (some ids) min_as nodes ≡ passed offering
    → offering ≡ select (λ a. includes a.node_id ids) nodes
unfolding in_as_list
in_as_list_lem ids min_as nodes offering h = ground arith

with_as_list_lem :
    (d d' : DataRequest) (ids : List String) (able : List AsNode)
    → with_as_list d (some ids) able ≡ passed d'
    → (length able ≡ length ids) × (d ≡ d')
unfolding with_as_list
with_as_list_lem d d' ids able h = ground arith

-- If the blockchain lists each AS once: a data request that passes goes to at least as many ASes as
-- asked for, each of which offers the namespace and asks for no more than the request's levels; the
-- ASes that the request names are kept as they are, and where it names none, all that serve are put.
pub check_data_request-IsQualified :
    (c : Platform) (p : Params) (d d' : DataRequest) (nodes : List AsNode)
    → c.get_as_nodes_info_by_service_id d.service_id (listed_ids d.as_id_list) ≡ passed nodes
    → Unique (ids_of nodes)
    → check_data_request c p d ≡ passed d'
    → IsQualified p nodes d d'
unfolding check_data_request
check_data_request-IsQualified c p d d' nodes asked once h =
    by_list (listed_ids d.as_id_list) refl (rw asked at h)
  where
    all_serve :
        (ids : List String) (offering : List AsNode)
        → offering ≡ select (λ a. includes a.node_id ids) nodes
        → length (able_nodes p offering) ≡ length ids
        → (id : String) → includes id ids ≡ true
        → Serves p id nodes
    all_serve ids offering picked same id k =
        let chosen = select (λ a. includes a.node_id ids) nodes in
        let found =
          pigeonhole (ids_of (able_nodes p chosen)) ids
            (able-Unique p chosen (Unique-select _ nodes once))
            (λ x j. chosen_are_listed ids x nodes (able-includes p x chosen j))
            (omega (
              arith,
              length-ids_of (able_nodes p chosen),
              ap (λ r. length (able_nodes p r)) picked,
            ))
            id k in
        Serves-select p (λ a. includes a.node_id ids) id nodes (able-Serves p id chosen found)

    by_list :
        (o : Option (List String))
        → listed_ids d.as_id_list ≡ o
        → (in_as_list o d.min_as nodes >>= λ offering.
            refuse_if (ltb (length (able_nodes p offering)) d.min_as) Refusal.condition_too_low
            >> with_as_list d o (able_nodes p offering))
          ≡ passed d'
        → IsQualified p nodes d d'
    by_list none e k =
        then_passed (refuse_if (ltb (length (able_nodes p nodes)) d.min_as) _) _
          (rw (in_as_list-none d.min_as nodes) at k)
          λ u few last.
            let able = able_nodes p nodes in
            subst (λ x. IsQualified p nodes d x) (with_as_list-none d d' able last)
              (record {
                ids = ids_of able;
                chosen = refl;
                same_service = refl;
                same_min_as = refl;
                enough = rw (length-ids_of able) (enough_of _ _ (refuse_if_lem _ _ few));
                as_given = rw e (λ id k. Serves-able p id nodes k);
                serve = λ id k. able-Serves p id nodes k;
              })
    by_list (some ids) e k =
        then_passed (in_as_list (some ids) d.min_as nodes) _ k λ offering got rest.
          then_passed (refuse_if (ltb (length (able_nodes p offering)) d.min_as) _) _ rest
            λ u few last.
              let (same, kept) = with_as_list_lem d d' ids (able_nodes p offering) last in
              let picked = in_as_list_lem ids d.min_as nodes offering got in
              subst (λ x. IsQualified p nodes d x) kept
                (record {
                  ids = ids;
                  chosen = listed_some d.as_id_list ids e;
                  same_service = refl;
                  same_min_as = refl;
                  enough = rw (← same) (enough_of _ _ (refuse_if_lem _ _ few));
                  as_given = rw e refl;
                  serve = all_serve ids offering picked same;
                })
