-- ===== src/Request/Status/Laws.antt =====
-- What each status of a request says, counted independently of the code's loops.
use ndidplatform_api.Base.{
  ℕ, zero, suc, ◌+◌, ◌<◌, String, ◌≡◌, ◌↔◌, ◌⊎◌, inl, inr, refl, true, false, Option, none, some,
  List, [], ◌∷◌, map, arith, if◌then◌else◌, ◌==◌, ==_iff, ltb, nat_eq, string_eq, length,
  Bool-cases,
}
use ndidplatform_api.Request.Status.{
  Response, Service, RequestDetail, Status, pending, confirmed, rejected, complicated, completed,
  ServiceStatus, ResponseCount, Totals, list_or_empty, count_response, count_from, response_count,
  consent_status, service_status, totals_from, totals, is_identity_purpose, is_completed,
  get_detailed_request_status,
}

-- How many responses have the status.
abbrev pub answers : String → List Response → ℕ
answers w [] = 0
answers w (r ∷ rs) = if r.status == w then suc (answers w rs) else answers w rs

abbrev pub total : (ServiceStatus → ℕ) → List ServiceStatus → ℕ
total f [] = 0
total f (s ∷ ss) = f s + total f ss

accept_ne_reject : (s : String) → s ≡ "accept" → (s == "reject") ≡ false
accept_ne_reject s e = rw e

count_from_lem :
    (c : ResponseCount) (rs : List Response)
    → ((count_from c rs).accept ≡ c.accept + answers "accept" rs)
      × ((count_from c rs).reject ≡ c.reject + answers "reject" rs)
unfolding count_from
count_from_lem c [] = omega arith
count_from_lem c (r ∷ rs) = ground (
  arith,
  ==_iff r.status "accept",
  accept_ne_reject r.status,
  count_from_lem (count_response c r) rs,
)

response_count_lem :
    (rs : List Response)
    → ((response_count rs).accept ≡ answers "accept" rs)
      × ((response_count rs).reject ≡ answers "reject" rs)
unfolding response_count
response_count_lem rs = omega (arith, count_from_lem (record { accept = 0; reject = 0 }) rs)

totals_from_lem :
    (t : Totals) (ss : List ServiceStatus)
    → ((totals_from t ss).count ≡ t.count + total (λ s. s.min_as) ss)
      × ((totals_from t ss).signed_answer_count
          ≡ t.signed_answer_count + total (λ s. s.signed_data_count) ss)
      × ((totals_from t ss).received_data_count
          ≡ t.received_data_count + total (λ s. s.received_data_count) ss)
unfolding totals_from
totals_from_lem t [] = omega arith
totals_from_lem t (s ∷ ss) = omega (
  arith,
  totals_from_lem
      (record {
        count = t.count + s.min_as;
        signed_answer_count = t.signed_answer_count + s.signed_data_count;
        received_data_count = t.received_data_count + s.received_data_count;
      })
      ss,
)

totals_lem :
    (ss : List ServiceStatus)
    → ((totals ss).count ≡ total (λ s. s.min_as) ss)
      × ((totals ss).signed_answer_count ≡ total (λ s. s.signed_data_count) ss)
      × ((totals ss).received_data_count ≡ total (λ s. s.received_data_count) ss)
unfolding totals
totals_lem ss = omega (
  arith,
  totals_from_lem (record { count = 0; signed_answer_count = 0; received_data_count = 0 }) ss,
)

abbrev responses : RequestDetail → List Response
responses d = list_or_empty d.response_list

abbrev services : RequestDetail → List ServiceStatus
services d = map service_status (list_or_empty d.data_request_list)

-- Nothing is left to wait for. Without data requests: all the IdPs asked for have answered, none of
-- them rejected, and one accepted or the purpose is one of three identity operations. With data
-- requests: the answers asked for, signed and received are equally many in total.
abbrev pub IsDone : RequestDetail → List Service → Type 0
IsDone d [] =
    (length (responses d) ≡ d.min_idp)
    × (answers "reject" (responses d) ≡ 0)
    × ((0 < answers "accept" (responses d)) ⊎ (is_identity_purpose d.purpose ≡ true))
IsDone d (s ∷ ss) =
    let all = map service_status (s ∷ ss) in
    (total (λ s. s.min_as) all ≡ total (λ s. s.signed_data_count) all)
    × (total (λ s. s.signed_data_count) all ≡ total (λ s. s.received_data_count) all)

is_completed_iff :
    (d : RequestDetail) (ss : List Service)
    → list_or_empty d.data_request_list ≡ ss
    → (is_completed d (responses d) (response_count (responses d)) ≡ true) ↔ IsDone d ss
unfolding is_completed
is_completed_iff d [] e = rw e (ground (arith, response_count_lem (responses d)))
is_completed_iff d (s ∷ ss) e = rw e (ground (arith, totals_lem (map service_status (s ∷ ss))))

-- The meaning of each status. A request that has responses, none of them an acceptance or a
-- rejection, has no status.
abbrev pub Means : RequestDetail → Option Status → Type 0
Means d (some completed) = IsDone d (list_or_empty d.data_request_list)
Means d (some pending) =
    (¬ IsDone d (list_or_empty d.data_request_list)) × (length (responses d) ≡ 0)
Means d (some confirmed) =
    (¬ IsDone d (list_or_empty d.data_request_list))
    × (0 < answers "accept" (responses d))
    × (answers "reject" (responses d) ≡ 0)
Means d (some rejected) =
    (¬ IsDone d (list_or_empty d.data_request_list))
    × (answers "accept" (responses d) ≡ 0)
    × (0 < answers "reject" (responses d))
Means d (some complicated) =
    (¬ IsDone d (list_or_empty d.data_request_list))
    × (0 < answers "accept" (responses d))
    × (0 < answers "reject" (responses d))
Means d none =
    (¬ IsDone d (list_or_empty d.data_request_list))
    × (0 < length (responses d))
    × (answers "accept" (responses d) ≡ 0)
    × (answers "reject" (responses d) ≡ 0)

pos_lt : (l : ℕ) → ltb 0 (suc l) ≡ true
pos_lt l = ground arith

suc_ne_zero : (l : ℕ) → (suc l == 0) ≡ false
suc_ne_zero l = ground arith

not-IsDone :
    (d : RequestDetail)
    → is_completed d (responses d) (response_count (responses d)) ≡ false
    → ¬ IsDone d (list_or_empty d.data_request_list)
not-IsDone d f h = cc ((is_completed_iff d (list_or_empty d.data_request_list) refl).1 h)

consent_Means :
    (d : RequestDetail)
    → ¬ IsDone d (list_or_empty d.data_request_list)
    → Means d (consent_status (responses d) (response_count (responses d)))
unfolding consent_status
consent_Means d n = go _ _ _ refl refl refl
  where
    c :
        ((response_count (responses d)).accept ≡ answers "accept" (responses d))
        × ((response_count (responses d)).reject ≡ answers "reject" (responses d))
    c = response_count_lem (responses d)

    go :
        (x y l : ℕ)
        → (response_count (responses d)).accept ≡ x
        → (response_count (responses d)).reject ≡ y
        → length (responses d) ≡ l
        → Means d (consent_status (responses d) (response_count (responses d)))
    go zero zero zero p q r = simp (p, q, r) (n, refl)
    go zero zero (suc l) p q r =
        simp (p, q, r, suc_ne_zero) (n, omega arith, omega (arith, c), omega (arith, c))
    go zero (suc y) l p q r = simp (p, q, pos_lt) (n, omega (arith, c), omega (arith, c))
    go (suc x) zero l p q r = simp (p, q, pos_lt) (n, omega (arith, c), omega (arith, c))
    go (suc x) (suc y) l p q r =
        simp (p, q, pos_lt, suc_ne_zero) (n, omega (arith, c), omega (arith, c))

-- Every request gets the status that its responses and data counts mean: the five statuses and the
-- missing one exclude one another, and are decided by whether the request is done, whether some IdP
-- accepted and whether some IdP rejected.
pub status-Means : (d : RequestDetail) → Means d (get_detailed_request_status d).status
unfolding get_detailed_request_status
status-Means d = elim (Bool-cases (is_completed d (responses d) (response_count (responses d)))) [
  | inl t ↦ rw t ((is_completed_iff d (list_or_empty d.data_request_list) refl).0 t)
  | inr f ↦ rw f (consent_Means d (not-IsDone d f))
]
