-- ===== src/Base/Map.antt =====
-- JavaScript's keyed collections (`Map`, and objects used as dictionaries): association lists in
-- insertion order, with a key at most once.
use mathlib.Core.Path.{◌≡◌, refl, ap, subst}
use mathlib.Core.Logic.{inl, inr}
use mathlib.Core.Bool.{Bool, true, false}
use mathlib.Core.Option.{Option, none, some}
use mathlib.Core.List.{List, [], ◌∷◌, ◌++◌}
use native.Mathlib.Omega.{arith}
use package.ndidplatform_api.Base.Tests.{
  if◌then◌else◌, Eq, ◌==◌, ==_iff, ==_refl, ==_sym_false, Bool-cases,
}
use package.ndidplatform_api.Base.Lists.{All}

abbrev pub is_some {ℓ} : {A : Type ℓ} → Option A → Bool
is_some none = false
is_some (some a) = true

module _ {ℓ κ} {K : Type ℓ} {V : Type κ} ⦃e : Eq K⦄ where
  -- `m.get(k)` and `m[k]`.
  unfoldable pub get : K → List (K × V) → Option V
  get k [] = none
  get k ((j, v) ∷ m) = if j == k then some v else get k m

  -- `m.set(k, v)` and `m[k] = v`: in place, or at the end.
  unfoldable pub put : K → V → List (K × V) → List (K × V)
  put k v [] = (k, v) ∷ []
  put k v ((j, w) ∷ m) = if j == k then (k, v) ∷ m else (j, w) ∷ put k v m

  -- `m.delete(k)` and `delete m[k]`.
  unfoldable pub delete : K → List (K × V) → List (K × V)
  delete k [] = []
  delete k ((j, w) ∷ m) = if j == k then delete k m else (j, w) ∷ delete k m

  pub get-put :
      (k j : K) (v : V) (m : List (K × V))
      → get j (put k v m) ≡ (if k == j then some v else get j m)
  unfolding get put
  get-put k j v [] = refl
  get-put k j v ((i, w) ∷ m) = ground (arith, ==_iff k j, ==_iff i k, ==_iff i j, get-put k j v m)

  pub get-delete :
      (k j : K) (m : List (K × V)) → get j (delete k m) ≡ (if k == j then none else get j m)
  unfolding get delete
  get-delete k j [] = ground arith
  get-delete k j ((i, w) ∷ m) = ground (arith, ==_iff k j, ==_iff i k, ==_iff i j, get-delete k j m)

  pub get-put_self : (k : K) (v : V) (m : List (K × V)) → get k (put k v m) ≡ some v
  get-put_self k v m = simp (get-put, ==_refl)

  pub get-delete_self : (k : K) (m : List (K × V)) → get k (delete k m) ≡ none
  get-delete_self k m = simp (get-delete, ==_refl)

-- No entry of the map has the key.
abbrev pub Absent {ℓ κ} : {K : Type ℓ} {V : Type κ} ⦃e : Eq K⦄ → K → List (K × V) → Type 0
Absent k [] = Unit
Absent k ((j, v) ∷ m) = ((j == k) ≡ false) × Absent k m

abbrev pub Distinct {ℓ κ} : {K : Type ℓ} {V : Type κ} ⦃e : Eq K⦄ → List (K × V) → Type 0
Distinct [] = Unit
Distinct ((k, v) ∷ m) = Absent k m × Distinct m

module _ {ℓ κ} {K : Type ℓ} {V : Type κ} ⦃e : Eq K⦄ where
  pub get-Absent : (k : K) (m : List (K × V)) → Absent k m → get k m ≡ none
  unfolding get
  get-Absent k [] h = refl
  get-Absent k ((j, v) ∷ m) h = ground (arith, get-Absent k m h.1)

  pub put-Absent : (k : K) (v : V) (m : List (K × V)) → Absent k m → put k v m ≡ m ++ (k, v) ∷ []
  unfolding put
  put-Absent k v [] h = refl
  put-Absent k v ((j, w) ∷ m) h = rw h.0 (ap (λ r. (j, w) ∷ r) (put-Absent k v m h.1))

  pub delete-Absent : (k : K) (m : List (K × V)) → Absent k m → delete k m ≡ m
  unfolding delete
  delete-Absent k [] h = refl
  delete-Absent k ((j, w) ∷ m) h = rw h.0 (ap (λ r. (j, w) ∷ r) (delete-Absent k m h.1))

  pub delete-head : (k : K) (v : V) (m : List (K × V)) → Absent k m → delete k ((k, v) ∷ m) ≡ m
  unfolding delete
  delete-head k v m h = rw (==_refl k) (delete-Absent k m h)

  pub Absent-delete : (k j : K) (m : List (K × V)) → Absent j m → Absent j (delete k m)
  unfolding delete
  Absent-delete k j [] h = h
  Absent-delete k j ((i, w) ∷ m) h = ground (arith, Absent-delete k j m h.1)

  pub Absent-delete_self : (k : K) (m : List (K × V)) → Absent k (delete k m)
  unfolding delete
  Absent-delete_self k [] = tt
  Absent-delete_self k ((i, w) ∷ m) = ground (arith, Absent-delete_self k m)

  pub Absent-put :
      (k j : K) (v : V) (m : List (K × V)) → (k == j) ≡ false → Absent j m → Absent j (put k v m)
  unfolding put
  Absent-put k j v [] n h = (n, tt)
  Absent-put k j v ((i, w) ∷ m) n h = ground (arith, Absent-put k j v m n h.1)

  pub Distinct-put : (k : K) (v : V) (m : List (K × V)) → Distinct m → Distinct (put k v m)
  unfolding put
  Distinct-put k v [] h = (tt, tt)
  Distinct-put k v ((i, w) ∷ m) h = elim (Bool-cases (i == k)) [
    | inl hit ↦ rw (hit, ← (==_iff i k).0 hit) h
    | inr miss ↦ rw miss (Absent-put k i v m (==_sym_false i k miss) h.0, Distinct-put k v m h.1)
  ]

  pub Distinct-delete : (k : K) (m : List (K × V)) → Distinct m → Distinct (delete k m)
  unfolding delete
  Distinct-delete k [] h = h
  Distinct-delete k ((i, w) ∷ m) h =
      ground (arith, Distinct-delete k m h.1, Absent-delete k i m h.0)

module _ {ℓ κ μ} {K : Type ℓ} {V : Type κ} ⦃e : Eq K⦄ (P : K × V → Type μ) where
  -- What holds of every entry holds of the one that is found.
  pub get-All : (k : K) (v : V) (m : List (K × V)) → All P m → get k m ≡ some v → P (k, v)
  unfolding get
  get-All k v [] h g = cc
  get-All k v ((j, w) ∷ m) h g = elim (Bool-cases (j == k)) [
    | inl t ↦ subst P (cc ((==_iff j k).0 t, found w v (rw t at g))) h.0
    | inr f ↦ get-All k v m h.1 (rw f at g)
  ]
    where
      found : (a b : V) → Path (Option V) (some a) (some b) → a ≡ b
      found a b p = cc

  pub All-put : (k : K) (v : V) (m : List (K × V)) → P (k, v) → All P m → All P (put k v m)
  unfolding put
  All-put k v [] p h = (p, tt)
  All-put k v ((j, w) ∷ m) p h = ground (arith, All-put k v m p h.1)

  pub All-delete : (k : K) (m : List (K × V)) → All P m → All P (delete k m)
  unfolding delete
  All-delete k [] h = h
  All-delete k ((j, w) ∷ m) h = ground (arith, All-delete k m h.1)
