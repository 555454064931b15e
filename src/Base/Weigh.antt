-- ===== src/Base/Weigh.antt =====
-- Sums over the entries of a keyed map, and how an update of one key moves them.
use Prim.Native.Nat.{ℕ, ◌+◌}
use mathlib.Core.Path.{◌≡◌, refl}
use mathlib.Core.Logic.{inl, inr}
use mathlib.Core.Bool.{true}
use mathlib.Core.Option.{Option, none, some}
use mathlib.Core.List.{List, [], ◌∷◌, ◌++◌}
use native.Mathlib.Omega.{arith}
use package.ndidplatform_api.Base.Tests.{Eq, ◌==◌, ==_iff, Bool-cases}
use package.ndidplatform_api.Base.Lists.{length}
use package.ndidplatform_api.Base.Map.{
  get, put, delete, Absent, Distinct, delete-Absent, put-Absent,
}

abbrev pub weight_or_zero {κ} : {V : Type κ} → (V → ℕ) → Option V → ℕ
weight_or_zero w none = 0
weight_or_zero w (some v) = w v

abbrev pub one {κ} : {V : Type κ} → V → ℕ
one v = 1

module _ {ℓ κ} {K : Type ℓ} {V : Type κ} where
  abbrev pub weigh : (V → ℕ) → List (K × V) → ℕ
  weigh w [] = 0
  weigh w ((k, v) ∷ m) = w v + weigh w m

  pub weigh-one : (m : List (K × V)) → weigh one m ≡ length m
  weigh-one [] = refl
  weigh-one ((k, v) ∷ m) = omega (arith, weigh-one m)

module _ {ℓ κ} {K : Type ℓ} {V : Type κ} ⦃e : Eq K⦄ (w : V → ℕ) where
  pub weigh-put :
      (k : K) (v : V) (m : List (K × V))
      → weigh w (put k v m) + weight_or_zero w (get k m) ≡ weigh w m + w v
  unfolding put get
  weigh-put k v [] = omega arith
  weigh-put k v ((j, u) ∷ m) = ground (arith, weigh-put k v m)

  pub weigh-delete :
      (k : K) (m : List (K × V))
      → Distinct m
      → weigh w (delete k m) + weight_or_zero w (get k m) ≡ weigh w m
  unfolding delete get
  weigh-delete k [] d = omega arith
  weigh-delete k ((j, u) ∷ m) d = elim (Bool-cases (j == k)) [
    | inl t ↦ rw (t, delete-Absent k m (moved t)) (omega arith)
    | inr f ↦ rw f (omega (arith, weigh-delete k m d.1))
  ]
    where
      moved : (j == k) ≡ true → Absent k m
      moved t = rw (← (==_iff j k).0 t) d.0

module _ {ℓ κ} {K : Type ℓ} {V : Type κ} ⦃e : Eq K⦄ where
  pub Absent-get : (k : K) (m : List (K × V)) → get k m ≡ none → Absent k m
  unfolding get
  Absent-get k [] h = tt
  Absent-get k ((j, v) ∷ m) h = elim (Bool-cases (j == k)) [
    | inl t ↦ let q : some v ≡ none = rw t at h in cc
    | inr f ↦ (f, Absent-get k m (rw f at h))
  ]

  -- A new key goes to the end.
  pub put_new : (k : K) (v : V) (m : List (K × V)) → get k m ≡ none → put k v m ≡ m ++ (k, v) ∷ []
  put_new k v m h = put-Absent k v m (Absent-get k m h)

module _ {ℓ κ} {K : Type ℓ} {V : Type κ} ⦃e : Eq K⦄ (k : K) (m : List (K × V)) where
  pub length-put_old : (v w : V) → get k m ≡ some v → length (put k w m) ≡ length m
  length-put_old v w h = ground (arith, h, weigh-put one k w m, weigh-one (put k w m), weigh-one m)

  pub length-put_new : (w : V) → get k m ≡ none → length (put k w m) ≡ length m + 1
  length-put_new w h = ground (arith, h, weigh-put one k w m, weigh-one (put k w m), weigh-one m)

  pub length-delete : (v : V) → Distinct m → get k m ≡ some v → length (delete k m) + 1 ≡ length m
  length-delete v d h =
      ground (arith, h, weigh-delete one k m d, weigh-one (delete k m), weigh-one m)
