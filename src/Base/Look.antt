-- ===== src/Base/Look.antt =====
-- What a lookup found, before and after an update of the map.
use mathlib.Core.Path.{◌≡◌}
use mathlib.Core.Logic.{◌⊎◌, inl, inr}
use mathlib.Core.Bool.{false}
use mathlib.Core.Option.{Option, none, some}
use mathlib.Core.List.{List}
use package.ndidplatform_api.Base.Tests.{Eq, ◌==◌, ==_iff, Bool-cases}
use package.ndidplatform_api.Base.Map.{get, put, delete, get-put, get-delete}

pub some_inj {ℓ} : {A : Type ℓ} (a b : A) → Path (Option A) (some a) (some b) → a ≡ b
some_inj a b h = cc

module _ {ℓ κ} {K : Type ℓ} {V : Type κ} ⦃e : Eq K⦄ where
  pub get-put_cases :
      (k j : K) (v w : V) (m : List (K × V))
      → get j (put k v m) ≡ some w
      → ((k ≡ j) × (v ≡ w)) ⊎ (((k == j) ≡ false) × (get j m ≡ some w))
  get-put_cases k j v w m h = elim (Bool-cases (k == j)) [
    | inl t ↦ inl ((==_iff k j).0 t, some_inj v w (rw (get-put k j v m, t) at h))
    | inr f ↦ inr (f, rw (get-put k j v m, f) at h)
  ]

  pub get-put_other :
      (k j : K) (v : V) (m : List (K × V)) → (k == j) ≡ false → get j (put k v m) ≡ get j m
  get-put_other k j v m h = rw (get-put k j v m, h)

  pub get-delete_cases :
      (k j : K) (w : V) (m : List (K × V))
      → get j (delete k m) ≡ some w
      → ((k == j) ≡ false) × (get j m ≡ some w)
  get-delete_cases k j w m h = elim (Bool-cases (k == j)) [
    | inl t ↦ let q : none ≡ some w = rw (get-delete k j m, t) at h in absurd (cc)
    | inr f ↦ (f, rw (get-delete k j m, f) at h)
  ]

  pub get-delete_other :
      (k j : K) (m : List (K × V)) → (k == j) ≡ false → get j (delete k m) ≡ get j m
  get-delete_other k j m h = rw (get-delete k j m, h)
