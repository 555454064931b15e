-- ===== src/Base/Tally.antt =====
-- How often a key occurs in a log, and in a keyed map of things that are still to come.
use Prim.Native.Nat.{ℕ, ◌+◌, ◌≤◌}
use Prim.Native.String.{String}
use mathlib.Core.Path.{◌≡◌, subst}
use mathlib.Core.Logic.{inl, inr}
use mathlib.Core.Option.{Option, none, some}
use mathlib.Core.List.{List, [], ◌∷◌}
use native.Mathlib.Omega.{arith}
use package.ndidplatform_api.Base.Tests.{if◌then◌else◌, ◌==◌, ==_iff, nat_eq, string_eq, Bool-cases}
use package.ndidplatform_api.Base.Map.{get, put, delete, get-put, get-delete}

-- How often an id is a key.
abbrev pub times {ℓ} : {A : Type ℓ} → String → List (String × A) → ℕ
times h [] = 0
times h ((j, a) ∷ m) = (if j == h then 1 else 0) + times h m

abbrev pub one_if_some {ℓ} : {A : Type ℓ} → Option A → ℕ
one_if_some none = 0
one_if_some (some a) = 1

-- What moves from a map of things to come to a log of things done is not counted twice.
pub moved_over {ℓ κ} :
    {A : Type ℓ} {B : Type κ} (h k : String) (m : List (String × A)) (done : List (String × B))
    (a : A) (b : B)
    → get k m ≡ some a
    → times h ((k, b) ∷ done) + one_if_some (get h (delete k m))
      ≤ times h done + one_if_some (get h m)
moved_over h k m done a b g = elim (Bool-cases (k == h)) [
  | inl t ↦
      let e = subst (λ x. get x m ≡ some a) ((==_iff k h).0 t) g in
      rw (get-delete k h m, t, e) (omega arith)
  | inr f ↦ rw (get-delete k h m, f) (omega arith)
]

pub dropped {ℓ} :
    {A : Type ℓ} (h k : String) (m : List (String × A))
    → one_if_some (get h (delete k m)) ≤ one_if_some (get h m)
dropped h k m = elim (Bool-cases (k == h)) [
  | inl t ↦ rw (get-delete k h m, t) (omega arith)
  | inr f ↦ rw (get-delete k h m, f) (omega arith)
]

pub added {ℓ} :
    {A : Type ℓ} (h k : String) (a : A) (m : List (String × A))
    → one_if_some (get h (put k a m)) ≤ (if k == h then 1 else 0) + one_if_some (get h m)
added h k a m = elim (Bool-cases (k == h)) [
  | inl t ↦ rw (get-put k h a m, t) (omega arith)
  | inr f ↦ rw (get-put k h a m, f) (omega arith)
]

pub replaced {ℓ} :
    {A : Type ℓ} (h k : String) (a b : A) (m : List (String × A))
    → get k m ≡ some a
    → one_if_some (get h (put k b m)) ≤ one_if_some (get h m)
replaced h k a b m g = elim (Bool-cases (k == h)) [
  | inl t ↦
      let e = subst (λ x. get x m ≡ some a) ((==_iff k h).0 t) g in
      rw (get-put k h b m, t, e) (omega arith)
  | inr f ↦ rw (get-put k h b m, f) (omega arith)
]

-- A map has a key once more at most when it is put.
pub times-put {ℓ} :
    {A : Type ℓ} (h k : String) (a : A) (m : List (String × A))
    → times h (put k a m) ≤ (if k == h then 1 else 0) + times h m
unfolding put
times-put h k a [] = omega arith
times-put h k a ((j, b) ∷ m) =
    let r = times-put h k a m in
    elim (Bool-cases (j == k)) [ inl t ↦ rw t (omega arith) | inr f ↦ rw f (omega arith) ]
