-- ===== src/Base/Members.antt =====
-- Membership in arrays of distinct elements: `indexOf`, `includes`, and `splice` of one element.
use Prim.Native.Nat.{suc, ◌≤◌}
use mathlib.Core.Path.{◌≡◌, refl, sym, ap, ◌∙◌}
use mathlib.Core.Logic.{inl, inr}
use mathlib.Core.Bool.{Bool, true, false, ◌||◌}
use mathlib.Core.List.{List, [], ◌∷◌, ◌++◌}
use native.Mathlib.Omega.{arith}
use package.ndidplatform_api.Base.Tests.{if◌then◌else◌, Eq, ◌==◌, ==_iff, ==_refl, Bool-cases}
use package.ndidplatform_api.Base.Lists.{length}

abbrev pub is_nil {ℓ} : {A : Type ℓ} → List A → Bool
is_nil [] = true
is_nil (x ∷ xs) = false

module _ {ℓ} {A : Type ℓ} ⦃e : Eq A⦄ where
  -- `xs.indexOf(a) !== -1`.
  unfoldable pub includes : A → List A → Bool
  includes a [] = false
  includes a (x ∷ xs) = x == a || includes a xs

  -- `xs.splice(xs.indexOf(a), 1)`.
  unfoldable pub remove_first : A → List A → List A
  remove_first a [] = []
  remove_first a (x ∷ xs) = if x == a then xs else x ∷ remove_first a xs

-- No element stands twice.
abbrev pub Unique {ℓ} : {A : Type ℓ} ⦃e : Eq A⦄ → List A → Type 0
Unique [] = Unit
Unique (x ∷ xs) = (includes x xs ≡ false) × Unique xs

module _ {ℓ} {A : Type ℓ} ⦃e : Eq A⦄ where
  pub includes-append :
      (a : A) (xs ys : List A) → includes a (xs ++ ys) ≡ (includes a xs || includes a ys)
  unfolding includes
  includes-append a [] ys = refl
  includes-append a (x ∷ xs) ys = ground (arith, includes-append a xs ys)

  pub includes_last :
      (a b : A) (xs : List A) → includes b (xs ++ a ∷ []) ≡ (includes b xs || a == b)
  unfolding includes
  includes_last a b [] = ground arith
  includes_last a b (x ∷ xs) = ground (arith, includes_last a b xs)

  pub includes-remove_first :
      (a b : A) (xs : List A)
      → Unique xs
      → includes b (remove_first a xs) ≡ (if a == b then false else includes b xs)
  unfolding includes remove_first
  includes-remove_first a b [] u = ground arith
  includes-remove_first a b (x ∷ xs) u = elim (Bool-cases (x == a)) [
    | inl t ↦ elim (Bool-cases (a == b)) [
      | inl s ↦ rw (t, s, ← (==_iff a b).0 s, ← (==_iff x a).0 t) u.0
      | inr f ↦ rw (t, f, (==_iff x a).0 t, f) refl
    ]
    | inr f ↦ elim (Bool-cases (a == b)) [
      | inl s ↦ rw f (ground (arith, includes-remove_first a b xs u.1, ==_iff a b))
      | inr g ↦ rw f (ground (arith, includes-remove_first a b xs u.1))
    ]
  ]

  pub Unique-remove_first : (a : A) (xs : List A) → Unique xs → Unique (remove_first a xs)
  unfolding remove_first
  Unique-remove_first a [] u = tt
  Unique-remove_first a (x ∷ xs) u =
      ground (arith, includes-remove_first a x xs u.1, Unique-remove_first a xs u.1)

  pub Unique-append_one :
      (a : A) (xs : List A) → includes a xs ≡ false → Unique xs → Unique (xs ++ a ∷ [])
  unfolding includes
  Unique-append_one a [] n u = (refl, tt)
  Unique-append_one a (x ∷ xs) n u = ground (
    arith,
    includes_last a x xs,
    ==_iff x a,
    ==_iff a x,
    Unique-append_one a xs (ground arith) u.1,
  )

  pub length-remove_first-le : (a : A) (xs : List A) → length (remove_first a xs) ≤ length xs
  unfolding remove_first
  length-remove_first-le a [] = omega arith
  length-remove_first-le a (x ∷ xs) = ground (arith, length-remove_first-le a xs)

module _ {ℓ} {A : Type ℓ} ⦃e : Eq A⦄ where
  includes-remove_other :
      (a b : A) (xs : List A) → (a == b) ≡ false → includes b (remove_first a xs) ≡ includes b xs
  unfolding includes remove_first
  includes-remove_other a b [] n = refl
  includes-remove_other a b (x ∷ xs) n = elim (Bool-cases (x == a)) [
    | inl t ↦ rw t (ground (arith, ==_iff x a, ==_iff x b, ==_iff a b))
    | inr f ↦ rw f (ap (λ r. x == b || r) (includes-remove_other a b xs n))
  ]

  length-remove_first :
      (a : A) (xs : List A) → includes a xs ≡ true → suc (length (remove_first a xs)) ≡ length xs
  unfolding includes remove_first
  length-remove_first a [] h = cc
  length-remove_first a (x ∷ xs) h = ground (arith, length-remove_first a xs)

  different :
      (a b : A) (xs : List A) → includes a xs ≡ false → includes b xs ≡ true → (a == b) ≡ false
  different a b xs h k = elim (Bool-cases (a == b)) [
    | inl t ↦
        let p : includes b xs ≡ false = rw (← (==_iff a b).0 t) h in
        let q : true ≡ false = sym k ∙ p in absurd (cc)
    | inr f ↦ f
  ]

  -- Distinct elements of a list that is no longer than they are make up that list.
  pub pigeonhole :
      (xs ys : List A)
      → Unique xs
      → ((x : A) → includes x xs ≡ true → includes x ys ≡ true)
      → length ys ≤ length xs
      → (y : A) → includes y ys ≡ true
      → includes y xs ≡ true
  unfolding includes
  pigeonhole [] [] u sub n y h = h
  pigeonhole [] (z ∷ zs) u sub n y h = absurd (omega arith)
  pigeonhole (x ∷ xs) ys u sub n y h =
      let in_ys = sub x (rw (==_refl x) refl) in
      let one_less = length-remove_first x ys in_ys in
      let rest =
        pigeonhole xs (remove_first x ys) u.1
          (λ z k.
            let apart = different x z xs u.0 k in
            includes-remove_other x z ys apart ∙ sub z (rw k (or_true (x == z))))
          (omega arith) in
      elim (Bool-cases (x == y)) [
        | inl t ↦ rw t refl
        | inr f ↦ rw (rest y (includes-remove_other x y ys f ∙ h)) (or_true (x == y))
      ]
    where
      or_true : (b : Bool) → (b || true) ≡ true
      or_true b = ground arith
