-- ===== src/Base/Checked.antt =====
-- Steps that may be refused, for a type of refusals.
use mathlib.Core.Path.{◌≡◌, refl}
use mathlib.Core.Bool.{Bool, true, false}
use mathlib.Core.Option.{Option, none, some}

pub data Checked {ℓ κ} (R : Type κ) (A : Type ℓ) : Type (ℓ ⊔ κ) where
  refused : R → Checked R A
  passed : A → Checked R A

infixl 5 ◌>>=◌ ◌>>◌
abbrev pub ◌>>=◌ : {R A B : Type 0} → Checked R A → (A → Checked R B) → Checked R B
refused r >>= next = refused r
passed a >>= next = next a

abbrev pub ◌>>◌ : {R B : Type 0} → Checked R (Unit {0}) → Checked R B → Checked R B
check >> next = check >>= λ done. next

abbrev pub refuse_if : {R : Type 0} → Bool → R → Checked R (Unit {0})
refuse_if true r = refused r
refuse_if false r = passed tt

abbrev pub need : {R A : Type 0} → Option A → R → Checked R A
need none r = refused r
need (some a) r = passed a

-- To take a chain that passed apart, step by step.
pub then_passed {ℓ} :
    {R A B : Type 0} {C : Type ℓ} (check : Checked R A) (next : A → Checked R B) {b : B}
    → (check >>= next) ≡ passed b
    → ((a : A) → check ≡ passed a → next a ≡ passed b → C)
    → C
then_passed (refused r) next h k = absurd (cc)
then_passed (passed a) next h k = k a refl h

pub refuse_if_lem :
    {R : Type 0} (b : Bool) (r : R) {u : Unit {0}} → refuse_if b r ≡ passed u → b ≡ false
refuse_if_lem true r h = cc
refuse_if_lem false r h = refl

pub passed_inj : {R A : Type 0} (a b : A) → Path (Checked R A) (passed a) (passed b) → a ≡ b
passed_inj a b h = cc
