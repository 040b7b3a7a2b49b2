-- ===== src/Prelude/Fault.antt =====
-- Code that can run into undefined behaviour returns an option, and `none` is that behaviour: a
-- read through a null pointer, a write out of bounds, the end of a function that returns nothing.
use mathlib.Core.Path.{◌≡◌, refl}
use mathlib.Core.Bool.{Bool, true, false}
use mathlib.Core.Option.{Option, none, some}
use language_test.Prelude.Tests.{if◌then◌else◌}

infixl 5 ◌>>=◌ ◌>>◌
abbrev pub ◌>>=◌ {ℓ κ} : {A : Type ℓ} {B : Type κ} → Option A → (A → Option B) → Option B
none >>= f = none
some a >>= f = f a

abbrev pub ◌>>◌ {ℓ κ} : {A : Type ℓ} {B : Type κ} → Option A → Option B → Option B
m >> k = m >>= λ _. k

-- The run is defined, and its result satisfies `P`.
abbrev pub Returns {ℓ} : {A : Type ℓ} → Option A → (A → Type 0) → Type 0
Returns none P = ⊥
Returns (some a) P = P a

-- A test in front of two such runs.
pub Returns-if {ℓ} :
    {A : Type ℓ} (b : Bool) (x y : Option A) (P : A → Type 0)
    → (b ≡ true → Returns x P)
    → (b ≡ false → Returns y P)
    → Returns (if b then x else y) P
Returns-if true x y P f g = f refl
Returns-if false x y P f g = g refl

pub Returns-bind {ℓ κ} :
    {A : Type ℓ} {B : Type κ} (m : Option A) (f : A → Option B) (P : A → Type 0) (Q : B → Type 0)
    → Returns m P
    → ((a : A) → P a → Returns (f a) Q)
    → Returns (m >>= f) Q
Returns-bind none f P Q x g = x
Returns-bind (some a) f P Q x g = g a x

pub Returns-imp {ℓ} :
    {A : Type ℓ} (m : Option A) (P Q : A → Type 0)
    → Returns m P
    → ((a : A) → P a → Q a)
    → Returns m Q
Returns-imp none P Q x g = x
Returns-imp (some a) P Q x g = g a x

-- A defined run has a value.
pub Returns-some {ℓ} :
    {A : Type ℓ} (m : Option A) (P : A → Type 0) → Returns m P → (a : A) × (m ≡ some a) × P a
Returns-some none P x = absurd x
Returns-some (some a) P x = (a, refl, x)
