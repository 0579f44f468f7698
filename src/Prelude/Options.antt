-- ===== src/Prelude/Options.antt =====
-- Chains of steps of which one may fail. `none` is a fault: a read outside an array, or a
-- conversion that C leaves undefined.
use mathlib.Core.Path.{◌≡◌, refl}
use mathlib.Core.Logic.{◌⊎◌, inl, inr}
use mathlib.Core.Option.{Option, none, some}

infixl 5 ◌>>=◌
abbrev pub ◌>>=◌ {ℓ κ} : {A : Type ℓ} {B : Type κ} → Option A → (A → Option B) → Option B
none >>= f = none
some a >>= f = f a

pub Option-cases {ℓ} : {A : Type ℓ} (o : Option A) → (o ≡ none) ⊎ ((a : A) × (o ≡ some a))
Option-cases none = inl refl
Option-cases (some a) = inr (a, refl)

-- A call that returned, and did not fault.
abbrev pub Returns {ℓ} : {A : Type ℓ} → Option A → Type ℓ
Returns {A} o = (a : A) × (o ≡ some a)

-- A chain that returned: its first step did, and so did the rest.
pub >>=-eq-some {ℓ κ} :
    {A : Type ℓ} {B : Type κ} (m : Option A) (g : A → Option B) {b : B}
    → (m >>= g) ≡ some b
    → (a : A) × (m ≡ some a) × (g a ≡ some b)
>>=-eq-some none g h = cc
>>=-eq-some (some a) g h = (a, refl, h)

-- A chain returns when its first step does, and so does the rest.
pub >>=-Returns {ℓ κ} :
    {A : Type ℓ} {B : Type κ} (m : Option A) (g : A → Option B) {a : A}
    → m ≡ some a
    → Returns (g a)
    → Returns (m >>= g)
>>=-Returns m g h (b, e) = (b, rw h e)
