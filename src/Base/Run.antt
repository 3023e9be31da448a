-- ===== src/Base/Run.antt =====
-- How a piece of C++ can end, when it loops or touches memory that it may not touch.
use mathlib.Core.Option.{Option, none, some}
use mathlib.Core.Path.{◌≡◌, subst, refl}

-- `fault` is undefined behaviour or a failed assertion; `exhausted` is a loop cut off by its fuel.
pub data Run {ℓ} (A : Type ℓ) : Type ℓ where
  done : A → Run A
  fault : Run A
  exhausted : Run A

infixl 5 ◌>>=◌
abbrev pub ◌>>=◌ {ℓ κ} : {A : Type ℓ} {B : Type κ} → Run A → (A → Run B) → Run B
done a >>= f = f a
fault >>= f = fault
exhausted >>= f = exhausted

-- A read through a pointer or an index: nothing there is a fault.
abbrev pub deref {ℓ} : {A : Type ℓ} → Option A → Run A
deref none = fault
deref (some a) = done a

-- What holds of the result, if there is one.
abbrev pub Ensures {ℓ κ} : {A : Type ℓ} → (A → Type κ) → Run A → Type κ
Ensures P (done a) = P a
Ensures P fault = Unit
Ensures P exhausted = Unit

pub Ensures-bind {ℓ κ μ ν} :
    {A : Type ℓ} {B : Type κ} (Q : A → Type μ) (P : B → Type ν) (m : Run A) (f : A → Run B)
    → Ensures Q m
    → ((a : A) → Q a → Ensures P (f a))
    → Ensures P (m >>= f)
Ensures-bind Q P (done a) f h k = k a h
Ensures-bind Q P fault f h k = tt
Ensures-bind Q P exhausted f h k = tt

-- Nothing is known of the first step.
pub Ensures-any {ℓ κ ν} :
    {A : Type ℓ} {B : Type κ} (P : B → Type ν) (m : Run A) (f : A → Run B)
    → ((a : A) → Ensures P (f a))
    → Ensures P (m >>= f)
Ensures-any P (done a) f k = k a
Ensures-any P fault f k = tt
Ensures-any P exhausted f k = tt

pub Ensures-done {ℓ κ} :
    {A : Type ℓ} (P : A → Type κ) (m : Run A) (a : A) → Ensures P m → m ≡ done a → P a
Ensures-done P m a h e = subst (Ensures P) e h

-- What holds of the result, and that it is the result.
pub Ensures-with {ℓ κ} :
    {A : Type ℓ} (P : A → Type κ) (m : Run A) → Ensures P m → Ensures (λ a. P a × (m ≡ done a)) m
Ensures-with P (done a) h = (h, refl)
Ensures-with P fault h = tt
Ensures-with P exhausted h = tt
