-- ===== src/Base/Faults.antt =====
-- The outcome of code that touches memory: a value, or a fault (an access outside of an array or
-- through a pointer that is not live), where C leaves the behaviour undefined.
use mathlib.Core.Path.{◌≡◌, refl}
use mathlib.Core.Logic.{◌⊎◌, inl, inr}

pub data Exec {ℓ} (A : Type ℓ) : Type ℓ where
  done : A → Exec A
  fault : Exec A

infixl 5 ◌>>=◌
abbrev pub ◌>>=◌ {ℓ κ} : {A : Type ℓ} {B : Type κ} → Exec A → (A → Exec B) → Exec B
done a >>= f = f a
fault >>= f = fault

-- The code ends without a fault, and its value satisfies `P`.
abbrev pub Ends {ℓ} : {A : Type ℓ} → Exec A → (A → Type 0) → Type 0
Ends (done a) P = P a
Ends fault P = ⊥

pub Ends-map {ℓ} :
    {A : Type ℓ} {P Q : A → Type 0} (m : Exec A) → ((a : A) → P a → Q a) → Ends m P → Ends m Q
Ends-map (done a) f h = f a h
Ends-map fault f h = h

pub Ends-bind {ℓ κ} :
    {A : Type ℓ} {B : Type κ} {P : A → Type 0} (Q : B → Type 0) (m : Exec A) (k : A → Exec B)
    → Ends m P
    → ((a : A) → P a → Ends (k a) Q)
    → Ends (m >>= k) Q
Ends-bind Q (done a) k h f = f a h
Ends-bind Q fault k h f = absurd h

pub Ends-both {ℓ} :
    {A : Type ℓ} (Q R : A → Type 0) (m : Exec A) → Ends m Q → Ends m R → Ends m (λ a. Q a × R a)
Ends-both Q R (done a) q r = (q, r)
Ends-both Q R fault q r = absurd q

-- Where the code ends, there is a value.
pub Ends-done {ℓ} :
    {A : Type ℓ} {P : A → Type 0} (m : Exec A) → Ends m P → (a : A) × (m ≡ done a) × P a
Ends-done (done a) h = (a, refl, h)
Ends-done fault h = absurd h

pub Exec-cases {ℓ} : {A : Type ℓ} (m : Exec A) → ((a : A) × (m ≡ done a)) ⊎ (m ≡ fault)
Exec-cases (done a) = inl (a, refl)
Exec-cases fault = inr refl
