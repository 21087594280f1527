-- ===== src/Base/Exceptions.antt =====
-- A Python call that returns a value or raises an exception that its caller does not catch.
use mathlib.Core.Path.{◌≡◌, refl}

pub data PyError : Type 0 where
  type_error value_error overflow_error key_error : PyError

pub data Py {ℓ} (A : Type ℓ) : Type ℓ where
  raised : PyError → Py A
  returned : A → Py A

infixl 5 ◌>>=◌
abbrev pub ◌>>=◌ {ℓ κ} : {A : Type ℓ} {B : Type κ} → Py A → (A → Py B) → Py B
◌>>=◌ p k = elim p [ raised e ↦ raised e | returned a ↦ k a ]

-- Only a part that returns lets a chain return.
pub returned-parts {ℓ κ} :
    {A : Type ℓ} {B : Type κ} (p : Py A) (k : A → Py B) {b : B}
    → (p >>= k) ≡ returned b
    → (a : A) × (p ≡ returned a) × (k a ≡ returned b)
returned-parts (raised e) k h = cc
returned-parts (returned a) k h = (a, refl, h)
