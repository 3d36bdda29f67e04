-- ===== src/Adapter/Outcome.antt =====
-- How a C++ call ends: with a value, with an exception and its text, or with undefined behaviour.
use co_bra_for_binary_ninja.Prelude.{Bytes}

pub data Outcome {ℓ} (A : Type ℓ) : Type ℓ where
  returned : A → Outcome A
  thrown : Bytes → Outcome A
  undefined : Outcome A

infixl 5 ◌>>=◌
abbrev pub ◌>>=◌ {ℓ κ} : {A : Type ℓ} {B : Type κ} → Outcome A → (A → Outcome B) → Outcome B
returned a >>= f = f a
thrown text >>= f = thrown text
undefined >>= f = undefined
