-- ===== src/Prelude/Results.antt =====
-- A call that returns or raises, over the errors of its component.
use mathlib.Core.Path.{◌≡◌, refl}
use mathlib.Core.Logic.{◌⊎◌, inl, inr}

pub data Outcome {ℓ κ} (E : Type ℓ) (A : Type κ) : Type (ℓ ⊔ κ) where
  raise : E → Outcome E A
  return : A → Outcome E A

infixl 5 ◌and_then◌
abbrev pub ◌and_then◌ {ℓ κ μ} :
    {E : Type ℓ} {A : Type κ} {B : Type μ} → Outcome E A → (A → Outcome E B) → Outcome E B
raise problem and_then next = raise problem
return value and_then next = next value

pub Outcome-cases {ℓ κ} :
    {E : Type ℓ} {A : Type κ} (call : Outcome E A)
    → ((e : E) × (call ≡ raise e)) ⊎ ((a : A) × (call ≡ return a))
Outcome-cases (raise e) = inl (e, refl)
Outcome-cases (return a) = inr (a, refl)

-- A chain that returns has each of its calls return.
pub and_then_return {ℓ κ μ} :
    {E : Type ℓ} {A : Type κ} {B : Type μ} (call : Outcome E A) (next : A → Outcome E B) {b : B}
    → (call and_then next) ≡ return b
    → (a : A) × (call ≡ return a) × (next a ≡ return b)
and_then_return (raise e) next h = cc
and_then_return (return a) next h = (a, refl, h)
