-- ===== src/Base/Results.antt =====
-- Fallible steps: a Go function that returns (value, error).
use mathlib.Core.Path.{◌≡◌, refl}
use mathlib.Core.Logic.{◌⊎◌, inl, inr}
use Prim.Native.Nat.{ℕ}
use fizzy_connector.Base.Texts.{Text}

-- The errors that the code tells apart; `failed` is any other error, with its text.
pub data Error : Type 0 where
  not_modified card_gone not_started cost_limit deadline_exceeded cancelled : Error
  api : ℕ → Error
  failed : Text → Error

pub data Result {ℓ} (A : Type ℓ) : Type ℓ where
  ok : A → Result A
  err : Error → Result A

pub Result-cases {ℓ} :
    {A : Type ℓ} (r : Result A) → ((e : Error) × (r ≡ err e)) ⊎ ((a : A) × (r ≡ ok a))
Result-cases (ok a) = inr (a, refl)
Result-cases (err e) = inl (e, refl)
