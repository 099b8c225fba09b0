-- ===== src/Core/Outcome.antt =====
-- How a call of the core ends: with a value, with an error, or in a panic.
use rainbowsquirrel.Base.{◌≡◌, refl}
use rainbowsquirrel.Core.Errors.{GoError}

pub data Outcome {ℓ} (A : Type ℓ) : Type ℓ where
  ok : A → Outcome A
  fail : GoError → Outcome A
  panic : Outcome A

module _ {ℓ κ} {First : Type ℓ} {Last : Type κ} where
  infixl 5 ◌>>=◌
  abbrev pub ◌>>=◌ : Outcome First → (First → Outcome Last) → Outcome Last
  ok found >>= next = next found
  (fail e) >>= next = fail e
  panic >>= next = panic

  -- A chain that ends well has passed through each of its steps.
  pub bind-eq-ok :
      (step : Outcome First) (next : First → Outcome Last) {end : Last}
      → (step >>= next) ≡ ok end
      → (found : First) × (step ≡ ok found) × (next found ≡ ok end)
  bind-eq-ok (ok found) next ended = (found, refl, ended)
  bind-eq-ok (fail e) next ended = cc
  bind-eq-ok panic next ended = cc
