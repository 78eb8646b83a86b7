-- ===== src/Prelude/Runs.antt =====
-- Runs of kernel code that may stop the machine: `none` is a failed ASSERT, a PANIC, or an access
-- outside the memory or the device that the code was given.
use mathlib.Core.Bool.{Bool, true, false}
use mathlib.Core.Option.{Option, none, some}

infixl 5 ◌>>=◌ ◌>>◌
abbrev pub ◌>>=◌ {ℓ κ} : {A : Type ℓ} {B : Type κ} → Option A → (A → Option B) → Option B
some a >>= f = f a
none >>= f = none

abbrev pub ◌>>◌ {ℓ} : {B : Type ℓ} → Option (Unit {0}) → Option B → Option B
m >> k = m >>= λ _. k

-- `ASSERT (condition)`
abbrev pub check : Bool → Option (Unit {0})
check true = some tt
check false = none
