-- ===== src/Prelude/Tables.antt =====
-- Facts about the masks of a 32-bit word, by a check of every pair of digits.
use Prim.Native.Nat.{ℕ, zero, suc, ◌-◌, ◌^◌, ◌<◌}
use native.Mathlib.Decide.{ℕ_discrete}
use mathlib.Core.Path.{◌≡◌, refl}
use mathlib.Core.Bool.{Bool, true, false}
use native.Mathlib.Omega.{arith}
use utcs.Prelude.Tests.{◌==◌, if◌then◌else◌, ==_iff, Bool-cases}
use mathlib.Core.Logic.{inl, inr}
use utcs.Prelude.Digits.{bit}

-- Does the test hold at every number below the bound?
passes : (test : ℕ → Bool) → (bound : ℕ) → Bool
passes test zero = true
passes test (suc top) = if test top then passes test top else false

at-passes :
    (test : ℕ → Bool) (bound : ℕ)
    → passes test bound ≡ true
    → (at : ℕ) → at < bound
    → test at ≡ true
unfolding passes
at-passes test zero all_pass at below = absurd (omega arith)
at-passes test (suc top) all_pass at below = elim (Bool-cases (test top)) [
  | inr fails ↦ absurd (ground (arith, fails))
  | inl here ↦ elim (ℕ_discrete at top) [
    | yes e ↦ rw e here
    | no ne ↦ at-passes test top (rw here at all_pass) at (omega arith)
  ]
]

abbrev power_row : ℕ → ℕ → Bool
power_row m k = bit (2 ^ m) k == (if k == m then 1 else 0)

abbrev complement_row : ℕ → ℕ → Bool
complement_row m k = bit (2 ^ 32 - 1 - 2 ^ m) k == (if k == m then 0 else 1)

power_table : passes (λ m. passes (power_row m) 32) 32 ≡ true
unfolding passes
power_table = refl

complement_table : passes (λ m. passes (complement_row m) 32) 32 ≡ true
unfolding passes
complement_table = refl

-- The mask of one digit of a 32-bit word, and the complement of that mask.
pub bit-power : (m k : ℕ) → m < 32 → k < 32 → bit (2 ^ m) k ≡ (if k == m then 1 else 0)
bit-power m k hm hk = (==_iff _ _).0 (at-passes _ 32 (at-passes _ 32 power_table m hm) k hk)

pub bit-complement :
    (m k : ℕ) → m < 32 → k < 32 → bit (2 ^ 32 - 1 - 2 ^ m) k ≡ (if k == m then 0 else 1)
bit-complement m k hm hk =
    (==_iff _ _).0 (at-passes _ 32 (at-passes _ 32 complement_table m hm) k hk)
