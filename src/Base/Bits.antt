-- ===== src/Base/Bits.antt =====
-- Machine words, and statements over a small range checked value by value.
use Prim.Native.Nat.{ℕ, zero, suc, ◌/◌, ◌%◌, ◌^◌, ◌≤◌, ◌<◌, min, digits, bit_and, bit_and-bitwise}
use mathlib.Core.Path.{◌≡◌, refl}
use mathlib.Core.Bool.{Bool, true, ◌&&◌}
use native.Mathlib.Decide.{ℕ_discrete}
use native.Mathlib.Omega.{arith}

-- uint32_t
abbrev pub u32 : ℕ → ℕ
u32 n = n % 2 ^ 32

-- A test that passes at each number below the bound.
module _ (test : ℕ → Bool) where
  unfoldable pub passes : ℕ → Bool
  passes zero = true
  passes (suc bound) = passes bound && test bound

  pub test_of_passes : (bound : ℕ) → passes bound ≡ true → (k : ℕ) → k < bound → test k ≡ true
  unfolding passes
  test_of_passes zero ok k h = elim h [ ]
  test_of_passes (suc bound) ok k h = elim (ℕ_discrete k bound) [
    | yes last ↦ rw last (ground arith)
    | no other ↦ test_of_passes bound (ground arith) k (omega arith)
  ]

-- The mask of the lowest bit: no digit above it survives.
no_digits : (n a : ℕ) → a ≤ n → digits (λ b. 0) min n a 0 ≡ 0
no_digits n zero h = elim n as (λ k. digits (λ b. 0) min k 0 0 ≡ 0) [ zero ↦ refl | suc k ↦ refl ]
no_digits zero (suc a) h = absurd (omega arith)
no_digits (suc n) (suc a) h = omega (arith, no_digits n (suc a / 2) (omega arith))

pub bit_and-one : (a : ℕ) → bit_and a 1 ≡ a % 2
bit_and-one zero = refl
bit_and-one (suc a) =
    omega (arith, bit_and-bitwise (suc a) 1, no_digits a (suc a / 2) (omega arith))
