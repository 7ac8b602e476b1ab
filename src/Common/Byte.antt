-- ===== src/Common/Byte.antt =====
-- Two functions on bytes are compared by evaluation at each of the 256 values.
use peach_os64bit_module_two.Common.Tests.{◌==◌, if◌then◌else◌, Bool-cases}
use Prim.Native.Nat.{ℕ, zero, suc, ◌<◌}
use mathlib.Core.Path.{◌≡◌}
use mathlib.Core.Logic.{inl, inr}
use mathlib.Core.Bool.{Bool, true, false}
use native.Mathlib.Omega.{arith}

module _ (f g : ℕ → ℕ) where
  unfoldable pub agree : ℕ → Bool
  agree zero = true
  agree (suc top) = let below = agree top in if f top == g top then below else false

  agree-eq : (top x : ℕ) → agree top ≡ true → x < top → f x ≡ g x
  unfolding agree
  agree-eq zero x same lt = absurd (omega arith)
  agree-eq (suc top) x same lt = elim (Bool-cases (x == top)) [
    | inl last ↦ ground arith
    | inr before ↦ agree-eq top x (ground arith) (ground arith)
  ]

  -- Two functions that agree on every byte by evaluation.
  pub byte_ext : agree 256 ≡ true → (x : ℕ) → x < 256 → f x ≡ g x
  byte_ext table x byte = agree-eq 256 x table byte
