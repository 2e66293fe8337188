-- ===== src/Base/Integers.antt =====
-- Integers over the native numbers.
use Prim.Native.Nat.{ℕ, suc, ◌+◌, ◌-◌}
use mathlib.Core.Path.{◌≡◌}
use native.Mathlib.Omega.{arith}
use bybit_cpp_api.Base.Tests.{leb, if◌then◌else◌}

pub data ℤ : Type 0 where
  pos negsuc : ℕ → ℤ

-- `a - b`.
infixl 60 ◌⊖◌
unfoldable pub ◌⊖◌ : ℕ → ℕ → ℤ
a ⊖ b = if leb b a then ℤ.pos (a - b) else ℤ.negsuc (b - suc a)

-- `a + i`.
infixl 60 ◌⊕◌
unfoldable pub ◌⊕◌ : ℕ → ℤ → ℤ
unfolding ◌⊖◌
a ⊕ ℤ.pos n = ℤ.pos (a + n)
a ⊕ ℤ.negsuc n = a ⊖ suc n

-- A difference that is added to another number.
pub ⊕-⊖ : (a b c : ℕ) → c ⊕ (a ⊖ b) ≡ (a + c) ⊖ b
unfolding ◌⊕◌ ◌⊖◌
⊕-⊖ a b c = ground arith
