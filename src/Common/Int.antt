-- ===== src/Common/Int.antt =====
-- Signed integers over the native numbers, and the reading of a 64-bit word as one.
use Prim.Native.Nat.{ℕ, ◌-◌, ◌^◌, ◌<◌, ◌%◌}
use mathlib.Core.Path.{◌≡◌}
use mathlib.Core.Logic.{◌⊎◌, inl, inr, ◌≢◌}
use native.Mathlib.Omega.{arith}
use native.Mathlib.Decide.{ℕ_discrete}
use ebpfmanager.Common.Tests.{ltb, if◌then◌else◌}

-- `negsuc n` is -(n + 1).
pub data ℤ : Type 0 where
  pos : ℕ → ℤ
  negsuc : ℕ → ℤ

-- The two's complement reading of a word of `w` bits.
unfoldable pub signed : ℕ → ℕ → ℤ
signed w x = if ltb x (2 ^ (w - 1)) then pos x else negsuc (2 ^ w - x - 1)

-- The word of `w` bits that stands for an integer.
unfoldable pub unsigned : ℕ → ℤ → ℕ
unsigned w (pos n) = n % 2 ^ w
unsigned w (negsuc n) = 2 ^ w - 1 - n % 2 ^ w

pub unsigned-signed64 : (x : ℕ) → x < 2 ^ 64 → unsigned 64 (signed 64 x) ≡ x
unfolding signed unsigned
unsigned-signed64 x h = ground arith

pub ℤ-discrete : Discrete ℤ
ℤ-discrete = hlevel ℕ_discrete

-- Whether a status is 0.
pub zero-cases : (s : ℤ) → (s ≡ pos 0) ⊎ (s ≢ pos 0)
zero-cases s = elim (ℤ-discrete s (pos 0)) [ yes e ↦ inl e | no n ↦ inr n ]
