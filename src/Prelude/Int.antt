-- ===== src/Prelude/Int.antt =====
-- Signed integers over the native numbers (`i32` error codes), under the library's names.
use Prim.Native.Nat.{ℕ, ◌-◌}
use native.Mathlib.Decide.{ℕ_discrete}

-- `negsuc n` is -(n + 1).
pub data ℤ : Type 0 where
  pos : ℕ → ℤ
  negsuc : ℕ → ℤ

unfoldable pub ℤ-discrete : Discrete ℤ
ℤ-discrete = hlevel ℕ_discrete

-- -n, for n above zero.
abbrev pub neg : ℕ → ℤ
neg n = negsuc (n - 1)
