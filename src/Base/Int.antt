-- ===== src/Base/Int.antt =====
-- Go's `int64`, as far as it is stored and compared. `negsuc n` is -(n + 1).
use persistent_pod_state.Base.Tests.{Eq}
use Prim.Native.Nat.{ℕ}
use native.Mathlib.Decide.{ℕ_discrete}

pub data ℤ : Type 0 where
  pos : ℕ → ℤ
  negsuc : ℕ → ℤ

unfoldable pub int_dec : Discrete ℤ
int_dec = hlevel ℕ_discrete

instance unfoldable pub int_eq : Eq ℤ
unfolding int_dec
int_eq = record { dec = int_dec }
