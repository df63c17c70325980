-- ===== src/Prelude/Order.antt =====
-- Well-founded recursion on the native numbers.
use Prim.Native.Nat.{ℕ, zero, suc, ◌<◌}
use mathlib.Core.WellFounded.{Acc, WellFounded}
use native.Mathlib.Omega.{arith}

Acc-below : (k n : ℕ) → n < k → Acc ◌<◌ n
Acc-below zero n h = elim h [ ]
Acc-below (suc k) n h = Acc.intro n (λ m hm. Acc-below k m (omega arith))

pub lt_wf : WellFounded ◌<◌
lt_wf = record { apply = λ n. Acc-below (suc n) n (omega arith) }
