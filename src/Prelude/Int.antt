-- ===== src/Prelude/Int.antt =====
-- Python's `int`: the numbers of a control message may be negative.
use Prim.Native.Nat.{ℕ, suc, ◌+◌, ◌-◌, ◌*◌}
use rdpflux.Prelude.Tests.{ltb, ◌==◌, if◌then◌else◌}

-- `negsuc n` is -(n + 1).
pub data ℤ : Type 0 where
  pos : ℕ → ℤ
  negsuc : ℕ → ℤ

abbrev apart : ℕ → ℕ → ℤ
apart m n = if ltb m n then negsuc (n - m - 1) else pos (m - n)

abbrev pub minus : ℤ → ℤ → ℤ
minus (pos m) (pos n) = apart m n
minus (pos m) (negsuc n) = pos (m + suc n)
minus (negsuc m) (pos n) = negsuc (m + n)
minus (negsuc m) (negsuc n) = apart n m

abbrev pub times : ℤ → ℕ → ℤ
times (pos m) n = pos (m * n)
times (negsuc m) n = if n == 0 then pos 0 else negsuc (suc m * n - 1)
