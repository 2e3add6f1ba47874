-- ===== src/Base/Fixed.antt =====
-- Numbers with a fixed count of decimals, as programs print them.
use hawal.Base.{ℕ, ◌*◌, ◌^◌, Bool}
use hawal.Base.Tests.{ltb}

-- `digits` / 10 ^ `places`
pub record Fixed : Type 0 where
  pub digits : ℕ
  pub places : ℕ

-- `x < n`
abbrev pub below : Fixed → ℕ → Bool
below x n = ltb x.digits (n * 10 ^ x.places)
