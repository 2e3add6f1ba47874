-- ===== src/Db/Sqlite.antt =====
-- Integers in SQLite, under app/db.py: what `sqlite3` binds, and what the database adds. A value beyond
-- 64 bits is a REAL, a double, and as large as that it is an integer too.
use hawal.Base.{ℕ, zero, suc, ◌+◌, ◌*◌, ◌/◌, ◌%◌, ◌^◌, Bool, true, false, ◌&&◌, ◌||◌}
use hawal.Base.Tests.{ltb, eqb, if◌then◌else◌}
use hawal.Base.Int.{ℤ, pos, negsuc, sub_ℕ, ◌+ℤ◌}

-- Whether an integer has 64 bits; binding another one raises an `OverflowError`.
unfoldable pub fits : ℤ → Bool
fits (pos n) = ltb n 9223372036854775808
fits (negsuc n) = ltb n 9223372036854775808

unfoldable pub storable : ℤ → ℤ → Bool
unfolding fits
storable a b = fits a && fits b

-- How many of the last bits a double has no room for.
excess : ℕ → ℕ → ℕ
excess zero n = 0
excess (suc fuel) n = elim (ltb n 9007199254740992) [ true ↦ 0 | false ↦ suc (excess fuel (n / 2)) ]

-- `n` to a multiple of `p`, the nearer one, and of two that are as near the even one.
rounded : ℕ → ℕ → ℕ
rounded p n =
    let q = n / p in
    let r = n % p in
    if ltb (2 * r) p || (eqb (2 * r) p && eqb (q % 2) 0) then q * p else (q + 1) * p

-- The double next to an integer.
unfoldable pub real : ℤ → ℤ
unfolding excess rounded
real (pos n) = pos (rounded (2 ^ excess n n) n)
real (negsuc n) = sub_ℕ 0 (rounded (2 ^ excess (suc n) (suc n)) (suc n))

-- `x + ?` with a bound integer: a sum beyond 64 bits is made in doubles.
unfoldable pub sum_sql : ℤ → ℤ → ℤ
unfolding fits real
sum_sql x y = let s = x +ℤ y in if fits x && fits s then s else real (real x +ℤ real y)
