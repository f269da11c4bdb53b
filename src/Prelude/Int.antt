-- ===== src/Prelude/Int.antt =====
-- `i64` values as integers over the native numbers; the casts of the source write their wrap-around out.
use bullmq_rs.Prelude.Tests.{leb, if◌then◌else◌}
use Prim.Native.Nat.{ℕ, zero, suc, ◌+◌, ◌-◌, ◌%◌, ◌^◌, ◌<◌}

-- `negsuc n` is -(n + 1).
pub data ℤ : Type 0 where
  pos : ℕ → ℤ
  negsuc : ℕ → ℤ

-- `x as u64`: two's complement.
abbrev pub as_u64 : ℤ → ℕ
as_u64 (pos n) = n % 2 ^ 64
as_u64 (negsuc n) = 2 ^ 64 - suc n % 2 ^ 64

abbrev pub int_suc : ℤ → ℤ
int_suc (pos n) = pos (suc n)
int_suc (negsuc zero) = pos 0
int_suc (negsuc (suc n)) = negsuc n

-- `a - n`, for a `usize` below 2 ^ 63.
abbrev pub int_sub : ℤ → ℕ → ℤ
int_sub (pos a) n = if leb n a then pos (a - n) else negsuc (n - a - 1)
int_sub (negsuc a) n = negsuc (a + n)

-- The values of an `i64`.
abbrev pub FitsI64 : ℤ → Type 0
FitsI64 (pos n) = n < 2 ^ 63
FitsI64 (negsuc n) = n < 2 ^ 63
