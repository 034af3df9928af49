-- ===== src/Base/Words.antt =====
-- Words of 32 bits, and the values of C type `int` that they stand for.
use Prim.Native.Nat.{ℕ, ◌-◌, ◌%◌, ◌^◌}
use libxdg.Base.Tests.{ltb, if◌then◌else◌}
use libxdg.Base.Int.{ℤ, pos, negsuc}

-- A word that is stored in an `int`.
abbrev pub as_int : ℕ → ℤ
as_int w = if ltb w (2 ^ 31) then pos w else negsuc (2 ^ 32 - 1 - w)

-- A sum or a difference of values of type `int`, with the wrap-around of usual processors.
abbrev pub wrapped : ℤ → ℤ
wrapped (pos n) = as_int (n % 2 ^ 32)
wrapped (negsuc n) = as_int (2 ^ 32 - 1 - n % 2 ^ 32)
