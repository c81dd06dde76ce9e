-- ===== src/Base/Names.antt =====
-- C strings. A string is the number whose digits to the base 256, the lowest first, are its bytes, so
-- that two strings are the same for `strcmp` where their numbers are; the empty one is 0.
use Prim.Native.Nat.{ℕ, ◌*◌, ◌%◌, ◌^◌, ◌<◌}
use mathlib.Core.Path.{◌≡◌}
use native.Mathlib.Nat.{mod-eq_of_lt}

-- What `strncpy` with bound `n` leaves in an array of more than `n` bytes that ends with 0: the first
-- `n` bytes of the string.
unfoldable pub strncpy : ℕ → ℕ → ℕ
strncpy n text = text % 2 ^ (8 * n)

-- A string of at most `n` bytes is kept whole.
pub strncpy_short : (n text : ℕ) → text < 2 ^ (8 * n) → strncpy n text ≡ text
unfolding strncpy
strncpy_short n text h = mod-eq_of_lt h
