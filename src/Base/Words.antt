-- ===== src/Base/Words.antt =====
-- Conversions between machine words.
use Prim.Native.Nat.{ℕ, ◌+◌, ◌-◌, ◌/◌, ◌^◌}
use utils_c.Base.Tests.{◌==◌, if◌then◌else◌}

-- An `int` is given by its 32 bits, and converted to `size_t` by its sign.
abbrev pub size_of_int : ℕ → ℕ
size_of_int w = if w / 2 ^ 31 == 0 then w else w + 2 ^ 64 - 2 ^ 32
