-- ===== src/Base/Words.antt =====
-- Machine words and their bytes, most significant byte first (`be`) or last (`le`).
use Prim.Native.Nat.{ℕ, ◌+◌, ◌*◌, ◌/◌, ◌%◌, ◌<◌}
use mathlib.Core.Path.{◌≡◌}
use mathlib.Core.List.{List}
use native.Mathlib.Omega.{arith}

abbrev pub Bytes : Type 0
Bytes = List ℕ

abbrev pub u16_mod : ℕ
u16_mod = 65536

abbrev pub u32_mod : ℕ
u32_mod = 4294967296

abbrev pub u64_mod : ℕ
u64_mod = 18446744073709551616

-- The value of four and of two bytes, the first the most significant.
abbrev pub be32 : ℕ → ℕ → ℕ → ℕ → ℕ
be32 a b c d = a * 16777216 + b * 65536 + c * 256 + d

abbrev pub be16 : ℕ → ℕ → ℕ
be16 a b = a * 256 + b

pub be32_bytes :
    (n : ℕ)
    → n < u32_mod
    → be32 (n / 16777216 % 256) (n / 65536 % 256) (n / 256 % 256) (n % 256) ≡ n
be32_bytes n h = omega arith

pub be16_bytes : (n : ℕ) → n < u16_mod → be16 (n / 256 % 256) (n % 256) ≡ n
be16_bytes n h = omega arith
