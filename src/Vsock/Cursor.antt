-- ===== src/Vsock/Cursor.antt =====
-- runtime/pullrun-vsock/src/lib.rs: reading and writing at a cursor, `Buf` and `BufMut` of `bytes`.
-- A getter panics where too few bytes remain, as `Buf` documents.
use pullrun.Base.{
  ℕ, ◌/◌, ◌%◌, ◌<◌, ◌≡◌, refl, Bool, [], ◌∷◌, ◌++◌, arith, ltb, if◌then◌else◌, length, take, drop,
}
use pullrun.Base.Words.{Bytes, u16_mod, u32_mod, be32, be16, be32_bytes, be16_bytes}
use pullrun.Vsock.Frame.{FrameType, Outcome, ok, err, panic, truncated, bad_utf8}

-- A reader consumes a part of the cursor's bytes.
abbrev pub Reader : Type 0 → Type 0
Reader A = Bytes → Outcome (A × Bytes)

abbrev pub and_then : {A B : Type 0} → Outcome (A × Bytes) → (A → Reader B) → Outcome (B × Bytes)
and_then (ok (a, cur)) f = f a cur
and_then (err e) f = err e
and_then panic f = panic

infixl 5 ◌>>=◌ ◌>>◌
abbrev pub ◌>>=◌ : {A B : Type 0} → Reader A → (A → Reader B) → Reader B
◌>>=◌ m f cur = and_then (m cur) f

abbrev pub ◌>>◌ : {B : Type 0} → Reader (Unit {0}) → Reader B → Reader B
m >> k = m >>= λ _. k

abbrev pub pure : {A : Type 0} → A → Reader A
pure a cur = ok (a, cur)

-- `if cur.remaining() < n { return Err(Truncated { ty, needed: n, got: cur.remaining() }) }`
unfoldable pub need : FrameType → ℕ → Reader (Unit {0})
need ty n cur = if ltb (length cur) n then err (truncated ty n (length cur)) else ok (tt, cur)

unfoldable pub get_u8 : Reader ℕ
get_u8 [] = panic
get_u8 (a ∷ cur) = ok (a, cur)

unfoldable pub get_u16 : Reader ℕ
get_u16 (a ∷ b ∷ cur) = ok (be16 a b, cur)
get_u16 _ = panic

unfoldable pub get_u32 : Reader ℕ
get_u32 (a ∷ b ∷ c ∷ d ∷ cur) = ok (be32 a b c d, cur)
get_u32 _ = panic

unfoldable pub put_u8 : ℕ → Bytes
put_u8 n = n % 256 ∷ []

unfoldable pub put_u16 : ℕ → Bytes
put_u16 n = n / 256 % 256 ∷ n % 256 ∷ []

unfoldable pub put_u32 : ℕ → Bytes
put_u32 n = n / 16777216 % 256 ∷ n / 65536 % 256 ∷ n / 256 % 256 ∷ n % 256 ∷ []

-- `put_u32(bytes.len() as u32)` drops the high bits of a longer length.
unfoldable pub write_string : Bytes → Bytes
write_string s = put_u32 (length s % u32_mod) ++ s

module _ (utf8 : Bytes → Bool) where
  unfoldable pub take_string : FrameType → ℕ → Reader Bytes
  take_string ty len cur =
      if ltb (length cur) len
      then err (truncated ty len (length cur))
      else if utf8 (take len cur)
      then ok (take len cur, drop len cur)
      else err (bad_utf8 ty)

  unfoldable pub read_string : FrameType → Reader Bytes
  read_string ty = do need ty 4; len ← get_u32; take_string ty len

-- What was written is read back, and the rest is left.
pub get-put_u32 : (n : ℕ) (rest : Bytes) → n < u32_mod → get_u32 (put_u32 n ++ rest) ≡ ok (n, rest)
unfolding get_u32 put_u32
get-put_u32 n rest h = rw (be32_bytes n h)

pub get-put_u16 : (n : ℕ) (rest : Bytes) → n < u16_mod → get_u16 (put_u16 n ++ rest) ≡ ok (n, rest)
unfolding get_u16 put_u16
get-put_u16 n rest h = rw (be16_bytes n h)

pub get-put_u8 : (n : ℕ) (rest : Bytes) → n < 256 → get_u8 (put_u8 n ++ rest) ≡ ok (n, rest)
unfolding get_u8 put_u8
get-put_u8 n rest h = let e : n % 256 ≡ n = omega arith in rw e

pub length-put_u32 : (n : ℕ) → length (put_u32 n) ≡ 4
unfolding put_u32
length-put_u32 n = refl
