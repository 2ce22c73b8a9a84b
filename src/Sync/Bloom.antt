-- ===== src/Sync/Bloom.antt =====
-- runtime/pullrun-sync/src/bloom.rs: `BloomFilter`. A result of `none` is a panic: an index out of
-- bounds, a remainder by zero, or a failed `assert_eq!`. `sha256` is the hash of the `sha2` crate.
pub mod Member
pub mod Merge
pub mod Wire
use Prim.Native.Nat.{bit_and, bit_or}
use pullrun.Base.{
  ℕ, zero, suc, ◌+◌, ◌*◌, ◌/◌, ◌%◌, ◌^◌, ◌≤◌, ◌<◌, ◌≡◌, max, Bool, true, false, ◌&&◌, Option, none,
  some, List, [], ◌∷◌, ◌++◌, ltb, ◌==◌, if◌then◌else◌, length, take, drop, replicate,
}
use pullrun.Base.Words.{Bytes, u32_mod, u64_mod}

pub record BloomFilter : Type 0 where
  pub bits : List ℕ
  pub k : ℕ
  pub m : ℕ
  pub num_items : ℕ

infixl 5 ◌>>=◌
abbrev pub ◌>>=◌ : {A B : Type 0} → Option A → (A → Option B) → Option B
none >>= f = none
some a >>= f = f a

abbrev pub word_count : ℕ → ℕ
word_count m = (m + 63) / 64

unfoldable pub new : ℕ → ℕ → BloomFilter
new m k = record { bits = replicate (word_count m) 0; k = k; m = m; num_items = 0 }

-- `to_le_bytes` and `from_le_bytes` of a word of `n` bytes.
unfoldable pub to_le : ℕ → ℕ → Bytes
to_le zero w = []
to_le (suc n) w = w % 256 ∷ to_le n (w / 256)

unfoldable pub from_le : Bytes → ℕ
from_le [] = 0
from_le (b ∷ bs) = b + 256 * from_le bs

-- `h1.wrapping_add(i as u64).wrapping_mul(h2) % m`
unfoldable pub g_i : ℕ → ℕ → ℕ → ℕ → Option ℕ
g_i h1 h2 i m = if m == 0 then none else some ((h1 + i) % u64_mod * h2 % u64_mod % m)

unfoldable pub read_word : List ℕ → ℕ → Option ℕ
read_word [] i = none
read_word (w ∷ ws) zero = some w
read_word (w ∷ ws) (suc i) = read_word ws i

-- `bits[word] |= 1u64 << offset`
unfoldable pub set_bit : List ℕ → ℕ → ℕ → Option (List ℕ)
set_bit [] i offset = none
set_bit (w ∷ ws) zero offset = some (bit_or w (2 ^ offset) ∷ ws)
set_bit (w ∷ ws) (suc i) offset = do ws' ← set_bit ws i offset; some (w ∷ ws')

-- The loop over `i..k`, for the rounds that are left.
unfoldable pub insert_loop : ℕ → ℕ → ℕ → ℕ → ℕ → List ℕ → Option (List ℕ)
insert_loop zero i h1 h2 m bits = some bits
insert_loop (suc n) i h1 h2 m bits = do
  b ← g_i h1 h2 i m
  bits' ← set_bit bits (b / 64) (b % 64)
  insert_loop n (i + 1) h1 h2 m bits'

-- The other rounds run only where the bit is set.
unfoldable pub contains_loop : ℕ → ℕ → ℕ → ℕ → ℕ → List ℕ → Option Bool
contains_loop zero i h1 h2 m bits = some true
contains_loop (suc n) i h1 h2 m bits = do
  b ← g_i h1 h2 i m
  w ← read_word bits (b / 64)
  if bit_and w (2 ^ (b % 64)) == 0 then some false else contains_loop n (i + 1) h1 h2 m bits

module _ (sha256 : Bytes → Bytes) where
  unfoldable pub hash_seed : Bytes → ℕ → ℕ
  hash_seed item seed = from_le (take 8 (sha256 (item ++ to_le 8 seed)))

  unfoldable pub insert : Bytes → BloomFilter → Option BloomFilter
  insert item f = do
    bits ← insert_loop f.k 0 (hash_seed item 0) (hash_seed item 1) f.m f.bits
    some (record f { bits = bits; num_items = f.num_items + 1 })

  unfoldable pub contains : BloomFilter → Bytes → Option Bool
  contains f item = contains_loop f.k 0 (hash_seed item 0) (hash_seed item 1) f.m f.bits

unfoldable pub merge_words : List ℕ → List ℕ → List ℕ
merge_words [] ys = []
merge_words (x ∷ xs) [] = x ∷ xs
merge_words (x ∷ xs) (y ∷ ys) = bit_or x y ∷ merge_words xs ys

unfoldable pub merge : BloomFilter → BloomFilter → Option BloomFilter
merge f g =
    if (length f.bits == length g.bits) && (f.k == g.k)
    then some
        (record f { bits = merge_words f.bits g.bits; num_items = max f.num_items g.num_items })
    else none

unfoldable pub words_to_bytes : List ℕ → Bytes
words_to_bytes [] = []
words_to_bytes (w ∷ ws) = to_le 8 w ++ words_to_bytes ws

unfoldable pub to_bytes : BloomFilter → Bytes
to_bytes f = to_le 8 f.m ++ (to_le 4 f.k ++ words_to_bytes f.bits)

-- Words of eight bytes each, from bytes that are known to be enough.
unfoldable pub words_from_bytes : ℕ → Bytes → List ℕ
words_from_bytes zero bs = []
words_from_bytes (suc n) bs = from_le (take 8 bs) ∷ words_from_bytes n (drop 8 bs)

unfoldable pub parse_filter : ℕ → ℕ → Bytes → Option (BloomFilter × ℕ)
parse_filter m k bs =
    let expected : ℕ = 12 + word_count m * 8 in
    if ltb (length bs) expected
    then none
    else some (
      record { bits = words_from_bytes (word_count m) (drop 12 bs); k = k; m = m; num_items = 0 },
      expected,
    )

-- Here `none` is the `None` of the code.
unfoldable pub from_bytes : Bytes → Option (BloomFilter × ℕ)
from_bytes bs =
    if ltb (length bs) 12
    then none
    else parse_filter (from_le (take 8 bs)) (from_le (take 4 (drop 8 bs))) bs

unfoldable pub clear : BloomFilter → BloomFilter
clear f = record f { bits = replicate (length f.bits) 0; num_items = 0 }
