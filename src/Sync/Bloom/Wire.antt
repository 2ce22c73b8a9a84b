-- ===== src/Sync/Bloom/Wire.antt =====
-- runtime/pullrun-sync/src/bloom.rs: `from_bytes` reads what `to_bytes` wrote, and what it lets in.
use native.Mathlib.Nat.{pow-suc}
use pullrun.Base.{
  ℕ, zero, suc, ◌+◌, ◌*◌, ◌/◌, ◌^◌, ◌≤◌, ◌<◌, ◌≡◌, refl, ap, sym, subst, Option, none, some, List,
  [], ◌∷◌, ◌++◌, arith, append_assoc, le→ltb, length, take, drop, length-append, take-append_length,
  drop-append_length, All, ◌≡⟨◌⟩◌, ◌∎, append-nil,
}
use pullrun.Base.Words.{Bytes, u32_mod, u64_mod}
use pullrun.Sync.Bloom.{
  BloomFilter, word_count, to_le, from_le, words_to_bytes, words_from_bytes, to_bytes, from_bytes,
  parse_filter, contains, contains_loop, g_i,
}

from_le-to_le : (n w : ℕ) → w < 256 ^ n → from_le (to_le n w) ≡ w
unfolding from_le to_le
from_le-to_le zero zero h = refl
from_le-to_le zero (suc w) h = absurd (omega arith)
from_le-to_le (suc n) w h = omega (arith, from_le-to_le n (w / 256) (omega (arith, pow-suc 256 n)))

length-to_le : (n w : ℕ) → length (to_le n w) ≡ n
unfolding to_le
length-to_le zero w = refl
length-to_le (suc n) w = ap suc (length-to_le n (w / 256))

take-to_le : (n w : ℕ) (rest : Bytes) → take n (to_le n w ++ rest) ≡ to_le n w
take-to_le n w rest =
    subst (λ k. take k (to_le n w ++ rest) ≡ to_le n w) (length-to_le n w)
      (take-append_length (to_le n w) rest)

drop-to_le : (n w : ℕ) (rest : Bytes) → drop n (to_le n w ++ rest) ≡ rest
drop-to_le n w rest =
    subst (λ k. drop k (to_le n w ++ rest) ≡ rest) (length-to_le n w)
      (drop-append_length (to_le n w) rest)

words-round :
    (ws : List ℕ) (rest : Bytes)
    → All (λ w. w < u64_mod) ws
    → words_from_bytes (length ws) (words_to_bytes ws ++ rest) ≡ ws
unfolding words_from_bytes words_to_bytes
words-round [] rest h = refl
words-round (w ∷ ws) rest h = rw (
  append_assoc,
  take-to_le 8 w (words_to_bytes ws ++ rest),
  drop-to_le 8 w (words_to_bytes ws ++ rest),
  from_le-to_le 8 w h.0,
  words-round ws rest h.1,
)

length-words : (ws : List ℕ) → length (words_to_bytes ws) ≡ length ws * 8
unfolding words_to_bytes
length-words [] = refl
length-words (w ∷ ws) =
    omega (arith, length-append (to_le 8 w) (words_to_bytes ws), length-to_le 8 w, length-words ws)

-- The fields behind a header of 8 and 4 bytes.
module _ (m k : ℕ) (body : Bytes) where
  abbrev message : Bytes
  message = to_le 8 m ++ (to_le 4 k ++ body)

  drop-header : drop 12 message ≡ body
  drop-header =
      drop 12 message
      ≡⟨ ap (drop 12) (sym (append_assoc (to_le 8 m) (to_le 4 k) body)) ⟩
        drop 12 ((to_le 8 m ++ to_le 4 k) ++ body)
      ≡⟨ subst (λ n. drop n ((to_le 8 m ++ to_le 4 k) ++ body) ≡ body) header_length
          (drop-append_length (to_le 8 m ++ to_le 4 k) body) ⟩
        body ∎
    where
      header_length : length (to_le 8 m ++ to_le 4 k) ≡ 12
      header_length =
          omega (arith, length-append (to_le 8 m) (to_le 4 k), length-to_le 8 m, length-to_le 4 k)

  length-message : length message ≡ 12 + length body
  length-message = omega (
    arith,
    length-append (to_le 8 m) (to_le 4 k ++ body),
    length-append (to_le 4 k) body,
    length-to_le 8 m,
    length-to_le 4 k,
  )

  from-message : m < u64_mod → k < u32_mod → from_bytes message ≡ parse_filter m k message
  unfolding from_bytes
  from-message hm hk = rw (
    le→ltb (length message) 12 (omega (arith, length-message)),
    take-to_le 8 m (to_le 4 k ++ body),
    drop-to_le 8 m (to_le 4 k ++ body),
    take-to_le 4 k body,
    from_le-to_le 8 m hm,
    from_le-to_le 4 k hk,
  )

-- A filter whose numbers fit their fields is read back, but for `num_items`, which is 0; the
-- reported length is that of the filter, whatever follows it.
pub from-to_bytes :
    (f : BloomFilter) (rest : Bytes)
    → f.m < u64_mod
    → f.k < u32_mod
    → All (λ w. w < u64_mod) f.bits
    → length f.bits ≡ word_count f.m
    → from_bytes (to_bytes f ++ rest) ≡ some (record f { num_items = 0 }, length (to_bytes f))
unfolding to_bytes parse_filter
from-to_bytes f rest hm hk hw l =
    let body : Bytes = words_to_bytes f.bits ++ rest in
    let long : 12 + word_count f.m * 8 ≤ length (message f.m f.k body) = omega (
      arith,
      length-message f.m f.k body,
      length-append (words_to_bytes f.bits) rest,
      length-words f.bits,
      l,
    ) in
    rw
      (
        append_assoc,
        append_assoc,
        from-message f.m f.k body hm hk,
        le→ltb (length (message f.m f.k body)) (12 + word_count f.m * 8) long,
        drop-header f.m f.k body,
        ← l,
        words-round f.bits rest hw,
      )
      (ap sized same)
  where
    sized : ℕ → Option (BloomFilter × ℕ)
    sized n = some (record f { num_items = 0 }, n)

    same : 12 + length f.bits * 8 ≡ length (message f.m f.k (words_to_bytes f.bits))
    same = omega (arith, length-message f.m f.k (words_to_bytes f.bits), length-words f.bits)

-- Twelve bytes with m = 0 and a k other than 0 are accepted, and the filter that they make panics
-- on every query.
pub from_bytes-zero_m :
    (sha256 : Bytes → Bytes) (k : ℕ) (item : Bytes)
    → 0 < k
    → k < u32_mod
    → (f : BloomFilter) × (from_bytes (to_le 8 0 ++ to_le 4 k) ≡ some (f, 12))
      × (contains sha256 f item ≡ none)
unfolding parse_filter contains
from_bytes-zero_m sha256 zero item p h = absurd (omega arith)
from_bytes-zero_m sha256 (suc k) item p h =
    (record { bits = []; k = suc k; m = 0; num_items = 0 }, read, unfold contains_loop g_i in refl)
  where
    read :
        from_bytes (to_le 8 0 ++ to_le 4 (suc k))
        ≡ some (record { bits = []; k = suc k; m = 0; num_items = 0 }, 12)
    read =
        rw
          (
            ← append-nil (to_le 4 (suc k)),
            from-message 0 (suc k) [] (omega arith) h,
            le→ltb (length (message 0 (suc k) [])) 12 (omega (arith, length-message 0 (suc k) [])),
          )
          (unfold words_from_bytes in refl)
