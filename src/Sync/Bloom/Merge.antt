-- ===== src/Sync/Bloom/Merge.antt =====
-- runtime/pullrun-sync/src/bloom.rs: `merge` keeps what either filter contains.
use pullrun.Base.{
  ℕ, ◌≡◌, refl, subst, max, true, some, List, [], ◌∷◌, arith, ◌==◌, ==_iff, length, Bool-cases, ◌⊎◌,
  inl, inr, some-inj,
}
use pullrun.Base.Bits.{bit-bit_or}
use pullrun.Base.Words.{Bytes}
use pullrun.Sync.Bloom.{BloomFilter, merge_words, merge, contains}
use pullrun.Sync.Bloom.Member.{IsFilter, Below, nil, cons, contains_mono}

Below-merge :
    (xs ys : List ℕ)
    → length xs ≡ length ys
    → Below xs (merge_words xs ys) × Below ys (merge_words xs ys)
unfolding merge_words
Below-merge [] [] h = (nil, nil)
Below-merge [] (y ∷ ys) h = absurd (omega arith)
Below-merge (x ∷ xs) [] h = absurd (omega arith)
Below-merge (x ∷ xs) (y ∷ ys) h =
    let (p, q) = Below-merge xs ys (omega arith) in
    (cons (λ o. omega (arith, bit-bit_or o x y)) p, cons (λ o. omega (arith, bit-bit_or o x y)) q)

length-merge_words : (xs ys : List ℕ) → length (merge_words xs ys) ≡ length xs
unfolding merge_words
length-merge_words [] ys = refl
length-merge_words (x ∷ xs) [] = refl
length-merge_words (x ∷ xs) (y ∷ ys) = omega (arith, length-merge_words xs ys)

abbrev merged : BloomFilter → BloomFilter → BloomFilter
merged f g = record f { bits = merge_words f.bits g.bits; num_items = max f.num_items g.num_items }

merge-inv :
    (f g h : BloomFilter)
    → merge f g ≡ some h
    → (merged f g ≡ h) × (length f.bits ≡ length g.bits) × (f.k ≡ g.k)
unfolding merge
merge-inv f g h e = elim (Bool-cases (length f.bits == length g.bits)) [
  | inl l ↦ elim (Bool-cases (f.k == g.k)) [
    | inl k ↦ (
      some-inj (rw (l, k) at e),
      (==_iff (length f.bits) (length g.bits)).0 l,
      (==_iff f.k g.k).0 k,
    )
    | inr k ↦ cc (rw (l, k) at e)
  ]
  | inr l ↦ cc (rw l at e)
]

pub merge-IsFilter : (f g h : BloomFilter) → IsFilter f → merge f g ≡ some h → IsFilter h
merge-IsFilter f g h v e = subst IsFilter (merge-inv f g h e).0 (record {
  some_bits = v.some_bits;
  words = omega (arith, length-merge_words f.bits g.bits, v.words);
})

-- Where two filters have one `m` and merge without a panic, the merged filter contains what
-- either contained.
pub contains-merge :
    (sha256 : Bytes → Bytes) (item : Bytes) (f g h : BloomFilter)
    → f.m ≡ g.m
    → merge f g ≡ some h
    → (contains sha256 f item ≡ some true) ⊎ (contains sha256 g item ≡ some true)
    → contains sha256 h item ≡ some true
unfolding contains
contains-merge sha256 item f g h m e (inl c) =
    let (same, l, k) = merge-inv f g h e in
    subst (λ x. contains sha256 x item ≡ some true) same
      (contains_mono f.k 0 _ _ f.m (Below-merge f.bits g.bits l).0 c)
contains-merge sha256 item f g h m e (inr c) =
    let (same, l, k) = merge-inv f g h e in
    subst (λ x. contains sha256 x item ≡ some true) same
      (rw (k, m) (contains_mono g.k 0 _ _ g.m (Below-merge f.bits g.bits l).1 c))
