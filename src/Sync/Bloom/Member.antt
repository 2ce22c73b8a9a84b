-- ===== src/Sync/Bloom/Member.antt =====
-- runtime/pullrun-sync/src/bloom.rs: what was inserted is contained, and stays so.
use Prim.Native.Nat.{bit_and, bit_or}
use native.Mathlib.Nat.{mod-lt}
use pullrun.Base.{
  ℕ, zero, suc, ◌+◌, ◌*◌, ◌/◌, ◌%◌, ◌^◌, ◌≤◌, ◌<◌, ◌≡◌, refl, ap, sym, subst, ◌∙◌, Bool, true,
  false, some, List, [], ◌∷◌, arith, ◌==◌, length, length-replicate, Bool-cases, Option-cases,
  some-inj, inl, inr,
}
use pullrun.Base.Bits.{bit, bit-bit_or, bit-pow, bit-le-one, bit_of_test, test_of_bit}
use pullrun.Base.Words.{Bytes, u64_mod}
use pullrun.Sync.Bloom.{
  BloomFilter, word_count, new, g_i, read_word, set_bit, insert_loop, contains_loop, hash_seed,
  insert, contains,
}

-- The words hold all `m` bits, and there is one.
pub record IsFilter (f : BloomFilter) : Type 0 where
  pub some_bits : 0 < f.m
  pub words : length f.bits ≡ word_count f.m

-- Every bit of `xs` is set in `ys`.
pub data Below : List ℕ → List ℕ → Type 0 where
  nil : Below [] []
  cons :
      {x y : ℕ} {xs ys : List ℕ}
      → ((o : ℕ) → bit o x ≤ bit o y)
      → Below xs ys
      → Below (x ∷ xs) (y ∷ ys)

pub Below-refl : (xs : List ℕ) → Below xs xs
Below-refl [] = nil
Below-refl (x ∷ xs) = cons (λ o. omega arith) (Below-refl xs)

Below-trans : {xs ys zs : List ℕ} → Below xs ys → Below ys zs → Below xs zs
Below-trans nil nil = nil
Below-trans (cons f p) (cons g q) = cons (λ o. omega (arith, f o, g o)) (Below-trans p q)

Below-set_bit : (xs ys : List ℕ) (i o : ℕ) → set_bit xs i o ≡ some ys → Below xs ys
unfolding set_bit
Below-set_bit [] ys i o e = cc
Below-set_bit (x ∷ xs) ys zero o e =
    subst (Below (x ∷ xs)) (some-inj e)
      (cons (λ k. omega (arith, bit-bit_or k x (2 ^ o))) (Below-refl xs))
Below-set_bit (x ∷ xs) ys (suc i) o e = elim (Option-cases (set_bit xs i o)) [
  | inl n ↦ cc (rw n at e)
  | inr (zs, s) ↦
      subst (Below (x ∷ xs)) (some-inj (rw s at e))
        (cons (λ k. omega arith) (Below-set_bit xs zs i o s))
]

Below-read :
    {xs ys : List ℕ} (i w : ℕ)
    → Below xs ys
    → read_word xs i ≡ some w
    → (v : ℕ) × (read_word ys i ≡ some v) × ((o : ℕ) → bit o w ≤ bit o v)
unfolding read_word
Below-read i w nil e = cc
Below-read zero w (cons {y = y} f p) e = (y, refl, λ o. rw (← some-inj e) (f o))
Below-read (suc i) w (cons f p) e = Below-read i w p e

read-set_bit :
    (xs ys : List ℕ) (i o : ℕ)
    → set_bit xs i o ≡ some ys
    → (v : ℕ) × (read_word ys i ≡ some v) × (bit o v ≡ 1)
unfolding set_bit read_word
read-set_bit [] ys i o e = cc
read-set_bit (x ∷ xs) ys zero o e = (
  bit_or x (2 ^ o),
  rw (← some-inj e),
  omega (arith, bit-bit_or o x (2 ^ o), bit-pow o, bit-le-one o x),
)
read-set_bit (x ∷ xs) ys (suc i) o e = elim (Option-cases (set_bit xs i o)) [
  | inl n ↦ cc (rw n at e)
  | inr (zs, s) ↦
      let (v, r, b) = read-set_bit xs zs i o s in
      (v, subst (λ l. read_word l (suc i) ≡ some v) (some-inj (rw s at e)) r, b)
]

pub contains_mono :
    (n i h1 h2 m : ℕ) {xs ys : List ℕ}
    → Below xs ys
    → contains_loop n i h1 h2 m xs ≡ some true
    → contains_loop n i h1 h2 m ys ≡ some true
unfolding contains_loop
contains_mono zero i h1 h2 m p e = refl
contains_mono (suc n) i h1 h2 m {xs} {ys} p e = elim (Option-cases (g_i h1 h2 i m)) [
  | inl none_g ↦ cc (rw none_g at e)
  | inr (b, g) ↦ elim (Option-cases (read_word xs (b / 64))) [
    | inl none_r ↦ cc (rw (g, none_r) at e)
    | inr (w, r) ↦ elim (Bool-cases (bit_and w (2 ^ (b % 64)) == 0)) [
      | inl out ↦ cc (rw (g, r, out) at e)
      | inr inside ↦
          let (v, s, le) = Below-read (b / 64) w p r in
          let set : bit (b % 64) v ≡ 1 =
            omega (arith, le (b % 64), bit_of_test w (b % 64) inside, bit-le-one (b % 64) v) in
          rw (g, s, test_of_bit v (b % 64) set)
            (contains_mono n (i + 1) h1 h2 m p (rw (g, r, inside) at e))
    ]
  ]
]

insert-Below :
    (n i h1 h2 m : ℕ) (xs ys : List ℕ) → insert_loop n i h1 h2 m xs ≡ some ys → Below xs ys
unfolding insert_loop
insert-Below zero i h1 h2 m xs ys e = subst (Below xs) (some-inj e) (Below-refl xs)
insert-Below (suc n) i h1 h2 m xs ys e = elim (Option-cases (g_i h1 h2 i m)) [
  | inl none_g ↦ cc (rw none_g at e)
  | inr (b, g) ↦ elim (Option-cases (set_bit xs (b / 64) (b % 64))) [
    | inl none_s ↦ cc (rw (g, none_s) at e)
    | inr (zs, s) ↦
        Below-trans (Below-set_bit xs zs (b / 64) (b % 64) s)
          (insert-Below n (i + 1) h1 h2 m zs ys (rw (g, s) at e))
  ]
]

insert-contains :
    (n i h1 h2 m : ℕ) (xs ys : List ℕ)
    → insert_loop n i h1 h2 m xs ≡ some ys
    → contains_loop n i h1 h2 m ys ≡ some true
unfolding insert_loop contains_loop
insert-contains zero i h1 h2 m xs ys e = refl
insert-contains (suc n) i h1 h2 m xs ys e = elim (Option-cases (g_i h1 h2 i m)) [
  | inl none_g ↦ cc (rw none_g at e)
  | inr (b, g) ↦ elim (Option-cases (set_bit xs (b / 64) (b % 64))) [
    | inl none_s ↦ cc (rw (g, none_s) at e)
    | inr (zs, s) ↦
        let later = rw (g, s) at e in
        let (w, r, one) = read-set_bit xs zs (b / 64) (b % 64) s in
        let (v, q, le) = Below-read (b / 64) w (insert-Below n (i + 1) h1 h2 m zs ys later) r in
        let set : bit (b % 64) v ≡ 1 = omega (arith, le (b % 64), one, bit-le-one (b % 64) v) in
        rw (g, q, test_of_bit v (b % 64) set) (insert-contains n (i + 1) h1 h2 m zs ys later)
  ]
]

length-set_bit : (xs ys : List ℕ) (i o : ℕ) → set_bit xs i o ≡ some ys → length ys ≡ length xs
unfolding set_bit
length-set_bit [] ys i o e = cc
length-set_bit (x ∷ xs) ys zero o e = ap length (sym (some-inj e))
length-set_bit (x ∷ xs) ys (suc i) o e = elim (Option-cases (set_bit xs i o)) [
  | inl n ↦ cc (rw n at e)
  | inr (zs, s) ↦ ap length (sym (some-inj (rw s at e))) ∙ ap suc (length-set_bit xs zs i o s)
]

set_bit_total : (xs : List ℕ) (i o : ℕ) → i < length xs → (ys : List ℕ) × (set_bit xs i o ≡ some ys)
unfolding set_bit
set_bit_total [] i o h = absurd (omega arith)
set_bit_total (x ∷ xs) zero o h = (bit_or x (2 ^ o) ∷ xs, refl)
set_bit_total (x ∷ xs) (suc i) o h =
    let (ys, e) = set_bit_total xs i o (omega arith) in (x ∷ ys, rw e)

g_i_total : (h1 h2 i m : ℕ) → 0 < m → (b : ℕ) × (g_i h1 h2 i m ≡ some b) × (b < m)
unfolding g_i
g_i_total h1 h2 i m h = (
  (h1 + i) % u64_mod * h2 % u64_mod % m,
  ground arith,
  mod-lt ((h1 + i) % u64_mod * h2 % u64_mod) h,
)

insert_loop_total :
    (n i h1 h2 m : ℕ) (xs : List ℕ)
    → 0 < m
    → length xs ≡ word_count m
    → (ys : List ℕ) × (insert_loop n i h1 h2 m xs ≡ some ys) × (length ys ≡ word_count m)
unfolding insert_loop
insert_loop_total zero i h1 h2 m xs h l = (xs, refl, l)
insert_loop_total (suc n) i h1 h2 m xs h l =
    let (b, g, lt) = g_i_total h1 h2 i m h in
    let (zs, s) = set_bit_total xs (b / 64) (b % 64) (omega (arith, l)) in
    let (ys, e, k) =
      insert_loop_total n (i + 1) h1 h2 m zs h (length-set_bit xs zs (b / 64) (b % 64) s ∙ l) in
    (ys, rw (g, s) e, k)

read_word_total : (xs : List ℕ) (i : ℕ) → i < length xs → (w : ℕ) × (read_word xs i ≡ some w)
unfolding read_word
read_word_total [] i h = absurd (omega arith)
read_word_total (x ∷ xs) zero h = (x, refl)
read_word_total (x ∷ xs) (suc i) h = read_word_total xs i (omega arith)

contains_loop_total :
    (n i h1 h2 m : ℕ) (xs : List ℕ)
    → 0 < m
    → length xs ≡ word_count m
    → (b : Bool) × (contains_loop n i h1 h2 m xs ≡ some b)
unfolding contains_loop
contains_loop_total zero i h1 h2 m xs h l = (true, refl)
contains_loop_total (suc n) i h1 h2 m xs h l =
    let (b, g, lt) = g_i_total h1 h2 i m h in
    let (w, r) = read_word_total xs (b / 64) (omega (arith, l)) in
    let (v, e) = contains_loop_total n (i + 1) h1 h2 m xs h l in
    elim (Bool-cases (bit_and w (2 ^ (b % 64)) == 0)) [
      | inl out ↦ (false, rw (g, r, out))
      | inr inside ↦ (v, rw (g, r, inside) e)
    ]

module _ (sha256 : Bytes → Bytes) where
  -- On a well-formed filter `insert` does not panic, and it keeps the filter well-formed.
  pub insert-IsFilter :
      (item : Bytes) (f : BloomFilter)
      → IsFilter f
      → (g : BloomFilter) × (insert sha256 item f ≡ some g) × IsFilter g
  unfolding insert
  insert-IsFilter item f v =
      let (ys, e, l) =
        insert_loop_total f.k 0 (hash_seed sha256 item 0) (hash_seed sha256 item 1) f.m f.bits
          v.some_bits v.words in
      (
        record f { bits = ys; num_items = f.num_items + 1 },
        rw e,
        record { some_bits = v.some_bits; words = l },
      )

  pub contains_total :
      (item : Bytes) (f : BloomFilter) → IsFilter f → (b : Bool) × (contains sha256 f item ≡ some b)
  unfolding contains
  contains_total item f v = contains_loop_total f.k 0 _ _ f.m f.bits v.some_bits v.words

  -- An item that was inserted is contained: there are no false negatives.
  pub contains-insert_self :
      (item : Bytes) (f g : BloomFilter)
      → insert sha256 item f ≡ some g
      → contains sha256 g item ≡ some true
  unfolding insert contains
  contains-insert_self item f g e =
      elim (Option-cases
        (insert_loop f.k 0 (hash_seed sha256 item 0) (hash_seed sha256 item 1) f.m f.bits)) [
          | inl n ↦ cc (rw n at e)
          | inr (ys, s) ↦
              subst
                (λ x.
                  contains_loop x.k 0 (hash_seed sha256 item 0) (hash_seed sha256 item 1) x.m x.bits
                  ≡ some true)
                (some-inj (rw s at e)) (insert-contains f.k 0 _ _ f.m f.bits ys s)
        ]

  -- Inserting another item takes none away.
  pub contains-insert :
      (item other : Bytes) (f g : BloomFilter)
      → insert sha256 other f ≡ some g
      → contains sha256 f item ≡ some true
      → contains sha256 g item ≡ some true
  unfolding insert contains
  contains-insert item other f g e c =
      elim (Option-cases
        (insert_loop f.k 0 (hash_seed sha256 other 0) (hash_seed sha256 other 1) f.m f.bits)) [
          | inl n ↦ cc (rw n at e)
          | inr (ys, s) ↦
              subst
                (λ x.
                  contains_loop x.k 0 (hash_seed sha256 item 0) (hash_seed sha256 item 1) x.m x.bits
                  ≡ some true)
                (some-inj (rw s at e))
                (contains_mono f.k 0 _ _ f.m (insert-Below f.k 0 _ _ f.m f.bits ys s) c)
        ]

pub IsFilter-new : (m k : ℕ) → 0 < m → IsFilter (new m k)
unfolding new
IsFilter-new m k h = record { some_bits = h; words = length-replicate (word_count m) 0 }
