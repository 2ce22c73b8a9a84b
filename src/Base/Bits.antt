-- ===== src/Base/Bits.antt =====
-- Single bits of a word under `|` and `&`.
use Prim.Native.Nat.{
  ℕ, zero, suc, ◌+◌, ◌-◌, ◌*◌, ◌/◌, ◌%◌, ◌^◌, ◌≤◌, ◌<◌, min, max, bit_and, bit_or, digits,
  bit_and-bitwise, bit_or-bitwise,
}
use mathlib.Core.Path.{◌≡◌, refl, ap, ◌∙◌}
use mathlib.Core.Bool.{false}
use native.Mathlib.Nat.{pow-suc, one-le-pow, div-div-eq-div-mul}
use pullrun.Base.Tests.{◌==◌}
use native.Mathlib.Omega.{arith}

-- The definitions that the native operations stand for, digit by digit; the count of digits may be
-- any bound.
module _ (pass : ℕ → ℕ) (combine : ℕ → ℕ → ℕ) where
  recount : (a b p q : ℕ) → a ≤ p → a ≤ q → digits pass combine p a b ≡ digits pass combine q a b
  recount zero b zero zero u v = refl
  recount zero b zero (suc q) u v = refl
  recount zero b (suc p) zero u v = refl
  recount zero b (suc p) (suc q) u v = refl
  recount (suc a) b zero q u v = absurd (omega arith)
  recount (suc a) b (suc p) zero u v = absurd (omega arith)
  recount (suc a) b (suc p) (suc q) u v =
      rw (recount (suc a / 2) (b / 2) p q (omega arith) (omega arith))

  next_digit :
      (h a b : ℕ)
      → suc a / 2 ≡ h
      → digits pass combine (suc a) (suc a) b
        ≡ digits pass combine h h (b / 2) * 2 + combine (suc a % 2) (b % 2)
  next_digit h a b e =
      rw (← e)
        (omega (arith, recount (suc a / 2) (b / 2) a (suc a / 2) (omega arith) (omega arith)))

pub bit_or_step : (a b : ℕ) → bit_or a b ≡ bit_or (a / 2) (b / 2) * 2 + max (a % 2) (b % 2)
bit_or_step zero w = omega (arith, bit_or-bitwise 0 (w / 2), bit_or-bitwise 0 w)
bit_or_step (suc v) w =
    rw (bit_or-bitwise (suc v) w, bit_or-bitwise (suc v / 2) (w / 2))
      (next_digit (λ rest. rest) max (suc v / 2) v w refl)

pub bit_and_step : (a b : ℕ) → bit_and a b ≡ bit_and (a / 2) (b / 2) * 2 + min (a % 2) (b % 2)
bit_and_step zero w = omega (arith, bit_and-bitwise 0 (w / 2), bit_and-bitwise 0 w)
bit_and_step (suc v) w =
    rw (bit_and-bitwise (suc v) w, bit_and-bitwise (suc v / 2) (w / 2))
      (next_digit (λ rest. 0) min (suc v / 2) v w refl)

-- The k-th bit.
pub bit : ℕ → ℕ → ℕ
bit zero n = n % 2
bit (suc k) n = bit k (n / 2)

pub bit-bit_or : (k a b : ℕ) → bit k (bit_or a b) ≡ max (bit k a) (bit k b)
unfolding bit
bit-bit_or zero a b = omega (arith, bit_or_step a b)
bit-bit_or (suc k) a b =
    let e : bit_or a b / 2 ≡ bit_or (a / 2) (b / 2) = omega (arith, bit_or_step a b) in
    rw e (bit-bit_or k (a / 2) (b / 2))

pub bit-pow : (k : ℕ) → bit k (2 ^ k) ≡ 1
unfolding bit
bit-pow zero = refl
bit-pow (suc k) = let e : 2 ^ suc k / 2 ≡ 2 ^ k = omega (arith, pow-suc 2 k) in rw e (bit-pow k)

masked_out : (bound w : ℕ) → w ≤ bound → bit_and w 0 ≡ 0
masked_out zero w h = let none_left : w ≡ 0 = omega arith in rw none_left
masked_out (suc bound) w h = omega (arith, masked_out bound (w / 2) (omega arith), bit_and_step w 0)

-- `a & (1 << k)`
pub bit_and-pow : (k a : ℕ) → bit_and a (2 ^ k) ≡ bit k a * 2 ^ k
unfolding bit
bit_and-pow zero a = omega (arith, bit_and_step a 1, masked_out (a / 2) (a / 2))
bit_and-pow (suc k) a =
    let e : 2 ^ suc k / 2 ≡ 2 ^ k = omega (arith, pow-suc 2 k) in
    let o : 2 ^ suc k % 2 ≡ 0 = omega (arith, pow-suc 2 k) in
    let d : bit k (a / 2) * 2 ^ suc k ≡ bit k (a / 2) * 2 ^ k * 2 =
      omega (arith, ap (λ (t : ℕ). bit k (a / 2) * t) (pow-suc 2 k)) in
    omega (
      arith,
      bit_and_step a (2 ^ suc k),
      ap (λ (t : ℕ). bit_and (a / 2) t) e,
      bit_and-pow k (a / 2),
    )

pub bit_or-lt : (k a b : ℕ) → a < 2 ^ k → b < 2 ^ k → bit_or a b < 2 ^ k
bit_or-lt zero zero zero h g = omega arith
bit_or-lt zero zero (suc b) h g = absurd (omega arith)
bit_or-lt zero (suc a) b h g = absurd (omega arith)
bit_or-lt (suc k) a b h g = omega (
  arith,
  pow-suc 2 k,
  bit_or_step a b,
  bit_or-lt k (a / 2) (b / 2) (omega (arith, pow-suc 2 k)) (omega (arith, pow-suc 2 k)),
)

pub bit-le-one : (o w : ℕ) → bit o w ≤ 1
unfolding bit
bit-le-one zero w = omega arith
bit-le-one (suc o) w = bit-le-one o (w / 2)

-- The test `w & (1 << o) == 0`.
pub bit_of_test : (w o : ℕ) → (bit_and w (2 ^ o) == 0) ≡ false → bit o w ≡ 1
bit_of_test w o h = ground (arith, bit_and-pow o w, bit-le-one o w, one-le-pow o 2)

pub test_of_bit : (w o : ℕ) → bit o w ≡ 1 → (bit_and w (2 ^ o) == 0) ≡ false
test_of_bit w o h = ground (arith, bit_and-pow o w, one-le-pow o 2)

-- The bits from the k-th on.
pub bit_and-shifted : (k a m : ℕ) → bit_and a (m * 2 ^ k) ≡ bit_and (a / 2 ^ k) m * 2 ^ k
bit_and-shifted zero a m =
    let one : m * 2 ^ 0 ≡ m = omega arith in
    let whole : a / 2 ^ 0 ≡ a = omega arith in rw (one, whole) (omega arith)
bit_and-shifted (suc k) a m =
    let double : m * 2 ^ suc k ≡ m * 2 ^ k * 2 =
      omega (arith, ap (λ (t : ℕ). m * t) (pow-suc 2 k)) in
    let half : m * 2 ^ suc k / 2 ≡ m * 2 ^ k = omega (arith, double) in
    let even : m * 2 ^ suc k % 2 ≡ 0 = omega (arith, double) in
    let twice : 2 * 2 ^ k ≡ 2 ^ suc k = omega (arith, pow-suc 2 k) in
    let at : a / 2 / 2 ^ k ≡ a / 2 ^ suc k =
      div-div-eq-div-mul a 2 (2 ^ k) ∙ ap (λ (t : ℕ). a / t) twice in
    let step : bit_and a (m * 2 ^ suc k) ≡ bit_and (a / 2) (m * 2 ^ k) * 2 =
      omega (arith, bit_and_step a (m * 2 ^ suc k), ap (λ (t : ℕ). bit_and (a / 2) t) half, even) in
    let rest : bit_and (a / 2) (m * 2 ^ k) ≡ bit_and (a / 2 ^ suc k) m * 2 ^ k =
      bit_and-shifted k (a / 2) m ∙ ap (λ (t : ℕ). bit_and t m * 2 ^ k) at in
    omega (arith, step, rest, ap (λ (t : ℕ). bit_and (a / 2 ^ suc k) m * t) (pow-suc 2 k))

-- A mask of n ones keeps a number of n bits.
pub bit_and-ones : (n a : ℕ) → a < 2 ^ n → bit_and a (2 ^ n - 1) ≡ a
bit_and-ones zero a h = let none_left : a ≡ 0 = omega arith in rw none_left
bit_and-ones (suc n) a h =
    let big : 1 ≤ 2 ^ n = one-le-pow n 2 (omega arith) in
    let half : (2 ^ suc n - 1) / 2 ≡ 2 ^ n - 1 = omega (arith, pow-suc 2 n, big) in
    omega (
      arith,
      pow-suc 2 n,
      big,
      bit_and_step a (2 ^ suc n - 1),
      ap (λ (t : ℕ). bit_and (a / 2) t) half,
      bit_and-ones n (a / 2) (omega (arith, pow-suc 2 n)),
    )
