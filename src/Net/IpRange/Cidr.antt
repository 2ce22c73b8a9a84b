-- ===== src/Net/IpRange/Cidr.antt =====
-- runtime/pullrun-net/src/ipam.rs: the range that `from_cidr` computes.
use pullrun.Base.{
  ℕ, zero, suc, ◌+◌, ◌-◌, ◌*◌, ◌/◌, ◌%◌, ◌^◌, ◌≤◌, ◌<◌, ◌≡◌, refl, ap, ◌∙◌, Bool, true, false, ◌&&◌,
  ◌||◌, arith, ltb, ◌==◌, Bool-cases, subst, inl, inr, ltb→le,
}
use native.Mathlib.Nat.{one-le-pow, div-add-mod', mod-lt, mul-mod_left}
use Prim.Native.Nat.{bit_and}
use pullrun.Base.Bits.{bit_and-shifted, bit_and-ones}
use pullrun.Base.Words.{u32_mod}
use pullrun.Net.IpRange.{IpRange, IsRange, ok, shl_one, invert, network, cidr_range}

every : (ℕ → Bool) → ℕ → Bool
every test zero = true
every test (suc n) = every test n && test n

every-at : (test : ℕ → Bool) (bound n : ℕ) → n < bound → every test bound ≡ true → test n ≡ true
unfolding every
every-at test zero n small all = absurd (omega arith)
every-at test (suc bound) n small all = ground (arith, every-at test bound n)

shares_table :
    every
      (λ k.
        ((1 + k == 0) || (shl_one (32 - (1 + k)) * 2 ^ (1 + k) == u32_mod))
        && ltb 0 (shl_one (32 - (1 + k))))
      32
    ≡ true
unfolding every shl_one
shares_table = refl

-- A prefix and its size share out the address space.
shares :
    (prefix : ℕ)
    → 1 ≤ prefix
    → prefix < 33
    → (shl_one (32 - prefix) * 2 ^ prefix ≡ u32_mod) × (0 < shl_one (32 - prefix))
shares zero h k = absurd (omega arith)
shares (suc n) h k = let e : 1 + n ≡ suc n = omega arith in rw e at from_table
  where
    from_table : (shl_one (32 - (1 + n)) * 2 ^ (1 + n) ≡ u32_mod) × (0 < shl_one (32 - (1 + n)))
    from_table = ground (arith, every-at _ 32 n (omega arith) shares_table)

ok-inj : {A : Type 0} {a b : A} → ok a ≡ ok b → a ≡ b
ok-inj h = cc

module _ (ip p q : ℕ) (all : p * q ≡ u32_mod) (h : ip < u32_mod) (pos : 0 < p) where
  quotient-lt : ip / p < q
  quotient-lt = grind (arith, div-add-mod' ip p)

  block_end : ip / p * p + p ≤ u32_mod
  block_end = grind (arith, quotient-lt)

  block_lem : (ip / p * p ≤ ip) × (ip < ip / p * p + p) × (ip / p * p % p ≡ 0)
  block_lem = (
    omega (arith, div-add-mod' ip p),
    omega (arith, div-add-mod' ip p, mod-lt ip pos),
    mul-mod_left (ip / p) p,
  )

-- The complement of the low bits, as ones above them.
high_bits : (p q : ℕ) → p * q ≡ u32_mod → 1 ≤ q → 1 ≤ p → invert (p - 1) ≡ (q - 1) * p
high_bits zero q all one pos = absurd (omega arith)
high_bits (suc p) zero all one pos = absurd (omega arith)
high_bits (suc p) (suc q) all one pos =
    let less_p : suc p - 1 ≡ p = omega arith in
    let less_q : suc q - 1 ≡ q = omega arith in
    let expanded : suc p * suc q ≡ q * suc p + suc p = grind arith in
    rw (less_p, less_q) (omega (arith, expanded))

network-masked :
    (ip prefix : ℕ)
    → ip < u32_mod
    → 1 ≤ prefix
    → prefix < 33
    → network ip prefix ≡ ip / shl_one (32 - prefix) * shl_one (32 - prefix)
unfolding network shl_one
network-masked ip prefix h k l =
    let shift = (32 - prefix) % 32 in
    let s : (2 ^ shift * 2 ^ prefix ≡ u32_mod) × (0 < 2 ^ shift) = shares prefix k l in
    let nonzero : (prefix == 0) ≡ false = ground arith in
    let one : 1 ≤ 2 ^ prefix = one-le-pow prefix 2 (omega arith) in
    rw nonzero (
      ap (bit_and ip) (high_bits (2 ^ shift) (2 ^ prefix) s.0 one s.1)
      ∙ bit_and-shifted shift ip (2 ^ prefix - 1)
      ∙ ap (λ (t : ℕ). t * 2 ^ shift)
          (bit_and-ones prefix (ip / 2 ^ shift)
            (quotient-lt ip (2 ^ shift) (2 ^ prefix) s.0 h s.1)))

shl_one-size : (prefix : ℕ) → 1 ≤ prefix → prefix < 33 → shl_one (32 - prefix) ≡ 2 ^ (32 - prefix)
unfolding shl_one
shl_one-size prefix k l =
    let small : (32 - prefix) % 32 ≡ 32 - prefix = omega arith in ap (λ (n : ℕ). 2 ^ n) small

-- For a prefix of 1 to 32 the range has as many addresses as 32 less the prefix bits can count, lies in
-- the address space, holds the address, and starts at a multiple of its size.
pub cidr_range-IsRange :
    (ip prefix : ℕ) (r : IpRange)
    → ip < u32_mod
    → 1 ≤ prefix
    → cidr_range ip prefix ≡ ok r
    → IsRange r
      × (r.size ≡ 2 ^ (32 - prefix))
      × (r.base ≤ ip)
      × (ip < r.base + r.size)
      × (r.base % r.size ≡ 0)
unfolding cidr_range
cidr_range-IsRange ip prefix r h k e = elim (Bool-cases (ltb 32 prefix)) [
  | inl long ↦ cc (rw long at e)
  | inr short ↦
      let p = shl_one (32 - prefix) in
      let l : prefix < 33 = omega (arith, ltb→le 32 prefix short) in
      let s = shares prefix k l in
      let b = block_lem ip p (2 ^ prefix) s.0 h s.1 in
      subst
        (λ (x : IpRange).
          IsRange x
          × (x.size ≡ 2 ^ (32 - prefix))
          × (x.base ≤ ip)
          × (ip < x.base + x.size)
          × (x.base % x.size ≡ 0))
        (ok-inj (rw (short, network-masked ip prefix h k l) at e))
        (
          record { nonempty = s.1; within = block_end ip p (2 ^ prefix) s.0 h s.1 },
          shl_one-size prefix k l,
          b.0,
          b.1,
          b.2,
        )
]

-- Prefix 0 asks for every address, but its shift by 32 wraps to a shift by 0: the range has one
-- address, and no host can be given.
pub cidr_range-zero : (ip : ℕ) → cidr_range ip 0 ≡ ok (record { base = 0; size = 1 })
unfolding cidr_range
cidr_range-zero ip = refl
