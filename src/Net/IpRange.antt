-- ===== src/Net/IpRange.antt =====
-- runtime/pullrun-net/src/ipam.rs: `IpRange`. Arithmetic on u32 wraps, as in a release build.
-- `parse_ip` and `parse_u32` stand for the parsers of the standard library.
pub mod Cidr
use pullrun.Base.{
  ℕ, ◌+◌, ◌-◌, ◌*◌, ◌/◌, ◌%◌, ◌^◌, ◌≤◌, ◌<◌, ◌≡◌, refl, Bool, Option, none, some, List, [], ◌∷◌,
  arith, ltb, ◌==◌, if◌then◌else◌,
}
use Prim.Native.Nat.{bit_and}
use pullrun.Base.Text.{split_on}
use pullrun.Base.Words.{Bytes, u32_mod}

pub record IpRange : Type 0 where
  pub base : ℕ
  pub size : ℕ

pub data CidrError : Type 0 where
  invalid_cidr invalid_ip invalid_prefix prefix_too_large : CidrError

pub data Result (A : Type 0) : Type 0 where
  ok : A → Result A
  err : CidrError → Result A

abbrev pub wrap : ℕ → ℕ
wrap n = n % u32_mod

-- `1u32 << n`: the shift is by `n % 32`.
unfoldable pub shl_one : ℕ → ℕ
shl_one n = 2 ^ (n % 32)

-- `!n` on u32
abbrev pub invert : ℕ → ℕ
invert n = u32_mod - 1 - n

-- `ip & !((1 << (32 - prefix)) - 1)`, and 0 for prefix 0.
unfoldable pub network : ℕ → ℕ → ℕ
unfolding shl_one
network ip prefix = if prefix == 0 then 0 else bit_and ip (invert (shl_one (32 - prefix) - 1))

-- `cidr.split('/')`
unfoldable pub split_slash : Bytes → List Bytes
split_slash cidr = split_on b'/' cidr

-- The range of an address and a prefix length.
unfoldable pub cidr_range : ℕ → ℕ → Result IpRange
unfolding network shl_one
cidr_range ip prefix =
    if ltb 32 prefix
    then err prefix_too_large
    else ok (record { base = network ip prefix; size = shl_one (32 - prefix) })

module _ (parse_ip parse_u32 : Bytes → Option ℕ) where
  unfoldable pub cidr_parts : Bytes → Bytes → Result IpRange
  unfolding cidr_range
  cidr_parts ip prefix = elim (parse_ip ip) [
    | none ↦ err invalid_ip
    | some n ↦ elim (parse_u32 prefix) [ none ↦ err invalid_prefix | some p ↦ cidr_range n p ]
  ]

  unfoldable pub cidr_split : List Bytes → Result IpRange
  unfolding cidr_parts
  cidr_split (ip ∷ prefix ∷ []) = cidr_parts ip prefix
  cidr_split _ = err invalid_cidr

  unfoldable pub from_cidr : Bytes → Result IpRange
  unfolding cidr_split split_slash
  from_cidr cidr = cidr_split (split_slash cidr)

-- `Ipv4Addr::from(self.base + offset)`
unfoldable pub to_ip : IpRange → ℕ → ℕ
to_ip r offset = wrap (r.base + offset)

-- A range that lies in the address space.
pub record IsRange (r : IpRange) : Type 0 where
  pub nonempty : 0 < r.size
  pub within : r.base + r.size ≤ u32_mod
