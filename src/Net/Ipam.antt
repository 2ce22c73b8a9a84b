-- ===== src/Net/Ipam.antt =====
-- runtime/pullrun-net/src/ipam.rs: `Ipam`. Its atomics and locks are fields of the state; a call is
-- one step, but for `allocate`, whose race is in `Race`. Arithmetic on u32 wraps.
pub mod Subnets
pub mod Hosts
pub mod Race
use Prim.Native.String.{String}
use pullrun.Base.{
  ℕ, zero, suc, ◌+◌, ◌-◌, ◌*◌, ◌/◌, ◌%◌, ◌≤◌, ◌<◌, ◌≡◌, refl, Bool, true, false, ◌&&◌, ◌||◌, Option,
  none, some, List, [], ◌∷◌, arith, ltb, leb, ◌==◌, if◌then◌else◌, contains,
}
use pullrun.Base.Words.{u32_mod}
use pullrun.Base.Map
use pullrun.Base.Map.{Map, nat_eq, string_eq}
use pullrun.Net.IpRange.{IpRange, wrap}

pub record Ipam : Type 0 where
  pub range : IpRange
  pub next : ℕ
  pub next_subnet : ℕ
  pub subnets : Map String IpRange
  pub next_in_subnet : Map ℕ ℕ

unfoldable pub new : IpRange → Ipam
new range = record { range = range; next = 2; next_subnet = 0; subnets = []; next_in_subnet = [] }

-- `Clone`: the counters' values are copied, the maps start empty.
unfoldable pub clone : Ipam → Ipam
clone s = record s { subnets = []; next_in_subnet = [] }

abbrev pub pred32 : ℕ → ℕ
pred32 n = wrap (n + 4294967295)

-- One caller, with nobody between the load and the exchange.
unfoldable pub allocate : Ipam → Option ℕ × Ipam
allocate s =
    if leb (pred32 s.range.size) s.next
    then (none, s)
    else (some (wrap (s.range.base + s.next)), record s { next = wrap (s.next + 1) })

abbrev pub subnet_size : ℕ
subnet_size = 256

-- The number of a hexadecimal field of /proc/net/route, its bytes swapped.
unfoldable pub swap_bytes : ℕ → ℕ
swap_bytes n =
    n % 256 * 16777216 + n / 256 % 256 * 65536 + n / 65536 % 256 * 256 + n / 16777216 % 256

-- The /24 routes within the range. `routes` holds the parsed second and eighth fields of the lines
-- that have them.
unfoldable pub live_subnets_in_range : ℕ → ℕ → List (ℕ × ℕ) → List ℕ
unfolding swap_bytes
live_subnets_in_range base size [] = []
live_subnets_in_range base size ((dest, mask) ∷ routes) =
    let rest = live_subnets_in_range base size routes in
    if swap_bytes mask == 4294967040
      && (leb base (swap_bytes dest) && ltb (swap_bytes dest) (wrap (base + size)))
    then swap_bytes dest ∷ rest
    else rest

-- `subnets.values().any(|s| s.base == base)`
unfoldable pub has_base : ℕ → Map String IpRange → Bool
has_base base [] = false
has_base base ((k, s) ∷ m) = s.base == base || has_base base m

abbrev pub subnet_at : Ipam → IpRange
subnet_at s = record {
  base = wrap (s.range.base + wrap (s.next_subnet * subnet_size));
  size = subnet_size;
}

-- `fetch_add` on the counter, and `insert` of the subnet that it names.
abbrev pub take_subnet : String → Ipam → Ipam
take_subnet key s = record s {
  next_subnet = wrap (s.next_subnet + 1);
  subnets = Map.put s.subnets key (subnet_at s);
}

-- The body of the loop in `subnet_for`, for the rounds that are left.
unfoldable pub search_subnet : ℕ → List ℕ → String → Ipam → Option IpRange × Ipam
search_subnet zero live key s = (none, s)
search_subnet (suc rounds) live key s =
    let s' : Ipam = record s { next_subnet = wrap (s.next_subnet + 1) } in
    let again = search_subnet rounds live key s' in
    if ltb s.range.size (wrap (wrap (s.next_subnet + 1) * subnet_size))
    then (none, s')
    else if contains live (subnet_at s).base
    then again
    else if has_base (subnet_at s).base s.subnets
    then again
    else (some (subnet_at s), take_subnet key s)

abbrev pub known_or : Option IpRange → List ℕ → String → Ipam → Option IpRange × Ipam
known_or (some r) live key s = (some r, s)
known_or none live key s = search_subnet 64 live key s

unfoldable pub subnet_for : List (ℕ × ℕ) → String → Ipam → Option IpRange × Ipam
subnet_for routes key s =
    known_or (Map.get s.subnets key) (live_subnets_in_range s.range.base s.range.size routes) key s

abbrev pub counter_of : Option ℕ → ℕ
counter_of none = 2
counter_of (some n) = n

-- `entry(subnet.base).or_insert(2)` stays in the map also where the subnet is full.
unfoldable pub allocate_in : IpRange → Ipam → Option ℕ × Ipam
allocate_in subnet s =
    let current : ℕ = counter_of (Map.get s.next_in_subnet subnet.base) in
    if leb (pred32 subnet.size) current
    then (none, record s { next_in_subnet = Map.put s.next_in_subnet subnet.base current })
    else (
      some (wrap (subnet.base + current)),
      record s { next_in_subnet = Map.put s.next_in_subnet subnet.base (wrap (current + 1)) },
    )

unfoldable pub release : ℕ → Ipam → Ipam
release ip s = s

unfoldable pub gateway : Ipam → ℕ
gateway s = wrap (s.range.base + 1)
