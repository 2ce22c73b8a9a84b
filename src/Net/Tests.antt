-- ===== src/Net/Tests.antt =====
-- runtime/pullrun-net/src/ipam.rs on a /16 range.
use Prim.Native.String.{String}
use pullrun.Base.{
  ℕ, ◌+◌, ◌-◌, ◌^◌, ◌%◌, ◌≤◌, ◌<◌, ◌≡◌, ◌≢◌, refl, none, some, List, [], ◌∷◌, arith, All,
}
use pullrun.Base.Map
use pullrun.Base.Map.{Map, nat_eq, string_eq}
use pullrun.Net.IpRange.{IpRange, IsRange, ok, cidr_range}
use pullrun.Net.IpRange.Cidr.{cidr_range-IsRange, cidr_range-zero}
use pullrun.Net.Ipam.{
  Ipam, new, subnet_for, search_subnet, live_subnets_in_range, swap_bytes, has_base,
}
use pullrun.Net.Ipam.Subnets.{IsAssigned, IsAssigned-new, subnet_for-IsAssigned}
use pullrun.Net.Ipam.Hosts.{assign_hosts, assign_hosts-Distinct}
use pullrun.Net.Ipam.Hosts
use pullrun.Net.Ipam.Race.{
  World, Step, load, full, swap, retry, Reach, here, step, start, IsHost, Reach-Distinct,
}
use pullrun.Net.Ipam.Race

-- 10.20.0.0/16
abbrev range16 : IpRange
range16 = record { base = 169082880; size = 65536 }

range16-IsRange : IsRange range16
range16-IsRange = record { nonempty = omega arith; within = omega arith }

cidr16 : cidr_range 169082999 16 ≡ ok range16
unfolding cidr_range
cidr16 = refl

cidr_range-IsRange_example :
    IsRange range16
    × (range16.size ≡ 2 ^ (32 - 16))
    × (range16.base ≤ 169082999)
    × (169082999 < range16.base + range16.size)
    × (range16.base % range16.size ≡ 0)
cidr_range-IsRange_example =
    cidr_range-IsRange 169082999 16 range16 (omega arith) (omega arith) cidr16

cidr_range-zero_example : cidr_range 169082880 0 ≡ ok (record { base = 0; size = 1 })
cidr_range-zero_example = cidr_range-zero 169082880

-- One route: 10.20.0.0/24, in the kernel's byte order.
abbrev routes : List (ℕ × ℕ)
routes = (5130, 16777215) ∷ []

abbrev fresh : Ipam
fresh = new range16

abbrev second : IpRange
second = record { base = 169083136; size = 256 }

abbrev third : IpRange
third = record { base = 169083392; size = 256 }

-- After one and after two keys.
abbrev webbed : Ipam
webbed = record {
  range = range16;
  next = 2;
  next_subnet = 2;
  subnets = ("web", second) ∷ [];
  next_in_subnet = [];
}

abbrev both : Ipam
both = record {
  range = range16;
  next = 2;
  next_subnet = 3;
  subnets = ("web", second) ∷ ("db", third) ∷ [];
  next_in_subnet = [];
}

fresh-web : subnet_for routes "web" fresh ≡ (some second, webbed)
unfolding subnet_for search_subnet live_subnets_in_range swap_bytes has_base new Map.get Map.put
fresh-web = refl

webbed-db : subnet_for routes "db" webbed ≡ (some third, both)
unfolding subnet_for search_subnet live_subnets_in_range swap_bytes has_base Map.get Map.put
webbed-db = refl

webbed-IsAssigned : IsAssigned webbed
unfolding new
webbed-IsAssigned = rw fresh-web at (
    subnet_for-IsAssigned routes "web" fresh range16-IsRange (omega arith) (IsAssigned-new range16))

both-IsAssigned : IsAssigned both
both-IsAssigned =
    rw webbed-db at
      (subnet_for-IsAssigned routes "db" webbed range16-IsRange (omega arith) webbed-IsAssigned)

subnet_for-IsAssigned_example : IsAssigned (subnet_for routes "db" webbed).1
subnet_for-IsAssigned_example =
    subnet_for-IsAssigned routes "db" webbed range16-IsRange (omega arith) webbed-IsAssigned

webbed-new_key : Map.get webbed.subnets "db" ≡ none
unfolding Map.get
webbed-new_key = refl

db-given : (subnet_for routes "db" webbed).0 ≡ some third
db-given = rw webbed-db

both-web : Map.get both.subnets "web" ≡ some second
unfolding Map.get
both-web = refl

both-db : Map.get both.subnets "db" ≡ some third
unfolding Map.get
both-db = refl

web-ne-db : ◌≢◌ {A = String} "web" "db"
web-ne-db e = cc (webbed-new_key, e, web-there)
  where
    web-there : Map.get webbed.subnets "web" ≡ some second
    web-there = unfold Map.get in refl

second-IsRange : IsRange second
second-IsRange = record { nonempty = omega arith; within = omega arith }

third-IsRange : IsRange third
third-IsRange = record { nonempty = omega arith; within = omega arith }

assign_hosts-Distinct_example : Hosts.Distinct (assign_hosts (second ∷ third ∷ second ∷ []) both)
assign_hosts-Distinct_example =
    assign_hosts-Distinct both (second ∷ third ∷ second ∷ []) both both-IsAssigned
      (("web", both-web), (("db", both-db), (("web", both-web), tt)))
      (second-IsRange, (third-IsRange, (second-IsRange, tt)))

-- Two callers load the counter before either exchanges it; the second one starts again.
abbrev one_loaded : World
one_loaded = record start { loaded = Race.hold start.loaded 0 (some start.next) }

abbrev two_loaded : World
two_loaded = record one_loaded { loaded = Race.hold one_loaded.loaded 1 (some one_loaded.next) }

abbrev one_swapped : World
one_swapped = record two_loaded {
  next = 3;
  loaded = Race.hold two_loaded.loaded 0 none;
  given = 169082882 ∷ [];
}

abbrev two_retries : World
two_retries = record one_swapped { loaded = Race.hold one_swapped.loaded 1 none }

race : Reach range16 start two_retries
race =
    step
      (step (step (step here (load start 0)) (load one_loaded 1))
        (swap two_loaded 0 2 refl refl refl))
      (retry one_swapped 1 2 refl refl (omega arith))

Reach-Distinct_example : Race.Distinct (169082882 ∷ []) × All (IsHost range16) (169082882 ∷ [])
Reach-Distinct_example = Reach-Distinct range16 two_retries range16-IsRange race
