-- ===== src/Sync/Gossip.antt =====
-- runtime/pullrun-sync/src/gossip.rs: `PeerBloomCache`. Times are nanoseconds of one clock; a map's
-- values come in the order of the list. A result of `none` is a panic in a peer's filter.
pub mod Fresh
use Prim.Native.String.{String}
use pullrun.Base.{
  ℕ, suc, ◌-◌, Bool, true, false, Option, none, some, List, [], ◌∷◌, ltb, leb, if◌then◌else◌,
}
use pullrun.Base.Words.{Bytes}
use pullrun.Base.Map
use pullrun.Base.Map.{Map, string_eq}
use pullrun.Sync.Bloom.{BloomFilter, contains, from_bytes}

pub record PeerBloomInfo : Type 0 where
  pub node_id : String
  pub sync_addr : String
  pub bloom_bytes : Bytes
  pub bloom_k : ℕ
  pub bloom_m : ℕ
  pub last_updated : ℕ

abbrev pub Cache : Type 0
Cache = Map String PeerBloomInfo

-- `Duration::from_secs(300)`
abbrev pub cache_ttl : ℕ
cache_ttl = 300000000000

-- `now.duration_since(info.last_updated) <= CACHE_TTL`; the difference stops at 0.
abbrev pub is_fresh : ℕ → PeerBloomInfo → Bool
is_fresh now info = leb (now - info.last_updated) cache_ttl

-- What an entry becomes: one that was there keeps its `node_id`.
abbrev pub refreshed : Option PeerBloomInfo → String → PeerBloomInfo → PeerBloomInfo
refreshed none sync_addr info = info
refreshed (some existing) sync_addr info = record existing {
  bloom_bytes = info.bloom_bytes;
  bloom_k = info.bloom_k;
  bloom_m = info.bloom_m;
  last_updated = info.last_updated;
  sync_addr = sync_addr;
}

unfoldable pub update : String → String → PeerBloomInfo → Cache → Cache
update node_id sync_addr info cache =
    Map.put cache node_id (refreshed (Map.get cache node_id) sync_addr info)

unfoldable pub peer_count : ℕ → Cache → ℕ
peer_count now [] = 0
peer_count now ((k, info) ∷ cache) =
    let rest = peer_count now cache in if is_fresh now info then suc rest else rest

unfoldable pub remove_stale : ℕ → Cache → Cache
remove_stale now [] = []
remove_stale now ((k, info) ∷ cache) =
    let rest = remove_stale now cache in if is_fresh now info then (k, info) ∷ rest else rest

module _ (sha256 : Bytes → Bytes) where
  abbrev pub in_filter : Bytes → Option (BloomFilter × ℕ) → Option Bool
  in_filter digest none = some false
  in_filter digest (some (f, len)) = contains sha256 f digest

  unfoldable pub may_have : ℕ → Bytes → PeerBloomInfo → Option Bool
  may_have now digest info =
      if is_fresh now info then in_filter digest (from_bytes info.bloom_bytes) else some false

  abbrev pub collect_peer :
      PeerBloomInfo
      → Option Bool
      → Option (List (String × String))
      → Option (List (String × String))
  collect_peer info none rest = none
  collect_peer info (some there) none = none
  collect_peer info (some there) (some peers) =
      some (if there then (info.node_id, info.sync_addr) ∷ peers else peers)

  unfoldable pub find_peers_with_blob : ℕ → Bytes → Cache → Option (List (String × String))
  find_peers_with_blob now digest [] = some []
  find_peers_with_blob now digest ((k, info) ∷ cache) =
      collect_peer info (may_have now digest info) (find_peers_with_blob now digest cache)
