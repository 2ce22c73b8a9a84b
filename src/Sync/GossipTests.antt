-- ===== src/Sync/GossipTests.antt =====
-- runtime/pullrun-sync/src/gossip.rs: one peer, whose filter has the item 3.
use pullrun.Base.{◌≡◌, refl, true, some, [], ◌∷◌, arith}
use pullrun.Base.Words.{Bytes}
use pullrun.Base.Map
use pullrun.Base.Map.{Map, string_eq}
use pullrun.Sync.Bloom.{
  BloomFilter, contains, to_bytes, from_bytes, to_le, from_le, hash_seed, contains_loop, g_i,
  read_word, words_to_bytes, words_from_bytes, parse_filter,
}
use pullrun.Sync.Gossip.{PeerBloomInfo, Cache, update, find_peers_with_blob, may_have}
use pullrun.Sync.Gossip.Fresh.{IsKeyed}

abbrev identity : Bytes → Bytes
identity b = b

abbrev filter : BloomFilter
filter = record { bits = 4608 ∷ 0 ∷ []; k = 2; m = 128; num_items = 1 }

-- `to_bytes filter`
abbrev filter_bytes : Bytes
filter_bytes =
    128 ∷ 0 ∷ 0 ∷ 0 ∷ 0 ∷ 0 ∷ 0 ∷ 0 ∷ 2 ∷ 0 ∷ 0 ∷ 0 ∷ 0 ∷ 18 ∷ 0 ∷ 0 ∷ 0 ∷ 0 ∷ 0 ∷ 0 ∷ 0 ∷ 0 ∷ 0 ∷ 0
    ∷ 0 ∷ 0 ∷ 0 ∷ 0 ∷ []

filter-written : filter_bytes ≡ to_bytes filter
unfolding to_bytes words_to_bytes to_le
filter-written = refl

abbrev old : PeerBloomInfo
old = record {
  node_id = "n1";
  sync_addr = "10.0.0.1:1";
  bloom_bytes = [];
  bloom_k = 0;
  bloom_m = 0;
  last_updated = 0;
}

abbrev info : PeerBloomInfo
info = record {
  node_id = "n1";
  sync_addr = "10.0.0.2:1";
  bloom_bytes = filter_bytes;
  bloom_k = 2;
  bloom_m = 128;
  last_updated = 900000000000;
}

abbrev cache : Cache
cache = ("n1", old) ∷ []

cache-IsKeyed : IsKeyed cache
unfolding Map.get
cache-IsKeyed k i e = ground (arith, string_eq.beq_iff "n1" k)

has-three : contains identity filter (3 ∷ []) ≡ some true
unfolding contains contains_loop hash_seed to_le from_le g_i read_word
has-three = refl

named :
    find_peers_with_blob identity 900000000001 (3 ∷ []) (update "n1" "10.0.0.2:1" info cache)
    ≡ some (("n1", "10.0.0.2:1") ∷ [])
unfolding find_peers_with_blob may_have update Map.get Map.put from_bytes parse_filter
    words_from_bytes contains contains_loop hash_seed to_le from_le g_i read_word
named = refl
