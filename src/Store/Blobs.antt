-- ===== src/Store/Blobs.antt =====
-- runtime/pullrun-store/src/store.rs: the blobs of `MmapStore` on disk and in its cache. A path is the
-- digest that it is made of; each call is one step. `total` is the counter `total_blob_bytes`.
pub mod Transparent
use pullrun.Base.{
  ℕ, ◌+◌, ◌-◌, ◌%◌, Bool, true, false, Option, none, some, List, [], ◌∷◌, ◌++◌, ltb, if◌then◌else◌,
  length,
}
use pullrun.Base.Words.{Bytes, u64_mod}
use pullrun.Base.Text.{eq_bytes}
use pullrun.Base.Map
use pullrun.Base.Map.{Map}
use pullrun.Store.Digest.{Digest, digest_eq}

pub record BlobStore : Type 0 where
  pub files : Map Digest Bytes
  pub cache : Map Digest Bytes
  pub lru : List Digest
  pub total : ℕ
  pub max : Option ℕ

abbrev pub evict_entry : Digest → Option Bytes → BlobStore → BlobStore
evict_entry d none s = s
evict_entry d (some evicted) s = record s {
  cache = Map.remove s.cache d;
  total = (s.total + (u64_mod - length evicted % u64_mod)) % u64_mod;
}

-- The loop, for the digests from the least recently used on.
unfoldable pub evict_loop : ℕ → List Digest → BlobStore → BlobStore
evict_loop max [] s = record s { lru = [] }
evict_loop max (oldest ∷ lru) s =
    let rest = evict_loop max lru (evict_entry oldest (Map.get s.cache oldest) s) in
    if ltb max s.total then rest else record s { lru = oldest ∷ lru }

abbrev pub evict_to : Option ℕ → List Digest → BlobStore → BlobStore
evict_to none lru s = record s { lru = lru }
evict_to (some max) lru s = if ltb 0 max then evict_loop max lru s else record s { lru = lru }

unfoldable pub evict_blob_lru : List Digest → BlobStore → BlobStore
evict_blob_lru lru s = evict_to s.max lru s

-- `position`, `remove` and `push_back`
unfoldable pub remove_first : Digest → List Digest → List Digest
remove_first d [] = []
remove_first d (e ∷ es) = let rest = remove_first d es in if eq_bytes e d then es else e ∷ rest

abbrev pub cached : Digest → Bytes → BlobStore → BlobStore
cached d body s = record s {
  lru = s.lru ++ d ∷ [];
  total = (s.total + length body) % u64_mod;
  cache = Map.put s.cache d body;
}

abbrev pub load_found : Digest → Option Bytes → BlobStore → Option Bytes × BlobStore
load_found d none s = (none, s)
load_found d (some body) s = (some body, cached d body (evict_blob_lru s.lru s))

-- `none` is `NotFound`.
unfoldable pub load_blob_from_disk : Digest → BlobStore → Option Bytes × BlobStore
load_blob_from_disk d s = load_found d (Map.get s.files d) s

abbrev pub get_cached : Digest → Option Bytes → BlobStore → Option Bytes × BlobStore
get_cached d (some body) s = (some body, evict_blob_lru (remove_first d s.lru ++ d ∷ []) s)
get_cached d none s = load_blob_from_disk d s

unfoldable pub get_blob : Digest → BlobStore → Option Bytes × BlobStore
get_blob d s = get_cached d (Map.get s.cache d) s

abbrev pub write_new : Digest → Bytes → Option Bytes → BlobStore → BlobStore
write_new d body (some old) s = s
write_new d body none s = record s { files = Map.put s.files d body }

unfoldable pub put_blob : Digest → Bytes → BlobStore → BlobStore
put_blob d body s = write_new d body (Map.get s.files d) s
