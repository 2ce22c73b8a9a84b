-- ===== src/Store/Nodes.antt =====
-- runtime/pullrun-store/src/store.rs: `MmapStore`, the nodes on disk with their cache, the blobs and
-- the reference counts. `Archive` is what the code uses of `rkyv` and `sha2`.
pub mod Evict
use pullrun.Base.{
  ℕ, ◌+◌, ◌-◌, ◌%◌, Bool, ◌||◌, Option, none, some, List, [], ◌∷◌, ◌==◌, if◌then◌else◌, length,
}
use pullrun.Base.Words.{Bytes, u64_mod}
use pullrun.Base.Text.{eq_bytes}
use pullrun.Base.Map
use pullrun.Base.Map.{Map}
use pullrun.Store.Digest.{Digest, digest_eq}
use pullrun.Store.Dag.{DagNode}
use pullrun.Store.Blobs.{BlobStore, get_blob}

-- The node cache has the code of the blob cache on fields of its own, so both are of one type.
pub record MmapStore : Type 0 where
  pub nodes : BlobStore
  pub blobs : BlobStore
  pub refcounts : Map Digest ℕ

pub data StoreError : Type 0 where
  not_found corrupted : Digest → StoreError
  serialization : StoreError

pub data Result {ℓ} (A : Type ℓ) : Type ℓ where
  ok : A → Result A
  err : StoreError → Result A

pub record Archive : Type 0 where
  pub to_bytes : DagNode → Option Bytes
  pub check : Bytes → Option DagNode
  pub sha256 : Bytes → Digest

abbrev pub with_nodes : MmapStore → BlobStore → MmapStore
with_nodes s nodes = record s { nodes = nodes }

unfoldable pub get : Digest → MmapStore → Option Bytes × MmapStore
get d s = ((get_blob d s.nodes).0, with_nodes s (get_blob d s.nodes).1)

unfoldable pub exists : Digest → MmapStore → Bool
exists d s = Map.has s.nodes.cache d || Map.has s.nodes.files d

-- `lru.retain(|d| d != digest)`
unfoldable pub retain_ne : Digest → List Digest → List Digest
retain_ne d [] = []
retain_ne d (e ∷ es) = let rest = retain_ne d es in if eq_bytes e d then rest else e ∷ rest

abbrev pub evicted : Digest → Option Bytes → BlobStore → BlobStore
evicted d none s = s
evicted d (some body) s = record s {
  cache = Map.remove s.cache d;
  total = (s.total + (u64_mod - length body % u64_mod)) % u64_mod;
  lru = retain_ne d s.lru;
}

unfoldable pub evict_cache_entry : Digest → MmapStore → MmapStore
evict_cache_entry d s = with_nodes s (evicted d (Map.get s.nodes.cache d) s.nodes)

unfoldable pub total_bytes : MmapStore → ℕ
total_bytes s = (s.nodes.total + s.blobs.total) % u64_mod

abbrev pub or_zero : Option ℕ → ℕ
or_zero none = 0
or_zero (some n) = n

unfoldable pub get_refcount : Digest → MmapStore → ℕ
get_refcount d s = or_zero (Map.get s.refcounts d)

unfoldable pub set_refcount : Digest → ℕ → MmapStore → MmapStore
set_refcount d count s = record s {
  refcounts = if count == 0 then Map.remove s.refcounts d else Map.put s.refcounts d count;
}

unfoldable pub increment_refcount : Digest → MmapStore → ℕ × MmapStore
increment_refcount d s =
    let count : ℕ = (get_refcount d s + 1) % u64_mod in (count, set_refcount d count s)

unfoldable pub decrement_refcount : Digest → MmapStore → ℕ × MmapStore
decrement_refcount d s = let count : ℕ = get_refcount d s - 1 in (count, set_refcount d count s)

-- `for edge in &node.edges { self.increment_refcount(edge) }`
unfoldable pub increment_all : List Digest → MmapStore → MmapStore
increment_all [] s = s
increment_all (e ∷ es) s = increment_all es (increment_refcount e s).1

module _ (archive : Archive) where
  abbrev pub read : Digest → Option Bytes → Result DagNode
  read d none = err (not_found d)
  read d (some bytes) = elim (archive.check bytes) [
    | none ↦ err (corrupted d)
    | some node ↦ ok node
  ]

  unfoldable pub get_archived : Digest → MmapStore → Result DagNode × MmapStore
  get_archived d s = (read d (get d s).0, (get d s).1)

  abbrev pub write_node : Digest → Bytes → DagNode → MmapStore → MmapStore
  write_node d bytes node s =
      if Map.has s.nodes.files d
      then s
      else increment_all node.edges
          (with_nodes s (record s.nodes { files = Map.put s.nodes.files d bytes }))

  abbrev pub put_bytes : Option Bytes → DagNode → MmapStore → Result Digest × MmapStore
  put_bytes none node s = (err serialization, s)
  put_bytes (some bytes) node s =
      (ok (archive.sha256 bytes), write_node (archive.sha256 bytes) bytes node s)

  unfoldable pub put_blocking : DagNode → MmapStore → Result Digest × MmapStore
  put_blocking node s = put_bytes (archive.to_bytes node) node s
