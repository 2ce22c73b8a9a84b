-- ===== src/Store/RemoveTag.antt =====
-- runtime/pullrun-store/src/store.rs: `remove_tag`. The loop runs for a number of rounds, one for each
-- stored edge and one more.
pub mod Counts
pub mod Step
pub mod Safe
pub mod Put
use pullrun.Base.{
  ℕ, zero, suc, ◌+◌, ◌%◌, Bool, true, false, Option, none, some, List, [], ◌∷◌, ◌++◌, ◌==◌, ltb,
  if◌then◌else◌, length,
}
use pullrun.Base.Words.{Bytes, u64_mod}
use pullrun.Base.Map
use pullrun.Base.Map.{Map}
use pullrun.Store.Digest.{Digest, digest_eq, mem}
use pullrun.Store.Dag.{DagNode}
use pullrun.Store.Blobs.{BlobStore}
use pullrun.Store.Nodes.{
  MmapStore, Archive, StoreError, not_found, Result, ok, err, get_archived, decrement_refcount,
  evict_cache_entry,
}
use pullrun.Store.Walk.{stored_edges}

pub data Removal : Type 0 where
  freed : ℕ → Removal
  stopped : StoreError → Removal
  out_of_fuel : Removal

-- The children whose count falls to zero are queued.
unfoldable pub decrement_children : List Digest → MmapStore → List Digest × MmapStore
decrement_children [] s = ([], s)
decrement_children (child ∷ children) s =
    let (count, t) = decrement_refcount child s in
    let (zeros, u) = decrement_children children t in
    (if count == 0 then child ∷ zeros else zeros, u)

abbrev pub without_file : Digest → BlobStore → BlobStore
without_file d s = record s { files = Map.remove s.files d }

-- Node file, blob file and refcount file.
abbrev pub delete_files : Digest → MmapStore → MmapStore
delete_files d s = record s {
  nodes = without_file d s.nodes;
  blobs = without_file d s.blobs;
  refcounts = Map.remove s.refcounts d;
}

abbrev pub file_size : Option Bytes → ℕ
file_size none = 0
file_size (some bytes) = length bytes

abbrev pub sizes : Digest → MmapStore → ℕ
sizes d s = file_size (Map.get s.nodes.files d) + file_size (Map.get s.blobs.files d)

abbrev pub delete_entry : Digest → MmapStore → MmapStore
delete_entry d s = delete_files d (evict_cache_entry d s)

module _ (archive : Archive) where
  unfoldable pub remove_loop : ℕ → List Digest → List Digest → ℕ → MmapStore → Removal × MmapStore
  remove_loop fuel [] deleted bytes s = (freed bytes, s)
  remove_loop zero (d ∷ queue) deleted bytes s = (out_of_fuel, s)
  remove_loop (suc fuel) (d ∷ queue) deleted bytes s = elim (mem d deleted) [
    | true ↦ remove_loop fuel queue deleted bytes s
    | false ↦ elim (Map.has s.nodes.files d) [
      | false ↦ remove_loop fuel queue (d ∷ deleted) bytes s
      | true ↦
          let t : MmapStore = (get_archived archive d s).1 in
          elim (get_archived archive d s).0 [
            | ok node ↦
                let (zeros, u) = decrement_children node.edges t in
                remove_loop fuel (queue ++ zeros) (d ∷ deleted) ((bytes + sizes d u) % u64_mod)
                  (delete_entry d u)
            | err (not_found e) ↦
                remove_loop fuel queue (d ∷ deleted) ((bytes + sizes d t) % u64_mod)
                  (delete_entry d t)
            | err e ↦ (stopped e, t)
          ]
    ]
  ]

  abbrev pub remove_if_zero : Digest → ℕ → MmapStore → Removal × MmapStore
  remove_if_zero root remaining s =
      if ltb 0 remaining
      then (freed 0, s)
      else remove_loop (suc (stored_edges archive s.nodes.files)) (root ∷ []) [] 0 s

  unfoldable pub remove_tag : Digest → MmapStore → Removal × MmapStore
  remove_tag root s =
      remove_if_zero root (decrement_refcount root s).0 (decrement_refcount root s).1
