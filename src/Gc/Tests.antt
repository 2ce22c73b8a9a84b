-- ===== src/Gc/Tests.antt =====
-- runtime/pullrun-gc/src/lib.rs: a store of three nodes, one of which the root does not lead to.
use pullrun.Base.{true, ◌≡◌, refl, false, none, some, List, [], ◌∷◌, map, inl, arith}
use pullrun.Base.Words.{Bytes}
use pullrun.Base.Text.{eq_bytes}
use pullrun.Base.Map
use pullrun.Base.Map.{get-remove}
use pullrun.Store.Digest.{Digest, digest_eq}
use pullrun.Store.Dag.{tree, new}
use pullrun.Store.Blobs.{
  BlobStore, get_blob, load_blob_from_disk, evict_blob_lru, evict_loop, remove_first,
}
use pullrun.Store.Blobs.Transparent.{Coherent}
use pullrun.Store.Nodes.{
  Archive, exists, get, get_archived, evict_cache_entry, retain_ne, total_bytes,
}
use pullrun.Store.Walk.{walk_loop, walk_reachable}
use pullrun.Store.OpLock.{LockFile, list_fresh_op_locks, clean_stale_op_locks}
use pullrun.Store.Walk.Plain.{look, Same}
use pullrun.Store.Walk.Exact.{Reach}
use pullrun.Gc.{
  new as new_gc, check_size, filter_unreachable, list_all_node_digests, find_missing, sweep,
  sweep_one, both_removed, GarbageCollector, GcReport, Disk, report, refused, active_op_locks,
  collect,
}
use pullrun.Gc.Locks.{collect-locked}
use pullrun.Gc.Safe.{collect-keeps, collect-frees, collect-idle}

-- A node is written as the first bytes of its edges.
abbrev archive : Archive
archive = record {
  to_bytes = λ node. some [];
  check = λ bytes. some (new tree (map (λ b. b ∷ []) bytes) []);
  sha256 = λ bytes. bytes;
}

abbrev files_only : List (Digest × Bytes) → BlobStore
files_only files = record { files = files; cache = []; lru = []; total = 0; max = some 0 }

abbrev disk : Disk
disk = record {
  store = record {
    nodes = files_only ((1 ∷ [], 2 ∷ []) ∷ (2 ∷ [], []) ∷ (3 ∷ [], 2 ∷ []) ∷ []);
    blobs = files_only ((2 ∷ [], 7 ∷ 8 ∷ []) ∷ (3 ∷ [], 9 ∷ []) ∷ []);
    refcounts = [];
  };
  ops = [];
  removes = record { node = λ d. true; blob = λ d. true };
}

abbrev roots : List Digest
roots = (1 ∷ []) ∷ []

abbrev wet : GarbageCollector
wet = record { dry_run = false; force = false }

disk-Coherent : Coherent disk.store.nodes
unfolding Map.get
disk-Coherent d b e = cc

leads : Reach (look archive disk.store.nodes.files) roots (2 ∷ [])
unfolding Map.get eq_bytes new
leads =
    Reach.edge (1 ∷ []) (2 ∷ []) (new tree ((2 ∷ []) ∷ []) []) (Reach.root (1 ∷ []) refl) refl refl

abbrev swept : GcReport
swept = record {
  total_nodes = 3;
  reachable_nodes = 2;
  unreachable_nodes = 1;
  deleted_nodes = 1;
  deleted_blobs = 1;
  bytes_freed = 2;
  dry_run = false;
}

runs : (collect archive wet 5 roots disk).0 ≡ report swept
unfolding collect list_fresh_op_locks find_missing exists Map.has eq_bytes walk_reachable walk_loop
    new get_archived get get_blob Map.get load_blob_from_disk Map.put evict_blob_lru check_size
    Map.keys Map.remove filter_unreachable list_all_node_digests sweep sweep_one both_removed
    evict_loop remove_first evict_cache_entry retain_ne total_bytes clean_stale_op_locks
runs = refl

-- The second node is still there, and the third is not.
second_left :
    (Map.get (collect archive wet 5 roots disk).1.store.nodes.files (2 ∷ []) ≡ some [])
    × (Map.get (collect archive wet 5 roots disk).1.store.nodes.files (3 ∷ []) ≡ none)
unfolding collect list_fresh_op_locks find_missing exists Map.has eq_bytes walk_reachable walk_loop
    new get_archived get get_blob Map.get load_blob_from_disk Map.put evict_blob_lru check_size
    Map.keys Map.remove filter_unreachable list_all_node_digests sweep sweep_one both_removed
    evict_loop remove_first evict_cache_entry retain_ne total_bytes clean_stale_op_locks
second_left = (refl, refl)

collect-keeps_example :
    (Map.get (collect archive wet 5 roots disk).1.store.nodes.files (2 ∷ [])
      ≡ Map.get disk.store.nodes.files (2 ∷ []))
    × (Map.get (collect archive wet 5 roots disk).1.store.blobs.files (2 ∷ [])
        ≡ Map.get disk.store.blobs.files (2 ∷ []))
collect-keeps_example = collect-keeps archive wet 5 roots disk disk-Coherent (2 ∷ []) leads

collect-frees_example : Reach (look archive disk.store.nodes.files) roots (2 ∷ [])
collect-frees_example =
    collect-frees archive wet 5 roots disk disk-Coherent swept runs refl (2 ∷ []) [] second_left.0

collect-idle_example : Same disk.store (collect archive new_gc 5 roots disk).1.store
collect-idle_example = collect-idle archive new_gc 5 roots disk disk-Coherent (inl refl)

abbrev lock : LockFile
lock = record { content = []; modified = 100 }

abbrev locked : Disk
locked = record disk { ops = (5 ∷ [], lock) ∷ [] }

lock-there : Map.get locked.ops (5 ∷ []) ≡ some lock
unfolding Map.get eq_bytes
lock-there = refl

collect-locked_example : collect archive wet 3000 roots locked ≡ (refused active_op_locks, locked)
collect-locked_example =
    collect-locked archive wet 3000 roots locked (5 ∷ []) lock lock-there (omega arith) refl
