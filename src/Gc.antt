-- ===== src/Gc.antt =====
-- runtime/pullrun-gc/src/lib.rs: `GarbageCollector::collect`. The directory walk yields the digests
-- whose node files are there; a file's size is the length of its bytes.
pub mod Sweep
pub mod Safe
pub mod Locks
mod Tests
use pullrun.Base.{
  ℕ, ◌+◌, ◌*◌, ◌/◌, ◌%◌, Bool, true, false, not, ◌&&◌, Option, none, some, List, [], ◌∷◌, ltb, leb,
  if◌then◌else◌, length,
}
use pullrun.Base.Words.{Bytes, u64_mod}
use pullrun.Base.Map
use pullrun.Base.Map.{Map}
use pullrun.Store.Digest.{Digest, digest_eq, mem}
use pullrun.Store.Blobs.{BlobStore}
use pullrun.Store.Nodes.{
  MmapStore, Archive, StoreError, not_found, corrupted, exists, evict_cache_entry, total_bytes,
}
use pullrun.Store.Walk.{Outcome, walked, failed, out_of_fuel, walk_reachable}
use pullrun.Store.OpLock.{Ops, list_fresh_op_locks, clean_stale_op_locks}

pub data GcError : Type 0 where
  active_op_locks empty_root_set io : GcError
  root_digest_missing corrupted_node_during_walk : Digest → GcError
  store : StoreError → GcError
  would_free_too_much : ℕ → ℕ → ℕ → GcError

pub record GcReport : Type 0 where
  pub total_nodes : ℕ
  pub reachable_nodes : ℕ
  pub unreachable_nodes : ℕ
  pub deleted_nodes : ℕ
  pub deleted_blobs : ℕ
  pub bytes_freed : ℕ
  pub dry_run : Bool

pub record GarbageCollector : Type 0 where
  pub dry_run : Bool
  pub force : Bool

abbrev pub new : GarbageCollector
new = record { dry_run = true; force = false }

abbrev pub with_dry_run : Bool → GarbageCollector → GarbageCollector
with_dry_run dry_run gc = record gc { dry_run = dry_run }

abbrev pub with_force : Bool → GarbageCollector → GarbageCollector
with_force force gc = record gc { force = force }

-- Whether the file system removes the node file, and the blob file, of a digest.
pub record Removes : Type 0 where
  pub node : Digest → Bool
  pub blob : Digest → Bool

-- The store's directory: the store, the lock files, and the files that can be removed.
pub record Disk : Type 0 where
  pub store : MmapStore
  pub ops : Ops
  pub removes : Removes

pub data Collected : Type 0 where
  report : GcReport → Collected
  refused : GcError → Collected
  endless : Collected

unfoldable pub list_all_node_digests : MmapStore → List Digest
list_all_node_digests s = Map.keys s.nodes.files

unfoldable pub find_missing : MmapStore → List Digest → Option Digest
find_missing s [] = none
find_missing s (root ∷ roots) =
    let rest = find_missing s roots in if exists root s then rest else some root

abbrev pub distinct : List Digest → List Digest
distinct [] = []
distinct (d ∷ ds) = let rest = distinct ds in if mem d rest then rest else d ∷ rest

unfoldable pub filter_unreachable : List Digest → List Digest → List Digest
filter_unreachable reachable [] = []
filter_unreachable reachable (d ∷ ds) =
    let rest = filter_unreachable reachable ds in if mem d reachable then rest else d ∷ rest

abbrev pub size : Option Bytes → ℕ
size none = 0
size (some bytes) = length bytes

abbrev pub sum_sizes : MmapStore → List Digest → ℕ
sum_sizes s [] = 0
sum_sizes s (d ∷ ds) = (size (Map.get s.nodes.files d) + sum_sizes s ds) % u64_mod

abbrev pub percent : ℕ → ℕ → ℕ
percent unreachable_bytes total_bytes = unreachable_bytes * 100 % u64_mod / total_bytes

abbrev pub too_much : ℕ → ℕ → Option GcError
too_much pct total =
    if leb 90 pct then some (would_free_too_much pct (total / 1024 / 1024) 90) else none

unfoldable pub check_size : GarbageCollector → ℕ → List Digest → MmapStore → Option GcError
check_size gc total_nodes unreachable s =
    if not gc.force && ltb 0 total_nodes && ltb 104857600 (total_bytes s)
    then too_much (percent (sum_sizes s unreachable) (total_bytes s)) (total_bytes s)
    else none

abbrev pub drop_file : Digest → BlobStore → BlobStore
drop_file d s = record s { files = Map.remove s.files d }

abbrev pub delete_node : Digest → Option Bytes → GcReport × MmapStore → GcReport × MmapStore
delete_node d none (r, s) = (r, s)
delete_node d (some bytes) (r, s) = (
  record r {
    deleted_nodes = r.deleted_nodes + 1;
    bytes_freed = (r.bytes_freed + length bytes) % u64_mod;
  },
  record s { nodes = drop_file d s.nodes },
)

abbrev pub delete_blob : Digest → Option Bytes → GcReport × MmapStore → GcReport × MmapStore
delete_blob d none (r, s) = (r, s)
delete_blob d (some bytes) (r, s) = (
  record r {
    deleted_blobs = r.deleted_blobs + 1;
    bytes_freed = (r.bytes_freed + length bytes) % u64_mod;
  },
  record s { blobs = drop_file d s.blobs },
)

abbrev pub node_removed : Digest → GcReport × MmapStore → GcReport × MmapStore
node_removed d (r, s) = delete_node d (Map.get s.nodes.files d) (r, evict_cache_entry d s)

unfoldable pub both_removed : Digest → GcReport × MmapStore → GcReport × MmapStore
both_removed d (r, s) = delete_blob d (Map.get s.blobs.files d) (node_removed d (r, s))

-- One round of the loop. It is `false` where a file is there and cannot be removed: the sweep ends.
unfoldable pub sweep_one : Removes → Digest → GcReport × MmapStore → Bool × (GcReport × MmapStore)
sweep_one removes d (r, s) =
    if Map.has s.nodes.files d && not (removes.node d)
    then (false, (r, evict_cache_entry d s))
    else if Map.has s.blobs.files d && not (removes.blob d)
    then (false, node_removed d (r, s))
    else (true, both_removed d (r, s))

unfoldable pub sweep : Removes → List Digest → GcReport × MmapStore → Bool × (GcReport × MmapStore)
sweep removes [] rs = (true, rs)
sweep removes (d ∷ unreachable) rs =
    let (done, rs') = sweep_one removes d rs in
    let rest = sweep removes unreachable rs' in if done then rest else (false, rs')

abbrev pub swept_result : Bool × (GcReport × MmapStore) → Collected × MmapStore
swept_result (true, (r, s)) = (report r, s)
swept_result (false, (r, s)) = (refused io, s)

abbrev pub counted : ℕ → ℕ → ℕ → GcReport
counted total_nodes reachable_nodes unreachable_nodes = record {
  total_nodes = total_nodes;
  reachable_nodes = reachable_nodes;
  unreachable_nodes = unreachable_nodes;
  deleted_nodes = 0;
  deleted_blobs = 0;
  bytes_freed = 0;
  dry_run = false;
}

-- From step 7 on.
abbrev pub sweep_or_report :
    GarbageCollector
    → Removes
    → GcReport
    → List Digest
    → Option GcError
    → MmapStore
    → Collected × MmapStore
sweep_or_report gc removes r unreachable (some e) s = (refused e, s)
sweep_or_report gc removes r unreachable none s =
    if gc.dry_run
    then (report (record r { dry_run = true }), s)
    else swept_result (sweep removes unreachable (r, s))

abbrev pub after_walk :
    GarbageCollector → Removes → List Digest → Outcome × MmapStore → Collected × MmapStore
after_walk gc removes all_digests (walked nodes blobs, s) =
    let unreachable = filter_unreachable nodes all_digests in
    sweep_or_report gc removes
      (counted (length all_digests) (length (distinct nodes)) (length unreachable)) unreachable
      (check_size gc (length all_digests) unreachable s) s
after_walk gc removes all_digests (failed (corrupted d), s) =
    (refused (corrupted_node_during_walk d), s)
after_walk gc removes all_digests (failed e, s) = (refused (store e), s)
after_walk gc removes all_digests (out_of_fuel, s) = (endless, s)

abbrev pub cleaned_ops : GarbageCollector → ℕ → Ops → Ops
cleaned_ops gc now ops = if gc.dry_run then ops else (clean_stale_op_locks now ops).1

module _ (archive : Archive) where
  abbrev pub collect_checked :
      GarbageCollector → Removes → List Digest → Option Digest → MmapStore → Collected × MmapStore
  collect_checked gc removes [] missing s = (refused empty_root_set, s)
  collect_checked gc removes (root ∷ roots) (some d) s = (refused (root_digest_missing d), s)
  collect_checked gc removes (root ∷ roots) none s =
      after_walk gc removes (list_all_node_digests s) (walk_reachable archive (root ∷ roots) s)

  abbrev pub with_store : Ops → Removes → Collected × MmapStore → Collected × Disk
  with_store ops removes (c, s) = (c, record { store = s; ops = ops; removes = removes })

  abbrev pub past_locks :
      GarbageCollector → Removes → List Digest → Ops → MmapStore → Collected × Disk
  past_locks gc removes roots ops s =
      with_store ops removes (collect_checked gc removes roots (find_missing s roots) s)

  abbrev pub under_locks :
      GarbageCollector → ℕ → List Digest → Disk → List (Bytes × List Bytes) → Collected × Disk
  under_locks gc now roots disk [] =
      past_locks gc disk.removes roots (cleaned_ops gc now disk.ops) disk.store
  under_locks gc now roots disk (lock ∷ locks) =
      if gc.force
      then past_locks gc disk.removes roots (cleaned_ops gc now disk.ops) disk.store
      else (refused active_op_locks, disk)

  unfoldable pub collect : GarbageCollector → ℕ → List Digest → Disk → Collected × Disk
  collect gc now roots disk = under_locks gc now roots disk (list_fresh_op_locks now disk.ops)
