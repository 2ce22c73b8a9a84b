-- ===== src/Runtime/Recovery.antt =====
-- runtime/pullrun-runtime/src/service.rs: what the daemon makes of its checkpoints when it starts.
-- `alive` is what `runc state` answers for an id.
pub mod Crash
use pullrun.Base.{
  ℕ, Bool, true, false, not, ◌&&◌, ◌||◌, ◌==◌, Option, none, some, List, [], ◌∷◌, if◌then◌else◌,
}
use pullrun.Base.Words.{Bytes}
use pullrun.Base.Text.{eq_bytes}
use pullrun.Base.Map
use pullrun.Base.Map.{Map}
use pullrun.Store.Digest.{digest_eq}
use pullrun.Runtime.Names.{running, exited, vm}
use pullrun.Runtime.State.{WorkloadState, Entry, load_workload_checkpoints, Daemon}
use pullrun.Runtime.Restart.{is_nil}

abbrev pub code_or_killed : Option ℕ → Option ℕ
code_or_killed none = some 137
code_or_killed (some code) = some code

unfoldable pub crashed : ℕ → WorkloadState → WorkloadState
crashed now s = record s {
  status = exited;
  exit_code = code_or_killed s.exit_code;
  exit_time = if s.exit_time == 0 then now else s.exit_time;
}

unfoldable pub recover_one : (Bytes → Bool) → ℕ → Bytes → WorkloadState → WorkloadState
recover_one alive now id s =
    if eq_bytes s.status running && not (eq_bytes s.backend vm)
    then if alive id then s else crashed now s
    else s

unfoldable pub recover_all : (Bytes → Bool) → ℕ → Map Bytes WorkloadState → Map Bytes WorkloadState
recover_all alive now [] = []
recover_all alive now ((id, s) ∷ workloads) =
    (id, recover_one alive now id s) ∷ recover_all alive now workloads

-- The digest of the first tag with this reference, in the order of the map.
unfoldable pub find_digest : Bytes → Map Bytes Bytes → Option Bytes
find_digest image_ref [] = none
find_digest image_ref ((digest, tag) ∷ tags) =
    let rest = find_digest image_ref tags in if eq_bytes tag image_ref then some digest else rest

abbrev pub with_kernel : WorkloadState → Option Bytes → Bool × WorkloadState
with_kernel s none = (false, s)
with_kernel s (some digest) = (true, record s { kernel_image_digest = digest })

unfoldable pub migrate_one : Map Bytes Bytes → WorkloadState → Bool × WorkloadState
migrate_one tags s =
    if not (is_nil s.kernel_image_ref) && is_nil s.kernel_image_digest
    then with_kernel s (find_digest s.kernel_image_ref tags)
    else (false, s)

unfoldable pub migrate_all :
    Map Bytes Bytes → Map Bytes WorkloadState → Bool × Map Bytes WorkloadState
migrate_all tags [] = (false, [])
migrate_all tags ((id, s) ∷ workloads) =
    let (migrated, s') = migrate_one tags s in
    let (later, rest) = migrate_all tags workloads in (migrated || later, (id, s') ∷ rest)

unfoldable pub save_all :
    Map Bytes WorkloadState → Map Bytes WorkloadState → Map Bytes WorkloadState
save_all [] checkpoints = checkpoints
save_all ((id, s) ∷ workloads) checkpoints = save_all workloads (Map.put checkpoints id s)

-- All checkpoints are written again where a digest was found, and can be written.
unfoldable pub migrate_kernel_digests : Daemon → Daemon
migrate_kernel_digests d =
    let (migrated, workloads) = migrate_all d.image_tags d.workloads in
    record d {
      workloads = workloads;
      checkpoints = if migrated then save_all workloads d.checkpoints else d.checkpoints;
    }

-- The directory is read, and the tags are what `image_tags.json` holds. Locks and reference counts are
-- recovered elsewhere.
unfoldable pub start_daemon : (Bytes → Bool) → ℕ → Option (List Entry) → Map Bytes Bytes → Daemon
start_daemon alive now entries tags = migrate_kernel_digests (record {
  workloads = recover_all alive now (load_workload_checkpoints entries);
  image_tags = tags;
  checkpoints = load_workload_checkpoints entries;
  kernel_cache = [];
  rootfs_cache = [];
  staged = [];
  events = [];
  metrics = [];
  announced = [];
})
