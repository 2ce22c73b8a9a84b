-- ===== src/Runtime/Prune.antt =====
-- runtime/pullrun-runtime/src/service.rs: what `prune` removes of the daemon's own state. Sizes on disk
-- and the directories of bundles are not part of it.
use pullrun.Base.{List, [], ◌∷◌, if◌then◌else◌}
use pullrun.Base.Words.{Bytes}
use pullrun.Base.Text.{eq_bytes}
use pullrun.Base.Map
use pullrun.Base.Map.{Map}
use pullrun.Store.Digest.{digest_eq}
use pullrun.Runtime.Names.{exited}
use pullrun.Runtime.State.{WorkloadState, Daemon}

unfoldable pub exited_ids : Map Bytes WorkloadState → List Bytes
exited_ids [] = []
exited_ids ((id, s) ∷ workloads) =
    let rest = exited_ids workloads in if eq_bytes s.status exited then id ∷ rest else rest

unfoldable pub remove_ids : List Bytes → Map Bytes WorkloadState → Map Bytes WorkloadState
remove_ids [] workloads = workloads
remove_ids (id ∷ ids) workloads = remove_ids ids (Map.remove workloads id)

unfoldable pub prune_workloads : Daemon → Daemon
prune_workloads d = record d { workloads = remove_ids (exited_ids d.workloads) d.workloads }

-- `retain` of the entries whose id has a workload.
unfoldable pub retain_ids : {V : Type 0} → Map Bytes WorkloadState → Map Bytes V → Map Bytes V
retain_ids workloads [] = []
retain_ids workloads ((id, v) ∷ entries) =
    let rest = retain_ids workloads entries in if Map.has workloads id then (id, v) ∷ rest else rest

unfoldable pub prune_orphans : Daemon → Daemon
prune_orphans d = record d {
  rootfs_cache = retain_ids d.workloads d.rootfs_cache;
  staged = retain_ids d.workloads d.staged;
}

unfoldable pub prune : Daemon → Daemon
prune d = prune_orphans (prune_workloads d)
