-- ===== src/Runtime/Stop.antt =====
-- runtime/pullrun-runtime/src/service.rs: `stop_workload` as it is built for Linux, where no machine is
-- kept by the daemon itself. The section under the lock is a definition of its own.
use pullrun.Base.{Bool, true, false, not, ◌&&◌, Option, none, some, [], ◌∷◌, if◌then◌else◌}
use pullrun.Base.Words.{Bytes}
use pullrun.Base.Text.{eq_bytes}
use pullrun.Base.Map
use pullrun.Store.Digest.{digest_eq}
use pullrun.Runtime.Names.{running, stopped, exited, pending, vm, unknown}
use pullrun.Runtime.Events.{Event, workload_stopped, new, with_metadata}
use pullrun.Runtime.State.{
  WorkloadState, Daemon, left, emit, record_metric, set_workload, write_workload_checkpoint,
}
use pullrun.Runtime.Validate.{Checked, passed, failed, Invalid, validate_workload_id}
use pullrun.Runtime.Restart.{Env, backend_key, source_key}
use pullrun.Runtime.Watcher.{exit_code_key}

pub data Stopped : Type 0 where
  success not_found stop_failed : Stopped
  bad_id : Invalid → Stopped

unfoldable pub ended : Bytes → Env → WorkloadState → WorkloadState
ended status env s = record s { status = status; exit_code = some 0; exit_time = env.now }

abbrev pub save_ended : Bytes → Env → Bytes → WorkloadState → Daemon → Bool × Daemon
save_ended status env id s d = (
  true,
  write_workload_checkpoint env.writable id (ended status env s)
      (set_workload id (ended status env s) d),
)

abbrev pub mark_found : Env → Bytes → Option WorkloadState → Daemon → Bool × Daemon
mark_found env id none d = (false, d)
mark_found env id (some s) d =
    if eq_bytes s.status running
    then save_ended stopped env id s d
    else if eq_bytes s.status pending
    then save_ended exited env id s d
    else (false, d)

-- Whether the workload was alive, and is now marked.
unfoldable pub mark_stopped : Env → Bytes → Daemon → Bool × Daemon
mark_stopped env id d = mark_found env id (Map.get d.workloads id) d

abbrev pub operator : Bytes
operator = b'o' ∷ b'p' ∷ b'e' ∷ b'r' ∷ b'a' ∷ b't' ∷ b'o' ∷ b'r' ∷ []

abbrev pub zero_text : Bytes
zero_text = b'0' ∷ []

abbrev pub stop_event : Env → Bytes → Bytes → Event
stop_event env id backend = with_metadata source_key operator (
    with_metadata exit_code_key zero_text
      (with_metadata backend_key backend (new id workload_stopped env.now)))

abbrev pub backend_of : Option WorkloadState → Bytes
backend_of none = unknown
backend_of (some s) = s.backend

abbrev pub after_mark : Env → Bytes → Bytes → Bool × Daemon → Daemon
after_mark env id backend (was_running, d) =
    let d' : Daemon = record_metric (left backend (some 0)) d in
    if was_running then emit (stop_event env id backend) d' else d'

unfoldable pub clean_up : Bytes → Daemon → Daemon
clean_up id d = record d {
  rootfs_cache = Map.remove d.rootfs_cache id;
  staged = Map.remove d.staged id;
}

abbrev pub is_vm : Option WorkloadState → Bool
is_vm none = false
is_vm (some s) = eq_bytes s.backend vm

-- From the clean-up on.
abbrev pub finish_stop : Env → Bytes → Daemon → Daemon
finish_stop env id d =
    after_mark env id (backend_of (Map.get d.workloads id)) (mark_stopped env id (clean_up id d))

-- The task that a request spawns. A failure of the executor ends it, but not for a machine.
unfoldable pub stop_task : Env → Bytes → Daemon → Stopped × Daemon
stop_task env id d =
    if not (env.executor.stop id) && not (is_vm (Map.get d.workloads id))
    then (stop_failed, d)
    else (success, finish_stop env id d)

abbrev pub stop_found : Env → Bytes → Option WorkloadState → Daemon → Stopped × Daemon
stop_found env id none d = (not_found, d)
stop_found env id (some s) d =
    if eq_bytes s.status running then stop_task env id d else (success, d)

abbrev pub stop_checked : Env → Bytes → Checked → Daemon → Stopped × Daemon
stop_checked env id (failed e) d = (bad_id e, d)
stop_checked env id passed d = stop_found env id (Map.get d.workloads id) d

unfoldable pub stop_workload : Env → Bytes → Daemon → Stopped × Daemon
stop_workload env id d = stop_checked env id (validate_workload_id id) d
