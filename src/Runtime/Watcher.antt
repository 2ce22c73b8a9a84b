-- ===== src/Runtime/Watcher.antt =====
-- runtime/pullrun-runtime/src/service.rs: the task that looks for workloads that have exited. A tick
-- runs on the daemon as one sequence; its sections under the lock are definitions of their own.
use pullrun.Base.{
  ℕ, Bool, true, false, not, ◌&&◌, ◌==◌, Option, none, some, List, [], ◌∷◌, if◌then◌else◌,
}
use pullrun.Base.Words.{Bytes}
use pullrun.Base.Text.{eq_bytes}
use pullrun.Base.Map
use pullrun.Base.Map.{Map}
use pullrun.Store.Digest.{digest_eq, mem}
use pullrun.Runtime.Names.{running, exited, vm, unknown}
use pullrun.Runtime.Exec.{RestartPolicy, no, on_failure, always, unless_stopped}
use pullrun.Runtime.ExitCode.{parse_exit_code}
use pullrun.Runtime.ExitCode.Decimal.{to_string}
use pullrun.Runtime.Events.{Event, workload_exited, new, with_metadata}
use pullrun.Runtime.State.{
  WorkloadState, Daemon, left, emit, record_metric, set_workload, write_workload_checkpoint,
}
use pullrun.Runtime.Restart.{Env, is_nil, backend_key, source_key, attempt_restart}

abbrev pub is_zero_code : Option ℕ → Bool
is_zero_code none = false
is_zero_code (some code) = code == 0

-- Whether the policy asks for a restart, after an exit that was reported and after one that was not.
unfoldable pub should_restart : RestartPolicy → Option ℕ → Bool
should_restart no code = false
should_restart on_failure code = not (is_zero_code code)
should_restart always code = true
should_restart unless_stopped code = true

unfoldable pub should_restart_lost : RestartPolicy → Option ℕ → Bool
should_restart_lost no code = false
should_restart_lost on_failure code = true
should_restart_lost always code = true
should_restart_lost unless_stopped code = true

unfoldable pub exit_state : ℕ → Option ℕ → WorkloadState → WorkloadState
exit_state now code s = record s { status = exited; exit_time = now; exit_code = code }

-- What the section under the lock finds: the workload is no longer running, or it is gone, or it is
-- marked, and may have to be restarted.
pub data Mark : Type 0 where
  skipped gone : Mark
  marked : Bool → Mark

abbrev pub mark_found :
    Env
    → (RestartPolicy → Option ℕ → Bool)
    → Bytes
    → Option ℕ
    → Option WorkloadState
    → Daemon
    → Mark × Daemon
mark_found env decide id code none d = (gone, d)
mark_found env decide id code (some s) d =
    if eq_bytes s.status running
    then (
      marked (decide s.restart_policy code),
      write_workload_checkpoint env.writable id (exit_state env.now code s)
          (set_workload id (exit_state env.now code s) d),
    )
    else (skipped, d)

unfoldable pub mark_exited :
    Env → (RestartPolicy → Option ℕ → Bool) → Bytes → Option ℕ → Daemon → Mark × Daemon
mark_exited env decide id code d = mark_found env decide id code (Map.get d.workloads id) d

abbrev pub exit_code_key : Bytes
exit_code_key = b'e' ∷ b'x' ∷ b'i' ∷ b't' ∷ b'_' ∷ b'c' ∷ b'o' ∷ b'd' ∷ b'e' ∷ []

abbrev pub watcher_source : Bytes
watcher_source = b'w' ∷ b'a' ∷ b't' ∷ b'c' ∷ b'h' ∷ b'e' ∷ b'r' ∷ []

abbrev pub best_effort_source : Bytes
best_effort_source =
    b'w' ∷ b'a' ∷ b't' ∷ b'c' ∷ b'h' ∷ b'e' ∷ b'r' ∷ b'_' ∷ b'b' ∷ b'e' ∷ b's' ∷ b't' ∷ b'_' ∷ b'e'
    ∷ b'f' ∷ b'f' ∷ b'o' ∷ b'r' ∷ b't' ∷ []

abbrev pub code_text : Option ℕ → Bytes
code_text none = unknown
code_text (some code) = to_string code

abbrev pub exit_event : Bytes → ℕ → Bytes → Option ℕ → Bytes → Event
exit_event id now backend code source = with_metadata source_key source (
    with_metadata exit_code_key (code_text code)
      (with_metadata backend_key backend (new id workload_exited now)))

unfoldable pub announce : Bytes → Daemon → Daemon
announce id d = if mem id d.announced then d else record d { announced = id ∷ d.announced }

abbrev pub record_exit : Env → Bytes → Bytes → Option ℕ → Bytes → Daemon → Daemon
record_exit env id backend code source d =
    emit (exit_event id env.now backend code source) (record_metric (left backend code) d)

-- From the end of the section on; `lost` is the code that is reported for a workload that is gone.
abbrev pub after_mark : Env → Bytes → Bytes → Option ℕ → Option ℕ → Bytes → Mark × Daemon → Daemon
after_mark env id backend code lost source (skipped, d) = d
after_mark env id backend code lost source (gone, d) =
    announce id (record_exit env id backend lost source d)
after_mark env id backend code lost source (marked restart, d) =
    let d' : Daemon = record_exit env id backend code source d in
    if restart then attempt_restart env id backend d' else announce id d'

abbrev pub watch_status : Env → Bytes → Bytes → Option Bytes → Daemon → Daemon
watch_status env id backend (some s) d =
    if not (eq_bytes s running) && not (is_nil s)
    then after_mark env id backend (parse_exit_code s) none watcher_source
        (mark_exited env should_restart id (parse_exit_code s) d)
    else d
watch_status env id backend none d =
    if eq_bytes backend vm
    then d
    else after_mark env id backend (some 137) (some 137) best_effort_source
        (mark_exited env should_restart_lost id (some 137) d)

unfoldable pub watch_one : Env → Bytes → Bytes → Daemon → Daemon
watch_one env id backend d =
    if mem id d.announced then d else watch_status env id backend (env.executor.status id) d

unfoldable pub snapshot : Map Bytes WorkloadState → List (Bytes × Bytes)
snapshot [] = []
snapshot ((id, s) ∷ workloads) =
    let rest = snapshot workloads in
    if eq_bytes s.status running then (id, s.backend) ∷ rest else rest

unfoldable pub watch_all : Env → List (Bytes × Bytes) → Daemon → Daemon
watch_all env [] d = d
watch_all env ((id, backend) ∷ ids) d = watch_all env ids (watch_one env id backend d)

abbrev pub retain_live : Map Bytes WorkloadState → List Bytes → List Bytes
retain_live workloads [] = []
retain_live workloads (id ∷ ids) =
    let rest = retain_live workloads ids in if Map.has workloads id then id ∷ rest else rest

unfoldable pub prune_announced : Daemon → Daemon
prune_announced d = record d { announced = retain_live d.workloads d.announced }

unfoldable pub tick : Env → Daemon → Daemon
tick env d = prune_announced (watch_all env (snapshot d.workloads) d)
