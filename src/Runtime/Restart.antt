-- ===== src/Runtime/Restart.antt =====
-- runtime/pullrun-runtime/src/service.rs: `attempt_restart`, cut where the lock of the map is given up:
-- what it reads and asks of the executor, and what it writes in the end. An executor's answers are an
-- argument, and so is the clock. `Executor::start` returns the handle as it leaves it.
pub mod Mode
use pullrun.Base.{
  ℕ, ◌+◌, ◌*◌, ◌%◌, ◌^◌, min, Bool, true, false, not, Option, none, some, List, [], ◌∷◌,
  if◌then◌else◌,
}
use pullrun.Base.Words.{Bytes, u32_mod}
use pullrun.Base.Text.{eq_bytes}
use pullrun.Base.Map
use pullrun.Store.Digest.{Digest, digest_eq, from_hex}
use pullrun.Runtime.Names.{running, exited, bridge, isolated}
use pullrun.Runtime.Exec.{
  Backend, from_str, NetworkMode, NetworkRule, WorkloadSpec, ProcessHandle, always,
}
use pullrun.Runtime.Network.{parse_network_mode}
use pullrun.Runtime.ExitCode.Decimal.{to_string}
use pullrun.Runtime.Events.{Event, workload_started, new, with_metadata}
use pullrun.Runtime.State.{WorkloadState, Daemon, emit, set_workload, write_workload_checkpoint}

-- What a call returns: a value, or the text of its error.
pub data Answer (A : Type 0) : Type 0 where
  done : A → Answer A
  refused : Bytes → Answer A

pub record Executor : Type 0 where
  pub status : Bytes → Option Bytes
  pub create : WorkloadSpec → Answer ProcessHandle
  pub start : ProcessHandle → Answer ProcessHandle
  pub stop : Bytes → Bool
  pub exec : Bytes → List Bytes → ℕ → Option ℕ

-- `hex::decode`, `str::to_lowercase`, the clock, and whether the checkpoint can be written.
pub record Env : Type 0 where
  pub executor : Executor
  pub hex_decode : Bytes → Option Bytes
  pub to_lowercase : Bytes → Bytes
  pub now : ℕ
  pub writable : Bool

abbrev pub is_nil {ℓ} : {A : Type ℓ} → List A → Bool
is_nil [] = true
is_nil (x ∷ xs) = false

abbrev pub is_some {ℓ} : {A : Type ℓ} → Option A → Bool
is_some none = false
is_some (some x) = true

unfoldable pub stored_mode : WorkloadState → Bytes
stored_mode s =
    if not (is_nil s.network_mode)
    then s.network_mode
    else if is_some s.internal_ip
    then bridge
    else isolated

unfoldable pub restart_mode : WorkloadState → NetworkMode
restart_mode s = parse_network_mode (stored_mode s) (not (is_nil s.network_rules))

-- The seconds to wait: `min(1u64 << restart_count.min(63), 30)`.
unfoldable pub backoff_secs : ℕ → ℕ
backoff_secs restart_count = min (2 ^ min restart_count 63) 30

unfoldable pub restart_spec : Bytes → WorkloadState → Backend → Digest → WorkloadSpec
restart_spec id s backend image_root = record {
  id = id;
  image_root = image_root;
  backend = backend;
  command = s.command;
  env = s.env;
  cpu_millicores = s.cpu_millicores;
  memory_bytes = s.memory_bytes;
  network_mode = restart_mode s;
  network_rules = s.network_rules;
  kernel_path = none;
  bridge_name = s.bridge_name;
  mounts = s.mounts;
  health_check = s.health_check;
  restart_policy = always;
  readonly_rootfs = s.readonly_rootfs;
  no_new_privileges = s.no_new_privileges;
  seccomp_profile = s.seccomp_profile;
  allowed_syscalls = s.allowed_syscalls;
  privileged = s.privileged;
  dns = s.dns;
}

abbrev pub pid_of : ProcessHandle → ℕ
pid_of handle = elim handle.pid [ none ↦ 0 | some pid ↦ pid ]

unfoldable pub restarted : ℕ → ProcessHandle → WorkloadState → WorkloadState
restarted now handle s = record s {
  status = running;
  start_time = now;
  exit_time = 0;
  exit_code = none;
  pid = pid_of handle;
  internal_ip = handle.internal_ip;
  restart_count = (s.restart_count + 1) % u32_mod;
}

abbrev pub backend_key : Bytes
backend_key = b'b' ∷ b'a' ∷ b'c' ∷ b'k' ∷ b'e' ∷ b'n' ∷ b'd' ∷ []

abbrev pub source_key : Bytes
source_key = b's' ∷ b'o' ∷ b'u' ∷ b'r' ∷ b'c' ∷ b'e' ∷ []

abbrev pub restart_count_key : Bytes
restart_count_key =
    b'r' ∷ b'e' ∷ b's' ∷ b't' ∷ b'a' ∷ b'r' ∷ b't' ∷ b'_' ∷ b'c' ∷ b'o' ∷ b'u' ∷ b'n' ∷ b't' ∷ []

abbrev pub restart_watcher : Bytes
restart_watcher =
    b'r' ∷ b'e' ∷ b's' ∷ b't' ∷ b'a' ∷ b'r' ∷ b't' ∷ b'_' ∷ b'w' ∷ b'a' ∷ b't' ∷ b'c' ∷ b'h' ∷ b'e'
    ∷ b'r' ∷ []

abbrev pub restart_event : Bytes → ℕ → ProcessHandle → ℕ → Event
restart_event id now handle restart_count =
    with_metadata restart_count_key (to_string restart_count) (
      with_metadata source_key restart_watcher
        (with_metadata backend_key handle.backend (new id workload_started now)))

abbrev pub set_restarted : Env → Bytes → ProcessHandle → Option WorkloadState → Daemon → Daemon
set_restarted env id handle none d = d
set_restarted env id handle (some s) d =
    let s' : WorkloadState = restarted env.now handle s in
    emit (restart_event id env.now handle s'.restart_count)
      (write_workload_checkpoint env.writable id s' (set_workload id s' d))

-- Under the lock again, once the workload runs.
unfoldable pub finish_restart : Env → Bytes → ProcessHandle → Daemon → Daemon
finish_restart env id handle d = set_restarted env id handle (Map.get d.workloads id) d

abbrev pub handle_of : Answer ProcessHandle → Option ProcessHandle
handle_of (refused e) = none
handle_of (done handle) = some handle

abbrev pub launch : Executor → WorkloadSpec → Option ProcessHandle
launch executor spec = elim (executor.create spec) [
  | refused e ↦ none
  | done handle ↦ handle_of (executor.start handle)
]

abbrev pub launch_parsed :
    Env → Bytes → WorkloadState → Option Backend → Option Digest → Option ProcessHandle
launch_parsed env id s none image_root = none
launch_parsed env id s (some backend) none = none
launch_parsed env id s (some backend) (some image_root) =
    launch env.executor (restart_spec id s backend image_root)

abbrev pub launch_exited : Env → Bytes → Bytes → Option WorkloadState → Option ProcessHandle
launch_exited env id backend none = none
launch_exited env id backend (some s) =
    if eq_bytes s.status exited
    then launch_parsed env id s (from_str env.to_lowercase backend)
        (from_hex env.hex_decode s.image_root)
    else none

-- The first part: the state is read, and the workload is created and started anew.
unfoldable pub begin_restart : Env → Bytes → Bytes → Daemon → Option ProcessHandle
begin_restart env id backend d = launch_exited env id backend (Map.get d.workloads id)

abbrev pub finish_launched : Env → Bytes → Option ProcessHandle → Daemon → Daemon
finish_launched env id none d = d
finish_launched env id (some handle) d = finish_restart env id handle d

unfoldable pub attempt_restart : Env → Bytes → Bytes → Daemon → Daemon
attempt_restart env id backend d = finish_launched env id (begin_restart env id backend d) d
