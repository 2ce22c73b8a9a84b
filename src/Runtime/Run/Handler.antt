-- ===== src/Runtime/Run/Handler.antt =====
-- runtime/pullrun-runtime/src/service.rs: `run_workload`, from the request to the state that it records.
use pullrun.Base.{ℕ, Bool, Option, none, some, List, [], ◌∷◌, ◌++◌, map, if◌then◌else◌}
use pullrun.Base.Words.{Bytes}
use pullrun.Base.Text.{eq_bytes}
use pullrun.Base.Map
use pullrun.Base.Map.{Map}
use pullrun.Store.Digest.{Digest, digest_eq, from_hex}
use pullrun.Policy.Engine.{PolicyEngine}
use pullrun.Runtime.Names.{running, vm, slash, starting, loopback}
use pullrun.Runtime.Exec.{
  Backend, as_str, from_str, NetworkMode, WorkloadSpec, ProcessHandle, Mount,
}
use pullrun.Runtime.Network.{parse_network_mode, network_mode_str}
use pullrun.Runtime.Validate.{validate_workload_id, sanitize_mounts}
use pullrun.Runtime.ExitCode.Decimal.{to_string}
use pullrun.Runtime.Events.{Event, backend_selected, workload_started, new, with_metadata}
use pullrun.Runtime.State.{
  WorkloadState, Daemon, StagedKernel, started, emit, record_metric, set_workload,
  write_workload_checkpoint,
}
use pullrun.Runtime.Restart.{Answer, done, refused, Env, is_nil, pid_of, backend_key}
use pullrun.Runtime.Run.Request.{
  RunRequest, SecurityFlags, effective_security_flags, has_inbound_ports, non_empty, translate_rule,
  positive, strip_digest, parse_restart_policy, dns_from_req,
}
use pullrun.Runtime.Run.Checks.{
  RunEnv, policy_of, checked, check_join, evaluate_for_run, check_arch,
}
use pullrun.Runtime.Run.Staging.{join, prepare_kernel, stage_files, outcome_key, error_key}
use pullrun.Runtime.Run.Monad.{
  Action, pure, raise, gets, or_raise, modify, ◌>>=◌, ◌>>◌, unknown_backend, invalid_digest,
  create_failed, start_failed,
}

pub record RunResponse : Type 0 where
  pub id : Bytes
  pub pid : ℕ
  pub backend_used : Bytes
  pub internal_ip : Bytes

-- A workload that the executor has started, and what it was started from.
pub record Launched : Type 0 where
  pub req : RunRequest
  pub backend : Backend
  pub spec : WorkloadSpec
  pub handle : ProcessHandle

abbrev pub requested_key : Bytes
requested_key =
    b'r' ∷ b'e' ∷ b'q' ∷ b'u' ∷ b'e' ∷ b's' ∷ b't' ∷ b'e' ∷ b'd' ∷ b'_' ∷ b'b' ∷ b'a' ∷ b'c' ∷ b'k'
    ∷ b'e' ∷ b'n' ∷ b'd' ∷ []

abbrev pub selected_key : Bytes
selected_key =
    b's' ∷ b'e' ∷ b'l' ∷ b'e' ∷ b'c' ∷ b't' ∷ b'e' ∷ b'd' ∷ b'_' ∷ b'b' ∷ b'a' ∷ b'c' ∷ b'k' ∷ b'e'
    ∷ b'n' ∷ b'd' ∷ []

abbrev pub image_root_key : Bytes
image_root_key = b'i' ∷ b'm' ∷ b'a' ∷ b'g' ∷ b'e' ∷ b'_' ∷ b'r' ∷ b'o' ∷ b'o' ∷ b't' ∷ []

abbrev pub internal_ip_key : Bytes
internal_ip_key = b'i' ∷ b'n' ∷ b't' ∷ b'e' ∷ b'r' ∷ b'n' ∷ b'a' ∷ b'l' ∷ b'_' ∷ b'i' ∷ b'p' ∷ []

abbrev pub pid_key : Bytes
pid_key = b'p' ∷ b'i' ∷ b'd' ∷ []

abbrev pub create_failed_text : Bytes
create_failed_text =
    b'c' ∷ b'r' ∷ b'e' ∷ b'a' ∷ b't' ∷ b'e' ∷ b'_' ∷ b'f' ∷ b'a' ∷ b'i' ∷ b'l' ∷ b'e' ∷ b'd' ∷ []

abbrev pub start_failed_text : Bytes
start_failed_text =
    b's' ∷ b't' ∷ b'a' ∷ b'r' ∷ b't' ∷ b'_' ∷ b'f' ∷ b'a' ∷ b'i' ∷ b'l' ∷ b'e' ∷ b'd' ∷ []

abbrev pub default_name : Bytes
default_name = b'd' ∷ b'e' ∷ b'f' ∷ b'a' ∷ b'u' ∷ b'l' ∷ b't' ∷ []

abbrev pub allow_text : Bytes
allow_text = b'a' ∷ b'l' ∷ b'l' ∷ b'o' ∷ b'w' ∷ []

abbrev pub console_log : Bytes
console_log = b'c' ∷ b'o' ∷ b'n' ∷ b's' ∷ b'o' ∷ b'l' ∷ b'e' ∷ b'.' ∷ b'l' ∷ b'o' ∷ b'g' ∷ []

abbrev pub ext4_suffix : Bytes
ext4_suffix = b'.' ∷ b'e' ∷ b'x' ∷ b't' ∷ b'4' ∷ []

abbrev pub selected_event : Bytes → ℕ → Bytes → Bytes → Event
selected_event id now backend image_root = with_metadata image_root_key image_root (
    with_metadata selected_key backend
      (with_metadata requested_key backend (new id backend_selected now)))

abbrev pub outcome_event : Bytes → ℕ → Bytes → Bytes → Bytes → Event
outcome_event id now backend outcome error = with_metadata error_key error (
    with_metadata outcome_key outcome
      (with_metadata backend_key backend (new id workload_started now)))

abbrev pub ip_or_loopback : Option Bytes → Bytes
ip_or_loopback none = loopback
ip_or_loopback (some ip) = ip

abbrev pub digest_or_empty : Option StagedKernel → Bytes
digest_or_empty none = []
digest_or_empty (some kernel) = elim kernel.root_digest [ none ↦ [] | some d ↦ d ]

abbrev pub path_of : Option StagedKernel → Option Bytes
path_of none = none
path_of (some kernel) = some kernel.vmlinux_path

-- The kernel that the request names, where it is staged.
abbrev pub named_kernel : RunRequest → Daemon → Option StagedKernel
named_kernel req d =
    if is_nil req.kernel_image then none else Map.get d.kernel_cache req.kernel_image

unfoldable pub run_spec :
    RunRequest
    → Digest
    → Backend
    → NetworkMode
    → SecurityFlags
    → Option Bytes
    → List Mount
    → WorkloadSpec
run_spec req image_root backend mode flags kernel_path mounts = record {
  id = req.id;
  image_root = image_root;
  backend = backend;
  command = req.command;
  env = req.env;
  cpu_millicores = positive req.cpu_millicores;
  memory_bytes = positive req.memory_bytes;
  network_mode = mode;
  network_rules = map translate_rule req.network_rules;
  kernel_path = kernel_path;
  bridge_name = non_empty req.bridge_name;
  mounts = mounts;
  health_check = req.health_check;
  restart_policy = parse_restart_policy req.restart_policy;
  readonly_rootfs = flags.readonly_rootfs;
  no_new_privileges = flags.no_new_privileges;
  seccomp_profile = flags.seccomp_profile;
  allowed_syscalls = flags.allowed_syscalls;
  privileged = flags.privileged;
  dns = dns_from_req req.dns;
}

abbrev pub started_handle : Env → RunRequest → Bytes → Answer ProcessHandle → Action ProcessHandle
started_handle env req backend (done handle) = pure handle
started_handle env req backend (refused error) = do
  modify (emit (outcome_event req.id env.now backend start_failed_text error))
  raise (start_failed error)

abbrev pub created_handle : Env → RunRequest → Bytes → Answer ProcessHandle → Action ProcessHandle
created_handle env req backend (done handle) =
    started_handle env req handle.backend (env.executor.start handle)
created_handle env req backend (refused error) = do
  modify (emit (outcome_event req.id env.now backend create_failed_text error))
  raise (create_failed error)

unfoldable pub launch : Env → RunRequest → Backend → WorkloadSpec → Action ProcessHandle
launch env req backend spec = do
  modify (emit (selected_event req.id env.now (as_str backend) req.root_digest))
  created_handle env req (as_str backend) (env.executor.create spec)

module _ {Key Score : Type 0} (env : RunEnv Key Score) where
  abbrev pub mode_of : RunRequest → NetworkMode
  mode_of req = parse_network_mode req.network_mode (has_inbound_ports req.network_rules)

  -- The checks that come before the staging; the request comes back with a bare digest.
  unfoldable pub check_request : RunRequest → Action Backend
  check_request req = do
    checked (validate_workload_id req.id)
    backend ← or_raise (from_str env.base.to_lowercase req.backend) unknown_backend
    check_join req.id backend (mode_of req)
    pure backend

  unfoldable pub stage_and_check : RunRequest → Backend → Action (List Mount)
  stage_and_check req backend = do
    prepare_kernel env backend req
    evaluate_for_run env req.root_digest
    check_arch env backend req.root_digest
    extra_mounts ← stage_files env req
    checked (sanitize_mounts env.canonicalize env.store_root req.mounts)
    pure (req.mounts ++ extra_mounts)

  unfoldable pub start_spec : RunRequest → Backend → List Mount → Action Launched
  start_spec req backend mounts = do
    kernel ← gets (named_kernel req)
    image_root ← or_raise (from_hex env.base.hex_decode req.root_digest) invalid_digest
    let spec =
        run_spec req image_root backend (mode_of req)
          (effective_security_flags (policy_of env.policy_engine) req) (path_of kernel) mounts
    handle ← launch env.base req backend spec
    pure (record { req = req; backend = backend; spec = spec; handle = handle })

  unfoldable pub start_request : RunRequest → Action Launched
  start_request req = do
    backend ← check_request req
    mounts ← stage_and_check req backend
    start_spec req backend mounts

  abbrev pub decisions : Option (PolicyEngine Key Score) → Map Bytes Bytes
  decisions none = []
  decisions (some engine) = (default_name, allow_text) ∷ []

  abbrev pub is_vm : Launched → Bool
  is_vm l = eq_bytes l.handle.backend vm

  abbrev pub rootfs_or : Bytes → Option Bytes → Option Bytes
  rootfs_or id (some path) = some path
  rootfs_or id none = elim env.vm_root [
    | none ↦ none
    | some root ↦ some (join root (id ++ ext4_suffix))
  ]

  abbrev pub console_of : Bytes → Option Bytes → Option Bytes
  console_of id none = none
  console_of id (some root) = some (join (join root id) console_log)

  unfoldable pub run_state : Launched → Daemon → WorkloadState
  run_state l d = record {
    status = running;
    start_time = env.base.now;
    exit_time = 0;
    exit_code = none;
    backend = l.handle.backend;
    internal_ip = l.handle.internal_ip;
    pid = pid_of l.handle;
    image_root = l.req.root_digest;
    command = l.req.command;
    network_rules = l.spec.network_rules;
    policy_decisions = decisions env.policy_engine;
    kernel_image_ref = l.req.kernel_image;
    kernel_image_digest = digest_or_empty (named_kernel l.req d);
    working_dir = if is_nil l.req.working_dir then slash else l.req.working_dir;
    rootfs_dir = if is_vm l then rootfs_or l.req.id (Map.get d.rootfs_cache l.req.id) else none;
    health_check = l.spec.health_check;
    health = starting;
    health_failures = 0;
    health_last_success = 0;
    restart_policy = l.spec.restart_policy;
    restart_count = 0;
    env = l.spec.env;
    cpu_millicores = l.spec.cpu_millicores;
    memory_bytes = l.spec.memory_bytes;
    bridge_name = l.spec.bridge_name;
    network_mode = network_mode_str l.spec.network_mode;
    mounts = l.spec.mounts;
    privileged = l.spec.privileged;
    readonly_rootfs = l.spec.readonly_rootfs;
    no_new_privileges = l.spec.no_new_privileges;
    seccomp_profile = l.spec.seccomp_profile;
    allowed_syscalls = l.spec.allowed_syscalls;
    dns = l.spec.dns;
    console_log_path = if is_vm l then console_of l.req.id env.vm_root else none;
  }

  abbrev pub run_event : Launched → Event
  run_event l = with_metadata pid_key (to_string (pid_of l.handle)) (
      with_metadata internal_ip_key (ip_or_loopback l.handle.internal_ip) (
        with_metadata image_root_key l.req.root_digest (
          with_metadata backend_key l.handle.backend (new l.req.id workload_started env.base.now))))

  -- The metric, the state with its checkpoint, and the event.
  unfoldable pub record_running : Launched → Daemon → Daemon
  record_running l d =
      let s : WorkloadState = run_state l d in
      emit (run_event l) (
        write_workload_checkpoint env.base.writable l.req.id s
          (set_workload l.req.id s (record_metric (started (as_str l.backend)) d)))

  abbrev pub response : Launched → RunResponse
  response l = record {
    id = l.req.id;
    pid = pid_of l.handle;
    backend_used = l.handle.backend;
    internal_ip = ip_or_loopback l.handle.internal_ip;
  }

  unfoldable pub run_workload : RunRequest → Action RunResponse
  run_workload req = do
    launched ← start_request (strip_digest req)
    modify (record_running launched)
    pure (response launched)
