-- ===== src/Runtime/RunTests.antt =====
-- runtime/pullrun-runtime/src/service.rs: a run of a workload that joins the namespace of another one.
use pullrun.Base.{◌≡◌, refl, true, false, none, some, List, [], ◌∷◌, replicate}
use pullrun.Base.Words.{Bytes}
use pullrun.Base.Text.{eq_bytes, starts_with, split_on}
use pullrun.Base.Map
use pullrun.Store.Digest.{digest_eq, from_hex, strip_sha256}
use pullrun.Policy.Signature.{Services, failed}
use pullrun.Policy.Engine.{evaluate_for_image, signature_stage, sbom_stage, seccomp_stage}
use pullrun.Runtime.Names.{running, container, bind, isolated, starting, slash}
use pullrun.Runtime.Exec.{from_str, ProcessHandle, on_failure}
use pullrun.Runtime.Network.{parse_network_mode, strip_prefix}
use pullrun.Runtime.Validate.{
  validate_workload_id, sanitize_mounts, check_source, check_bind, check_destination, path_eq,
  path_starts_with, is_absolute, components,
}
use pullrun.Runtime.State.{WorkloadState, Daemon, emit}
use pullrun.Runtime.Restart.{Env, Executor, done, refused}
use pullrun.Runtime.Run.Request.{RunRequest, has_inbound_ports, strip_digest}
use pullrun.Runtime.Run.Monad.{◌>>=◌, ok, err, create_failed, Kept}
use pullrun.Runtime.Run.Checks.{RunEnv, default_policy, check_join, evaluate_for_run, check_arch}
use pullrun.Runtime.Run.Staging.{
  prepare_kernel, stage_files, stage_secrets, stage_configs, write_stage_file, make_stage_dir,
  put_file, join,
}
use pullrun.Runtime.Run.Handler.{
  run_workload, start_request, check_request, stage_and_check, start_spec, launch, run_spec,
  RunResponse,
}
use pullrun.Runtime.Run.Rejected.{run_workload-Kept}
use pullrun.Runtime.Run.Accepted.{Passed}
use pullrun.Runtime.Run.Runs.{Recorded, run_workload-Runs}

abbrev pub other_state : WorkloadState
other_state = record {
  status = running;
  start_time = 3;
  exit_time = 0;
  exit_code = none;
  backend = container;
  internal_ip = none;
  pid = 7;
  image_root = b'0' ∷ b'0' ∷ [];
  command = [];
  network_rules = [];
  policy_decisions = [];
  kernel_image_ref = [];
  kernel_image_digest = [];
  working_dir = slash;
  rootfs_dir = none;
  health_check = none;
  health = starting;
  health_failures = 0;
  health_last_success = 0;
  restart_policy = on_failure;
  restart_count = 0;
  env = [];
  cpu_millicores = none;
  memory_bytes = none;
  bridge_name = none;
  network_mode = isolated;
  mounts = [];
  privileged = false;
  readonly_rootfs = false;
  no_new_privileges = false;
  seccomp_profile = none;
  allowed_syscalls = [];
  dns = record { nameservers = []; searches = []; options = [] };
  console_log_path = none;
}

abbrev pub daemon : Daemon
daemon = record {
  workloads = (b'b' ∷ [], other_state) ∷ [];
  image_tags = (b'0' ∷ b'0' ∷ [], b'i' ∷ b'm' ∷ b'g' ∷ []) ∷ [];
  checkpoints = (b'b' ∷ [], other_state) ∷ [];
  kernel_cache = [];
  rootfs_cache = [];
  staged = [];
  events = [];
  metrics = [];
  announced = [];
}

abbrev pub handle : ProcessHandle
handle = record {
  id = b'a' ∷ [];
  pid = some 9;
  internal_ip = none;
  gateway = none;
  host_ports = [];
  backend = container;
  bridge_name = none;
  network_join = some (b'b' ∷ []);
}

abbrev pub executor : Executor
executor = record {
  status =
      λ id. some (b'e' ∷ b'x' ∷ b'i' ∷ b't' ∷ b'_' ∷ b'c' ∷ b'o' ∷ b'd' ∷ b'e' ∷ b'=' ∷ b'1' ∷ []);
  create = λ spec. done handle;
  start = λ h. done h;
  stop = λ id. true;
  exec = λ id test timeout. some 0;
}

abbrev pub env : Env
env = record {
  executor = executor;
  hex_decode = λ s. some (replicate 32 0);
  to_lowercase = λ s. s;
  now = 20;
  writable = true;
}

abbrev services : Services (List Bytes) (List Bytes)
services = record {
  sha256 = λ b. b;
  verify = λ k m s. none;
  read_signature = λ b. none;
  read_sbom = λ b. none;
  get_blob = λ b. failed;
  gt = λ a b. false;
  ge = λ a b. false;
}

abbrev pub run_env : RunEnv (List Bytes) (List Bytes)
run_env = record {
  base = env;
  services = services;
  policy_engine = some (record { default_policy = default_policy; trusted_keys = [] });
  canonicalize = λ p. some p;
  store_root = b'/' ∷ b's' ∷ [];
  vm_root = none;
  stage_kernel = λ image. refused [];
  architecture = λ d. some (b'a' ∷ b'r' ∷ b'm' ∷ []);
  current_arch = b'a' ∷ b'r' ∷ b'm' ∷ [];
  ensure_binfmt = λ a. false;
  read_secret = λ name. some (b'k' ∷ b'e' ∷ b'y' ∷ []);
  read_config = λ name. none;
  makes_dir = true;
  makes_file = λ name. true;
}

abbrev pub request : RunRequest
request = record {
  id = b'a' ∷ [];
  root_digest = b's' ∷ b'h' ∷ b'a' ∷ b'2' ∷ b'5' ∷ b'6' ∷ b':' ∷ b'0' ∷ b'0' ∷ [];
  backend = container;
  command = [];
  env = [];
  cpu_millicores = 0;
  memory_bytes = 5;
  network_mode = b'c' ∷ b'o' ∷ b'n' ∷ b't' ∷ b'a' ∷ b'i' ∷ b'n' ∷ b'e' ∷ b'r' ∷ b':' ∷ b'b' ∷ [];
  network_rules = [];
  kernel_image = [];
  working_dir = [];
  bridge_name = [];
  mounts =
      record {
        type_ = bind;
        source = b'/' ∷ b'd' ∷ [];
        destination = b'/' ∷ b'm' ∷ [];
        options = [];
      }
      ∷ [];
  health_check = none;
  restart_policy = 3;
  secrets = record { name = b'k' ∷ []; target_path = [] } ∷ [];
  configs = [];
  privileged = false;
  readonly_rootfs = true;
  no_new_privileges = false;
  seccomp_profile = [];
  allowed_syscalls = [];
  dns = none;
}

abbrev expected : RunResponse
expected = record {
  id = b'a' ∷ [];
  pid = 9;
  backend_used = container;
  internal_ip = b'l' ∷ b'o' ∷ b'o' ∷ b'p' ∷ b'b' ∷ b'a' ∷ b'c' ∷ b'k' ∷ [];
}

runs : (run_workload run_env request daemon).0 ≡ ok expected
unfolding run_workload ◌>>=◌ start_request strip_digest strip_sha256 starts_with check_request
    validate_workload_id from_str eq_bytes check_join parse_network_mode strip_prefix
    has_inbound_ports Map.get stage_and_check prepare_kernel evaluate_for_run evaluate_for_image
    default_policy check_arch from_hex stage_files stage_secrets stage_configs write_stage_file
    make_stage_dir put_file Map.has Map.put sanitize_mounts check_source check_bind
    check_destination path_eq path_starts_with is_absolute components split_on join start_spec
    launch run_spec emit signature_stage sbom_stage seccomp_stage
runs = refl

run_workload-Runs_example :
    Passed run_env (strip_digest request) daemon
    × Recorded run_env request.id (run_workload run_env request daemon).1
run_workload-Runs_example = run_workload-Runs run_env request expected daemon runs

abbrev failing : RunEnv (List Bytes) (List Bytes)
failing = record run_env {
  base = record env {
    executor = record executor { create = λ spec. refused (b'f' ∷ b'u' ∷ b'l' ∷ b'l' ∷ []) };
  };
}

fails :
    (run_workload failing request daemon).0 ≡ err (create_failed (b'f' ∷ b'u' ∷ b'l' ∷ b'l' ∷ []))
unfolding run_workload ◌>>=◌ start_request strip_digest strip_sha256 starts_with check_request
    validate_workload_id from_str eq_bytes check_join parse_network_mode strip_prefix
    has_inbound_ports Map.get stage_and_check prepare_kernel evaluate_for_run evaluate_for_image
    default_policy check_arch from_hex stage_files stage_secrets stage_configs write_stage_file
    make_stage_dir put_file Map.has Map.put sanitize_mounts check_source check_bind
    check_destination path_eq path_starts_with is_absolute components split_on join start_spec
    launch run_spec emit signature_stage sbom_stage seccomp_stage
fails = refl

run_workload-Kept_example : Kept daemon (run_workload failing request daemon).1
run_workload-Kept_example =
    run_workload-Kept failing request (create_failed (b'f' ∷ b'u' ∷ b'l' ∷ b'l' ∷ [])) daemon fails
