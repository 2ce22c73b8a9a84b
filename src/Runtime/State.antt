-- ===== src/Runtime/State.antt =====
-- runtime/pullrun-runtime/src/service.rs: `WorkloadState`, and what the handlers and the watchers
-- share. A checkpoint is the state that its file holds; `serde_json` reads back what it wrote.
use pullrun.Base.{ℕ, Bool, Option, none, some, List, [], ◌∷◌, ◌++◌, if◌then◌else◌}
use pullrun.Base.Words.{Bytes}
use pullrun.Base.Map
use pullrun.Base.Map.{Map}
use pullrun.Store.Digest.{digest_eq}
use pullrun.Runtime.Exec.{RestartPolicy, Mount, DnsConfig, NetworkRule, HealthCheck}
use pullrun.Runtime.Events.{Event}

pub record WorkloadState : Type 0 where
  pub status : Bytes
  pub start_time : ℕ
  pub exit_time : ℕ
  pub exit_code : Option ℕ
  pub backend : Bytes
  pub internal_ip : Option Bytes
  pub pid : ℕ
  pub image_root : Bytes
  pub command : List Bytes
  pub network_rules : List NetworkRule
  pub policy_decisions : Map Bytes Bytes
  pub kernel_image_ref : Bytes
  pub kernel_image_digest : Bytes
  pub working_dir : Bytes
  pub rootfs_dir : Option Bytes
  pub health_check : Option HealthCheck
  pub health : Bytes
  pub health_failures : ℕ
  pub health_last_success : ℕ
  pub restart_policy : RestartPolicy
  pub restart_count : ℕ
  pub env : Map Bytes Bytes
  pub cpu_millicores : Option ℕ
  pub memory_bytes : Option ℕ
  pub bridge_name : Option Bytes
  pub network_mode : Bytes
  pub mounts : List Mount
  pub privileged : Bool
  pub readonly_rootfs : Bool
  pub no_new_privileges : Bool
  pub seccomp_profile : Option Bytes
  pub allowed_syscalls : List Bytes
  pub dns : DnsConfig
  pub console_log_path : Option Bytes

pub data Metric : Type 0 where
  started : Bytes → Metric
  left : Bytes → Option ℕ → Metric

pub record StagedKernel : Type 0 where
  pub vmlinux_path : Bytes
  pub vmlinux_size : ℕ
  pub root_digest : Option Bytes

-- The directory of staged secrets has one directory for each workload.
pub record Daemon : Type 0 where
  pub workloads : Map Bytes WorkloadState
  pub image_tags : Map Bytes Bytes
  pub checkpoints : Map Bytes WorkloadState
  pub kernel_cache : Map Bytes StagedKernel
  pub rootfs_cache : Map Bytes Bytes
  pub staged : Map Bytes (Map Bytes Bytes)
  pub events : List Event
  pub metrics : List Metric
  pub announced : List Bytes

unfoldable pub emit : Event → Daemon → Daemon
emit event d = record d { events = d.events ++ event ∷ [] }

unfoldable pub record_metric : Metric → Daemon → Daemon
record_metric m d = record d { metrics = d.metrics ++ m ∷ [] }

unfoldable pub set_workload : Bytes → WorkloadState → Daemon → Daemon
set_workload id state d = record d { workloads = Map.put d.workloads id state }

-- A file that cannot be written is left as it was, with a warning.
unfoldable pub write_workload_checkpoint : Bool → Bytes → WorkloadState → Daemon → Daemon
write_workload_checkpoint writable id state d =
    if writable then record d { checkpoints = Map.put d.checkpoints id state } else d

-- The files of the directory: a name, and what `from_str` reads of the content where it is readable.
pub record Entry : Type 0 where
  pub stem : Bytes
  pub is_json : Bool
  pub content : Option (Option WorkloadState)

abbrev pub recovered :
    Bytes → Option (Option WorkloadState) → Map Bytes WorkloadState → Map Bytes WorkloadState
recovered id none workloads = workloads
recovered id (some none) workloads = workloads
recovered id (some (some state)) workloads = Map.put workloads id state

unfoldable pub load_entries : List Entry → Map Bytes WorkloadState → Map Bytes WorkloadState
load_entries [] workloads = workloads
load_entries (e ∷ entries) workloads =
    load_entries entries (if e.is_json then recovered e.stem e.content workloads else workloads)

-- `none` is a directory that is missing or cannot be read.
unfoldable pub load_workload_checkpoints : Option (List Entry) → Map Bytes WorkloadState
load_workload_checkpoints none = []
load_workload_checkpoints (some entries) = load_entries entries []
