-- ===== src/Runtime/Exec.antt =====
-- runtime/pullrun-exec/src/types.rs and runtime/pullrun-net/src/lib.rs: what the daemon hands to an
-- executor. `to_lowercase` is that of `str`.
use pullrun.Base.{ℕ, ◌≡◌, Bool, ◌||◌, Option, none, some, List, if◌then◌else◌}
use pullrun.Base.Words.{Bytes}
use pullrun.Base.Text.{eq_bytes}
use pullrun.Base.Map.{Map}
use pullrun.Store.Digest.{Digest}
use pullrun.Runtime.Names.{vm, firecracker, container, container_rootless, sandbox}

pub data RestartPolicy : Type 0 where
  no on_failure always unless_stopped : RestartPolicy

pub record Mount : Type 0 where
  pub type_ : Bytes
  pub source : Bytes
  pub destination : Bytes
  pub options : List Bytes

pub record DnsConfig : Type 0 where
  pub nameservers : List Bytes
  pub searches : List Bytes
  pub options : List Bytes

pub data NetworkMode : Type 0 where
  loopback_mode bridge_mode host_mode slirp_mode : NetworkMode
  container_mode : Bytes → NetworkMode

pub data Backend : Type 0 where
  on_container on_container_rootless on_vm on_sandbox : Backend

unfoldable pub as_str : Backend → Bytes
as_str on_container = container
as_str on_container_rootless = container_rootless
as_str on_vm = vm
as_str on_sandbox = sandbox

unfoldable pub from_str : (Bytes → Bytes) → Bytes → Option Backend
from_str to_lowercase s =
    if eq_bytes (to_lowercase s) container
    then some on_container
    else if eq_bytes (to_lowercase s) container_rootless
    then some on_container_rootless
    else if eq_bytes (to_lowercase s) vm || eq_bytes (to_lowercase s) firecracker
    then some on_vm
    else if eq_bytes (to_lowercase s) sandbox
    then some on_sandbox
    else none

pub data Direction : Type 0 where
  inbound_dir outbound_dir : Direction

pub data Protocol : Type 0 where
  tcp_proto udp_proto : Protocol

pub record NetworkRule : Type 0 where
  pub direction : Direction
  pub protocol : Protocol
  pub port : ℕ
  pub host_port : ℕ
  pub to_host : Option Bytes
  pub from_cidrs : Option (List Bytes)

pub record HealthCheck : Type 0 where
  pub test : List Bytes
  pub interval_seconds : ℕ
  pub timeout_seconds : ℕ
  pub retries : ℕ
  pub start_period_seconds : ℕ

pub record WorkloadSpec : Type 0 where
  pub id : Bytes
  pub image_root : Digest
  pub backend : Backend
  pub command : List Bytes
  pub env : Map Bytes Bytes
  pub cpu_millicores : Option ℕ
  pub memory_bytes : Option ℕ
  pub network_mode : NetworkMode
  pub network_rules : List NetworkRule
  pub kernel_path : Option Bytes
  pub bridge_name : Option Bytes
  pub mounts : List Mount
  pub health_check : Option HealthCheck
  pub restart_policy : RestartPolicy
  pub readonly_rootfs : Bool
  pub no_new_privileges : Bool
  pub seccomp_profile : Option Bytes
  pub allowed_syscalls : List Bytes
  pub privileged : Bool
  pub dns : DnsConfig

pub record ProcessHandle : Type 0 where
  pub id : Bytes
  pub pid : Option ℕ
  pub internal_ip : Option Bytes
  pub gateway : Option Bytes
  pub host_ports : List (ℕ × ℕ)
  pub backend : Bytes
  pub bridge_name : Option Bytes
  pub network_join : Option Bytes

-- Every backend is read back from its name, where `to_lowercase` keeps the four names.
pub from_str-as_str :
    (to_lowercase : Bytes → Bytes) (backend : Backend)
    → to_lowercase (as_str backend) ≡ as_str backend
    → from_str to_lowercase (as_str backend) ≡ some backend
unfolding from_str as_str eq_bytes
from_str-as_str to_lowercase on_container h = rw h
from_str-as_str to_lowercase on_container_rootless h = rw h
from_str-as_str to_lowercase on_vm h = rw h
from_str-as_str to_lowercase on_sandbox h = rw h
