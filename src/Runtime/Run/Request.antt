-- ===== src/Runtime/Run/Request.antt =====
-- runtime/pullrun-runtime/src/service.rs: a run request, and what is read off it.
use pullrun.Base.{
  ℕ, ◌%◌, Bool, false, ◌||◌, ◌==◌, Option, none, some, List, [], ◌∷◌, ltb, if◌then◌else◌,
}
use pullrun.Base.Words.{Bytes, u16_mod}
use pullrun.Base.Text.{eq_bytes}
use pullrun.Base.Map.{Map}
use pullrun.Store.Digest.{strip_sha256}
use pullrun.Policy.Engine.{Policy}
use pullrun.Runtime.Names.{inbound, outbound, udp}
use pullrun.Runtime.Exec.{
  RestartPolicy, no, on_failure, always, unless_stopped, Mount, DnsConfig, HealthCheck, NetworkRule,
  inbound_dir, outbound_dir, tcp_proto, udp_proto,
}
use pullrun.Runtime.Restart.{is_nil}

pub record ProtoNetworkRule : Type 0 where
  pub direction : Bytes
  pub protocol : Bytes
  pub port : ℕ
  pub host_port : ℕ
  pub to_host : Bytes
  pub from_cidrs : List Bytes

-- A secret or a config.
pub record FileRef : Type 0 where
  pub name : Bytes
  pub target_path : Bytes

pub record RunRequest : Type 0 where
  pub id : Bytes
  pub root_digest : Bytes
  pub backend : Bytes
  pub command : List Bytes
  pub env : Map Bytes Bytes
  pub cpu_millicores : ℕ
  pub memory_bytes : ℕ
  pub network_mode : Bytes
  pub network_rules : List ProtoNetworkRule
  pub kernel_image : Bytes
  pub working_dir : Bytes
  pub bridge_name : Bytes
  pub mounts : List Mount
  pub health_check : Option HealthCheck
  pub restart_policy : ℕ
  pub secrets : List FileRef
  pub configs : List FileRef
  pub privileged : Bool
  pub readonly_rootfs : Bool
  pub no_new_privileges : Bool
  pub seccomp_profile : Bytes
  pub allowed_syscalls : List Bytes
  pub dns : Option DnsConfig

-- The numbers of the wire that are negative are unknown to it, as the large ones are.
unfoldable pub parse_restart_policy : ℕ → RestartPolicy
parse_restart_policy p =
    if p == 2 then on_failure else if p == 3 then always else if p == 4 then unless_stopped else no

unfoldable pub dns_from_req : Option DnsConfig → DnsConfig
dns_from_req none = record { nameservers = []; searches = []; options = [] }
dns_from_req (some dns) = dns

-- The flags in force: privileged, read-only, no new privileges, profile, allowed calls.
pub record SecurityFlags : Type 0 where
  pub privileged : Bool
  pub readonly_rootfs : Bool
  pub no_new_privileges : Bool
  pub seccomp_profile : Option Bytes
  pub allowed_syscalls : List Bytes

unfoldable pub effective_security_flags :
    {Score : Type 0} → Policy Score → RunRequest → SecurityFlags
effective_security_flags policy req = record {
  privileged = req.privileged;
  readonly_rootfs = if req.privileged then false else req.readonly_rootfs || policy.readonly_rootfs;
  no_new_privileges =
      if req.privileged then false else req.no_new_privileges || policy.no_new_privileges;
  seccomp_profile =
      if req.privileged
      then none
      else if is_nil req.seccomp_profile
      then policy.seccomp_profile
      else some req.seccomp_profile;
  allowed_syscalls =
      if req.privileged
      then []
      else if is_nil req.allowed_syscalls
      then policy.allowed_syscalls
      else req.allowed_syscalls;
}

unfoldable pub has_inbound_ports : List ProtoNetworkRule → Bool
has_inbound_ports [] = false
has_inbound_ports (r ∷ rules) = eq_bytes r.direction inbound || has_inbound_ports rules

abbrev pub non_empty {ℓ} : {A : Type ℓ} → List A → Option (List A)
non_empty [] = none
non_empty (x ∷ xs) = some (x ∷ xs)

-- `as u16` keeps the low bits.
unfoldable pub translate_rule : ProtoNetworkRule → NetworkRule
translate_rule r = record {
  direction = if eq_bytes r.direction outbound then outbound_dir else inbound_dir;
  protocol = if eq_bytes r.protocol udp then udp_proto else tcp_proto;
  port = r.port % u16_mod;
  host_port = r.host_port % u16_mod;
  to_host = non_empty r.to_host;
  from_cidrs = non_empty r.from_cidrs;
}

abbrev pub positive : ℕ → Option ℕ
positive n = if ltb 0 n then some n else none

unfoldable pub strip_digest : RunRequest → RunRequest
strip_digest req = record req { root_digest = strip_sha256 req.root_digest }
