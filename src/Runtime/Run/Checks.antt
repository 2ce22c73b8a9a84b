-- ===== src/Runtime/Run/Checks.antt =====
-- runtime/pullrun-runtime/src/service.rs: what `run_workload` asks of the daemon and of the policy
-- before it stages anything. `RunEnv` is the configuration and the code outside of the file.
use pullrun.Base.{Bool, true, false, not, ◌&&◌, Option, none, some, [], if◌then◌else◌}
use pullrun.Base.Words.{Bytes}
use pullrun.Base.Text.{eq_bytes, starts_with}
use pullrun.Base.Map
use pullrun.Base.Map.{Map}
use pullrun.Store.Digest.{Digest, digest_eq, from_hex}
use pullrun.Policy.Signature.{Services}
use pullrun.Policy.Signature
use pullrun.Policy.Engine.{Policy, PolicyEngine, allow, deny, Stage, evaluate_for_image}
use pullrun.Runtime.Names.{container}
use pullrun.Runtime.Exec.{Backend, on_vm, NetworkMode, container_mode}
use pullrun.Runtime.Validate.{Checked, passed, failed}
use pullrun.Runtime.State.{WorkloadState, StagedKernel}
use pullrun.Runtime.Restart.{Answer, Env}
use pullrun.Runtime.Run.Monad.{
  Action, pure, raise, gets, or_raise, raise_if, ◌>>=◌, ◌>>◌, invalid_request, joins_itself,
  join_needs_container, target_not_container, target_not_found, denied, policy_failed,
  invalid_digest, no_manifest, no_binfmt,
}

pub record RunEnv (Key Score : Type 0) : Type 0 where
  pub base : Env
  pub services : Services Key Score
  pub policy_engine : Option (PolicyEngine Key Score)
  pub canonicalize : Bytes → Option Bytes
  pub store_root : Bytes
  -- The directory of machines, where a backend for them is configured.
  pub vm_root : Option Bytes
  pub stage_kernel : Bytes → Answer StagedKernel
  -- The architecture that the manifest of an image names.
  pub architecture : Digest → Option Bytes
  pub current_arch : Bytes
  pub ensure_binfmt : Bytes → Bool
  pub read_secret : Bytes → Option Bytes
  pub read_config : Bytes → Option Bytes
  -- Whether the directory of a workload's files, and a new file in it, can be created.
  pub makes_dir : Bool
  pub makes_file : Bytes → Bool

-- `Policy::default()`
unfoldable pub default_policy : {Score : Type 0} → Policy Score
default_policy = record {
  required_signature = false;
  readonly_rootfs = false;
  no_new_privileges = false;
  seccomp_profile = none;
  allowed_syscalls = [];
  labels = [];
  max_cvss_score = none;
  trusted_signers = [];
  deny_licenses = [];
  require_sbom = false;
}

abbrev pub checked : Checked → Action (Unit {0})
checked passed = pure tt
checked (failed e) = raise (invalid_request e)

abbrev pub check_target : Bytes → Option WorkloadState → Action (Unit {0})
check_target target none = raise (target_not_found target)
check_target target (some s) =
    if starts_with container s.backend then pure tt else raise (target_not_container target)

abbrev pub is_vm_backend : Backend → Bool
is_vm_backend on_vm = true
is_vm_backend _ = false

abbrev pub target_of : NetworkMode → Option Bytes
target_of (container_mode target) = some target
target_of _ = none

abbrev pub check_join_to : Bytes → Backend → Option Bytes → Action (Unit {0})
check_join_to id backend none = pure tt
check_join_to id backend (some target) = do
  raise_if (eq_bytes target id) joins_itself
  raise_if (is_vm_backend backend) join_needs_container
  state ← gets (λ d. Map.get d.workloads target)
  check_target target state

-- The namespace of another workload is joined only where both are containers.
unfoldable pub check_join : Bytes → Backend → NetworkMode → Action (Unit {0})
check_join id backend mode = check_join_to id backend (target_of mode)

abbrev pub ref_or : Bytes → Option Bytes → Bytes
ref_or root_digest none = root_digest
ref_or root_digest (some image_ref) = image_ref

module _ {Key Score : Type 0} where
  abbrev pub policy_of : Option (PolicyEngine Key Score) → Policy Score
  policy_of none = default_policy
  policy_of (some engine) = engine.default_policy

  abbrev pub decided : (services : Services Key Score) → Stage services → Action (Unit {0})
  decided services (Signature.ok allow) = pure tt
  decided services (Signature.ok (deny reason)) = raise denied
  decided services (Signature.err e) = raise policy_failed

  abbrev pub evaluate_with :
      Services Key Score → Option (PolicyEngine Key Score) → Bytes → Action (Unit {0})
  evaluate_with services none root_digest = pure tt
  evaluate_with services (some engine) root_digest = do
    image_ref ← gets (λ d. ref_or root_digest (Map.get d.image_tags root_digest))
    decided services
        (evaluate_for_image services engine engine.default_policy image_ref root_digest)

  unfoldable pub evaluate_for_run : RunEnv Key Score → Bytes → Action (Unit {0})
  evaluate_for_run env root_digest = evaluate_with env.services env.policy_engine root_digest

  abbrev pub check_architecture : RunEnv Key Score → Bytes → Action (Unit {0})
  check_architecture env architecture =
      raise_if
        (not (eq_bytes architecture env.current_arch) && not (env.ensure_binfmt architecture))
        no_binfmt

  abbrev pub check_manifest : RunEnv Key Score → Bytes → Action (Unit {0})
  check_manifest env root_digest = do
    root ← or_raise (from_hex env.base.hex_decode root_digest) invalid_digest
    architecture ← or_raise (env.architecture root) no_manifest
    check_architecture env architecture

  unfoldable pub check_arch : RunEnv Key Score → Backend → Bytes → Action (Unit {0})
  check_arch env backend root_digest =
      if is_vm_backend backend then pure tt else check_manifest env root_digest
