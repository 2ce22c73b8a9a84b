-- ===== src/Runtime/Run/Staging.antt =====
-- runtime/pullrun-runtime/src/service.rs: the kernel, the secrets and the configs that `run_workload`
-- stages for a workload. A directory that is configured does not end in a slash; a file that cannot be
-- written leaves none behind.
use pullrun.Base.{ℕ, Bool, true, false, not, ◌&&◌, none, some, List, [], ◌∷◌, ◌++◌, if◌then◌else◌}
use pullrun.Base.Words.{Bytes}
use pullrun.Base.Map
use pullrun.Base.Map.{Map}
use pullrun.Store.Digest.{digest_eq}
use pullrun.Runtime.Names.{bind, ro, rbind}
use pullrun.Runtime.Exec.{Backend, Mount}
use pullrun.Runtime.Validate.{is_absolute}
use pullrun.Runtime.ExitCode.Decimal.{to_string}
use pullrun.Runtime.Events.{Event, image_pulled, new, with_metadata}
use pullrun.Runtime.State.{Daemon, StagedKernel, emit}
use pullrun.Runtime.Restart.{Answer, done, refused, is_nil, is_some}
use pullrun.Runtime.Run.Request.{RunRequest, FileRef}
use pullrun.Runtime.Run.Checks.{RunEnv, is_vm_backend}
use pullrun.Runtime.Run.Monad.{
  Action, pure, raise, gets, or_raise, raise_if, modify, ◌>>=◌, ◌>>◌, RunError, no_kernel,
  kernel_not_staged, no_stage_dir, no_secret, secret_not_staged, no_config, config_not_staged,
}

-- `dir.join(name)`
unfoldable pub join : Bytes → Bytes → Bytes
join dir name = if is_absolute name then name else dir ++ b'/' ∷ name

abbrev pub kind_key : Bytes
kind_key = b'k' ∷ b'i' ∷ b'n' ∷ b'd' ∷ []

abbrev pub kernel_kind : Bytes
kernel_kind = b'k' ∷ b'e' ∷ b'r' ∷ b'n' ∷ b'e' ∷ b'l' ∷ []

abbrev pub image_key : Bytes
image_key = b'i' ∷ b'm' ∷ b'a' ∷ b'g' ∷ b'e' ∷ []

abbrev pub vmlinux_key : Bytes
vmlinux_key =
    b'v' ∷ b'm' ∷ b'l' ∷ b'i' ∷ b'n' ∷ b'u' ∷ b'x' ∷ b'_' ∷ b'b' ∷ b'y' ∷ b't' ∷ b'e' ∷ b's' ∷ []

abbrev pub outcome_key : Bytes
outcome_key = b'o' ∷ b'u' ∷ b't' ∷ b'c' ∷ b'o' ∷ b'm' ∷ b'e' ∷ []

abbrev pub failed_text : Bytes
failed_text = b'f' ∷ b'a' ∷ b'i' ∷ b'l' ∷ b'e' ∷ b'd' ∷ []

abbrev pub error_key : Bytes
error_key = b'e' ∷ b'r' ∷ b'r' ∷ b'o' ∷ b'r' ∷ []

abbrev pub kernel_event : Bytes → Bytes → ℕ → Event
kernel_event id kernel_image now =
    with_metadata image_key kernel_image
      (with_metadata kind_key kernel_kind (new id image_pulled now))

unfoldable pub put_kernel : Bytes → StagedKernel → Daemon → Daemon
put_kernel image kernel d = record d { kernel_cache = Map.put d.kernel_cache image kernel }

abbrev pub staged_kernel : Bytes → Bytes → ℕ → Answer StagedKernel → Action (Unit {0})
staged_kernel id image now (done kernel) = modify λ d.
    put_kernel image kernel (
      emit (with_metadata vmlinux_key (to_string kernel.vmlinux_size) (kernel_event id image now))
        d)
staged_kernel id image now (refused error) = do
  modify (
      emit (
        with_metadata error_key error
          (with_metadata outcome_key failed_text (kernel_event id image now))))
  raise (kernel_not_staged image)

module _ {Key Score : Type 0} (env : RunEnv Key Score) where
  abbrev pub stage_missing : Bytes → Bytes → Bool → Action (Unit {0})
  stage_missing id image true = pure tt
  stage_missing id image false = staged_kernel id image env.base.now (env.stage_kernel image)

  abbrev pub stage_named : Bytes → Bytes → Action (Unit {0})
  stage_named id image = do
    already_staged ← gets (λ d. Map.has d.kernel_cache image)
    stage_missing id image already_staged

  abbrev pub stage_image : RunRequest → Action (Unit {0})
  stage_image req = if is_nil req.kernel_image then pure tt else stage_named req.id req.kernel_image

  abbrev pub prepare_vm : RunRequest → Action (Unit {0})
  prepare_vm req = do
    raise_if (is_nil req.kernel_image && not (is_some env.vm_root)) no_kernel
    stage_image req

  -- Only for machines; without a configured backend for them, the request has to name a kernel.
  unfoldable pub prepare_kernel : Backend → RunRequest → Action (Unit {0})
  prepare_kernel backend req = if is_vm_backend backend then prepare_vm req else pure tt

  abbrev pub stage_root : Bytes
  stage_root = join (join env.store_root (b'r' ∷ b'u' ∷ b'n' ∷ [])) (
      b's' ∷ b'e' ∷ b'c' ∷ b'r' ∷ b'e' ∷ b't' ∷ b's' ∷ b'-' ∷ b's' ∷ b't' ∷ b'a' ∷ b'g' ∷ b'e' ∷ [])

  abbrev pub files_of : Bytes → Map Bytes (Map Bytes Bytes) → Map Bytes Bytes
  files_of id staged = elim (Map.get staged id) [ none ↦ [] | some files ↦ files ]

  unfoldable pub make_stage_dir : Bytes → Daemon → Daemon
  make_stage_dir id d = record d { staged = Map.put d.staged id (files_of id d.staged) }

  unfoldable pub put_file : Bytes → Bytes → Bytes → Daemon → Daemon
  put_file id name content d = record d {
    staged = Map.put d.staged id (Map.put (files_of id d.staged) name content);
  }

  -- `create_new`: a file that is there already is not written over.
  unfoldable pub write_stage_file : Bytes → Bytes → Bytes → RunError → Action (Unit {0})
  write_stage_file id name content error = do
    there ← gets (λ d. Map.has (files_of id d.staged) name)
    raise_if there error
    raise_if (not (env.makes_file name)) error
    modify (put_file id name content)

  abbrev pub stage_mount : Bytes → Bytes → Bytes → Mount
  stage_mount id name target = record {
    type_ = bind;
    source = join (join stage_root id) name;
    destination = target;
    options = ro ∷ rbind ∷ [];
  }

  abbrev pub target_or : Bytes → FileRef → Bytes
  target_or dir file = if is_nil file.target_path then dir ++ file.name else file.target_path

  unfoldable pub stage_secrets : Bytes → List FileRef → Action (List Mount)
  stage_secrets id [] = pure []
  stage_secrets id (file ∷ files) = do
    content ← or_raise (env.read_secret file.name) (no_secret file.name)
    write_stage_file id file.name content (secret_not_staged file.name)
    mounts ← stage_secrets id files
    pure (
        stage_mount id file.name (
          target_or
            (b'/' ∷ b'r' ∷ b'u' ∷ b'n' ∷ b'/' ∷ b's' ∷ b'e' ∷ b'c' ∷ b'r' ∷ b'e' ∷ b't' ∷ b's'
              ∷ b'/' ∷ [])
            file)
        ∷ mounts)

  unfoldable pub stage_configs : Bytes → List FileRef → Action (List Mount)
  stage_configs id [] = pure []
  stage_configs id (file ∷ files) = do
    content ← or_raise (env.read_config file.name) (no_config file.name)
    write_stage_file id file.name content (config_not_staged file.name)
    mounts ← stage_configs id files
    pure (stage_mount id file.name (target_or (b'/' ∷ []) file) ∷ mounts)

  abbrev pub open_stage : Bytes → Bool → Action (Unit {0})
  open_stage id false = pure tt
  open_stage id true = do raise_if (not env.makes_dir) no_stage_dir; modify (make_stage_dir id)

  -- The mounts of the secrets, then those of the configs.
  unfoldable pub stage_files : RunRequest → Action (List Mount)
  stage_files req = do
    open_stage req.id (not (is_nil req.secrets && is_nil req.configs))
    secrets ← stage_secrets req.id req.secrets
    configs ← stage_configs req.id req.configs
    pure (secrets ++ configs)
