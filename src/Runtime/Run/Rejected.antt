-- ===== src/Runtime/Run/Rejected.antt =====
-- runtime/pullrun-runtime/src/service.rs: `run_workload` records a state last, and then does not fail.
use pullrun.Base.{
  subst, sym, ℕ, ◌≡◌, refl, Bool, true, false, Option, none, some, List, [], ◌∷◌, Bool-cases, inl,
  inr,
}
use pullrun.Base.Words.{Bytes}
use pullrun.Base.Text.{starts_with}
use pullrun.Policy.Signature.{Services}
use pullrun.Policy.Signature
use pullrun.Policy.Engine.{PolicyEngine, allow, deny, Stage}
use pullrun.Runtime.Names.{container}
use pullrun.Runtime.Exec.{Backend, WorkloadSpec, ProcessHandle, Mount}
use pullrun.Runtime.Validate.{Checked, passed, failed}
use pullrun.Runtime.State.{WorkloadState, Daemon, StagedKernel, emit}
use pullrun.Runtime.Restart.{Answer, done, refused, Env, is_nil}
use pullrun.Runtime.Events.{Event}
use pullrun.Runtime.Run.Request.{RunRequest, FileRef, strip_digest}
use pullrun.Runtime.Run.Monad.{
  RunError, Ran, ok, err, pure, or_raise, raise_if, modify, bound, ◌>>=◌, Kept, Kept-refl, Keeps,
  >>=-Keeps,
}
use pullrun.Runtime.Run.Checks.{
  RunEnv, checked, check_target, check_join_to, check_join, decided, evaluate_with,
  evaluate_for_run, check_manifest, check_arch, is_vm_backend,
}
use pullrun.Runtime.Run.Staging.{
  put_kernel, staged_kernel, stage_missing, stage_image, prepare_kernel, make_stage_dir, put_file,
  write_stage_file, stage_secrets, stage_configs, open_stage, stage_files,
}
use pullrun.Runtime.Run.Handler.{
  Launched, launch, created_handle, started_handle, check_request, stage_and_check, start_spec,
  start_request, run_workload, record_running, response,
}

pure-Keeps : {A : Type 0} (a : A) → Keeps (pure a)
pure-Keeps a d = Kept-refl

or_raise-Keeps : {A : Type 0} (o : Option A) (e : RunError) → Keeps (or_raise o e)
or_raise-Keeps none e d = Kept-refl
or_raise-Keeps (some a) e d = Kept-refl

raise_if-Keeps : (b : Bool) (e : RunError) → Keeps (raise_if b e)
raise_if-Keeps true e d = Kept-refl
raise_if-Keeps false e d = Kept-refl

emit-Keeps : (event : Event) → Keeps (modify (emit event))
unfolding emit
emit-Keeps event d = record { workloads = refl; checkpoints = refl; image_tags = refl }

checked-Keeps : (c : Checked) → Keeps (checked c)
checked-Keeps passed d = Kept-refl
checked-Keeps (failed e) d = Kept-refl

check_target-Keeps : (target : Bytes) (o : Option WorkloadState) → Keeps (check_target target o)
check_target-Keeps target none d = Kept-refl
check_target-Keeps target (some s) d = elim (Bool-cases (starts_with container s.backend)) [
  | inl y ↦ rw y Kept-refl
  | inr n ↦ rw n Kept-refl
]

check_join_to-Keeps :
    (id : Bytes) (backend : Backend) (target : Option Bytes)
    → Keeps (check_join_to id backend target)
check_join_to-Keeps id backend none = pure-Keeps tt
check_join_to-Keeps id backend (some target) = >>=-Keeps _ _ (raise_if-Keeps _ _) λ u.
    >>=-Keeps _ _ (raise_if-Keeps _ _)
      λ v. >>=-Keeps _ _ (λ d. Kept-refl) (check_target-Keeps target)

staged_kernel-Keeps :
    (id image : Bytes) (now : ℕ) (a : Answer StagedKernel) → Keeps (staged_kernel id image now a)
unfolding put_kernel emit
staged_kernel-Keeps id image now (done kernel) =
    λ d. record { workloads = refl; checkpoints = refl; image_tags = refl }
staged_kernel-Keeps id image now (refused error) = >>=-Keeps _ _ (emit-Keeps _) λ u d. Kept-refl

make_stage_dir-Keeps :
    {Key Score : Type 0} (env : RunEnv Key Score) (id : Bytes)
    → Keeps (modify (make_stage_dir env id))
unfolding make_stage_dir
make_stage_dir-Keeps env id d = record { workloads = refl; checkpoints = refl; image_tags = refl }

put_file-Keeps :
    {Key Score : Type 0} (env : RunEnv Key Score) (id name content : Bytes)
    → Keeps (modify (put_file env id name content))
unfolding put_file
put_file-Keeps env id name content d = record {
  workloads = refl;
  checkpoints = refl;
  image_tags = refl;
}

started_handle-Keeps :
    (env : Env) (req : RunRequest) (backend : Bytes) (a : Answer ProcessHandle)
    → Keeps (started_handle env req backend a)
started_handle-Keeps env req backend (done handle) = λ d. Kept-refl
started_handle-Keeps env req backend (refused e) = >>=-Keeps _ _ (emit-Keeps _) λ u d. Kept-refl

created_handle-Keeps :
    (env : Env) (req : RunRequest) (backend : Bytes) (a : Answer ProcessHandle)
    → Keeps (created_handle env req backend a)
created_handle-Keeps env req backend (done handle) = started_handle-Keeps env req handle.backend _
created_handle-Keeps env req backend (refused e) = >>=-Keeps _ _ (emit-Keeps _) λ u d. Kept-refl

launch-Keeps :
    (env : Env) (req : RunRequest) (backend : Backend) (spec : WorkloadSpec)
    → Keeps (launch env req backend spec)
unfolding launch
launch-Keeps env req backend spec =
    >>=-Keeps _ _ (emit-Keeps _) λ u. created_handle-Keeps env req _ (env.executor.create spec)

module _ {Key Score : Type 0} (env : RunEnv Key Score) where
  decided-Keeps : (a : Stage env.services) → Keeps (decided env.services a)
  decided-Keeps (Signature.ok allow) d = Kept-refl
  decided-Keeps (Signature.ok (deny reason)) d = Kept-refl
  decided-Keeps (Signature.err e) d = Kept-refl

  evaluate_with-Keeps :
      (engine : Option (PolicyEngine Key Score)) (root : Bytes)
      → Keeps (evaluate_with env.services engine root)
  evaluate_with-Keeps none root = λ d. Kept-refl
  evaluate_with-Keeps (some engine) root =
      >>=-Keeps _ _ (λ d. Kept-refl) λ image_ref. decided-Keeps _

  evaluate_for_run-Keeps : (root : Bytes) → Keeps (evaluate_for_run env root)
  unfolding evaluate_for_run
  evaluate_for_run-Keeps root = evaluate_with-Keeps env.policy_engine root

  check_manifest-Keeps : (root : Bytes) → Keeps (check_manifest env root)
  check_manifest-Keeps root =
      >>=-Keeps _ _ (or_raise-Keeps _ _)
        λ digest. >>=-Keeps _ _ (or_raise-Keeps _ _) λ architecture. raise_if-Keeps _ _

  check_arch-Keeps : (backend : Backend) (root : Bytes) → Keeps (check_arch env backend root)
  unfolding check_arch
  check_arch-Keeps backend root d = elim (Bool-cases (is_vm_backend backend)) [
    | inl y ↦ rw y Kept-refl
    | inr n ↦ rw n (check_manifest-Keeps root d)
  ]

  stage_missing-Keeps : (id image : Bytes) (b : Bool) → Keeps (stage_missing env id image b)
  stage_missing-Keeps id image true = λ d. Kept-refl
  stage_missing-Keeps id image false = staged_kernel-Keeps id image _ _

  stage_image-Keeps : (req : RunRequest) → Keeps (stage_image env req)
  stage_image-Keeps req d = elim (Bool-cases (is_nil req.kernel_image)) [
    | inl y ↦ rw y Kept-refl
    | inr n ↦ rw n (>>=-Keeps _ _ (λ d. Kept-refl) (stage_missing-Keeps req.id req.kernel_image) d)
  ]

  pub prepare_kernel-Keeps :
      (backend : Backend) (req : RunRequest) → Keeps (prepare_kernel env backend req)
  unfolding prepare_kernel
  prepare_kernel-Keeps backend req d = elim (Bool-cases (is_vm_backend backend)) [
    | inl y ↦ rw y (>>=-Keeps _ _ (raise_if-Keeps _ _) (λ u. stage_image-Keeps req) d)
    | inr n ↦ rw n Kept-refl
  ]

  write_stage_file-Keeps :
      (id name content : Bytes) (e : RunError) → Keeps (write_stage_file env id name content e)
  unfolding write_stage_file
  write_stage_file-Keeps id name content e =
      >>=-Keeps _ _ (λ d. Kept-refl)
        λ there.
          >>=-Keeps _ _ (raise_if-Keeps _ _)
            λ u. >>=-Keeps _ _ (raise_if-Keeps _ _) λ v. put_file-Keeps env id name content

  stage_secrets-Keeps : (id : Bytes) (files : List FileRef) → Keeps (stage_secrets env id files)
  unfolding stage_secrets
  stage_secrets-Keeps id [] = λ d. Kept-refl
  stage_secrets-Keeps id (file ∷ files) = >>=-Keeps _ _ (or_raise-Keeps _ _) λ content.
      >>=-Keeps _ _ (write_stage_file-Keeps _ _ _ _)
        λ u. >>=-Keeps _ _ (stage_secrets-Keeps id files) λ mounts d. Kept-refl

  stage_configs-Keeps : (id : Bytes) (files : List FileRef) → Keeps (stage_configs env id files)
  unfolding stage_configs
  stage_configs-Keeps id [] = λ d. Kept-refl
  stage_configs-Keeps id (file ∷ files) = >>=-Keeps _ _ (or_raise-Keeps _ _) λ content.
      >>=-Keeps _ _ (write_stage_file-Keeps _ _ _ _)
        λ u. >>=-Keeps _ _ (stage_configs-Keeps id files) λ mounts d. Kept-refl

  open_stage-Keeps : (id : Bytes) (b : Bool) → Keeps (open_stage env id b)
  open_stage-Keeps id false = λ d. Kept-refl
  open_stage-Keeps id true = >>=-Keeps _ _ (raise_if-Keeps _ _) λ u. make_stage_dir-Keeps env id

  stage_files-Keeps : (req : RunRequest) → Keeps (stage_files env req)
  unfolding stage_files
  stage_files-Keeps req = >>=-Keeps _ _ (open_stage-Keeps req.id _) λ u.
      >>=-Keeps _ _ (stage_secrets-Keeps req.id req.secrets)
        λ secrets. >>=-Keeps _ _ (stage_configs-Keeps req.id req.configs) λ configs d. Kept-refl

  pub check_request-Keeps : (req : RunRequest) → Keeps (check_request env req)
  unfolding check_request check_join
  check_request-Keeps req = >>=-Keeps _ _ (checked-Keeps _) λ u.
      >>=-Keeps _ _ (or_raise-Keeps _ _)
        λ backend. >>=-Keeps _ _ (check_join_to-Keeps _ _ _) λ v d. Kept-refl

  stage_and_check-Keeps :
      (req : RunRequest) (backend : Backend) → Keeps (stage_and_check env req backend)
  unfolding stage_and_check
  stage_and_check-Keeps req backend = >>=-Keeps _ _ (prepare_kernel-Keeps backend req) λ u.
      >>=-Keeps _ _ (evaluate_for_run-Keeps _) λ v. >>=-Keeps _ _ (check_arch-Keeps backend _) λ w.
        >>=-Keeps _ _ (stage_files-Keeps req)
          λ extra. >>=-Keeps _ _ (checked-Keeps _) λ x d. Kept-refl

  start_spec-Keeps :
      (req : RunRequest) (backend : Backend) (mounts : List Mount)
      → Keeps (start_spec env req backend mounts)
  unfolding start_spec
  start_spec-Keeps req backend mounts =
      >>=-Keeps _ _ (λ d. Kept-refl)
        λ kernel.
          >>=-Keeps _ _ (or_raise-Keeps _ _)
            λ root. >>=-Keeps _ _ (launch-Keeps _ _ _ _) λ handle d. Kept-refl

  pub start_request-Keeps : (req : RunRequest) → Keeps (start_request env req)
  unfolding start_request
  start_request-Keeps req = >>=-Keeps _ _ (check_request-Keeps req) λ backend.
      >>=-Keeps _ _ (stage_and_check-Keeps req backend)
        λ mounts. start_spec-Keeps req backend mounts

  recorded :
      (r : Ran Launched × Daemon) (e : RunError)
      → (bound r (λ l. modify (record_running env l) >>= λ u. pure (response env l))).0 ≡ err e
      → (bound r (λ l. modify (record_running env l) >>= λ u. pure (response env l))).1 ≡ r.1
  unfolding ◌>>=◌
  recorded (ok l, d) e h = cc
  recorded (err x, d) e h = refl

  -- A run that fails, for whatever reason, changes neither the state of a workload, nor a checkpoint,
  -- nor a tag.
  pub run_workload-Kept :
      (req : RunRequest) (e : RunError) (d : Daemon)
      → (run_workload env req d).0 ≡ err e
      → Kept d (run_workload env req d).1
  unfolding run_workload ◌>>=◌
  run_workload-Kept req e d h =
      subst (Kept d) (sym (recorded (start_request env (strip_digest req) d) e h))
        (start_request-Keeps (strip_digest req) d)
