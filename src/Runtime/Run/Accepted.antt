-- ===== src/Runtime/Run/Accepted.antt =====
-- runtime/pullrun-runtime/src/service.rs: what has been checked of a workload that `run_workload` runs.
use pullrun.Base.{
  some-inj, ◌≡◌, ◌≢◌, refl, sym, ◌∙◌, ap, subst, ◌⊎◌, not, ◌&&◌, List, Bool, true, false, Option,
  none, some, All, Bool-cases, inl, inr,
}
use pullrun.Base.Words.{Bytes}
use pullrun.Base.Text.{eq_bytes, eq_bytes_refl, eq_bytes_sound, starts_with}
use pullrun.Base.Map
use pullrun.Base.Map.{get-put_self}
use pullrun.Store.Digest.{Digest, digest_eq, from_hex}
use pullrun.Policy.Signature.{Services}
use pullrun.Policy.Signature
use pullrun.Policy.Engine.{PolicyEngine, allow, deny, Stage}
use pullrun.Policy.Decision.{Allowed, evaluate_for_image-Allowed}
use pullrun.Runtime.Names.{container}
use pullrun.Runtime.Exec.{Backend, Mount, from_str}
use pullrun.Runtime.Restart.{is_nil, is_some}
use pullrun.Runtime.Run.Staging.{prepare_kernel}
use pullrun.Runtime.Validate.{Checked, passed, failed, validate_workload_id}
use pullrun.Runtime.Validate.Safe.{
  SafeId, SafeMount, validate_workload_id-SafeId, sanitize_mounts-SafeMount,
}
use pullrun.Runtime.State.{WorkloadState, Daemon}
use pullrun.Runtime.Run.Request.{RunRequest}
use pullrun.Runtime.Run.Monad.{
  ok, or_raise, raise_if, RunError, unknown_backend, joins_itself, join_needs_container, >>=-ok,
  Kept, Kept-trans,
}
use pullrun.Runtime.Run.Checks.{
  RunEnv, checked, check_target, check_join_to, check_join, target_of, decided, evaluate_with,
  evaluate_for_run, check_arch, is_vm_backend, ref_or,
}
use pullrun.Runtime.Run.Handler.{
  Launched, mode_of, check_request, stage_and_check, start_spec, start_request,
}
use pullrun.Runtime.Run.Rejected.{check_request-Keeps, prepare_kernel-Keeps}

pub ok-inj : {A : Type 0} {a b : A} → ok a ≡ ok b → a ≡ b
ok-inj h = cc

checked-ok : (c : Checked) (d : Daemon) {u : Unit {0}} → (checked c d).0 ≡ ok u → c ≡ passed
checked-ok passed d h = refl
checked-ok (failed e) d h = cc

raise_if-ok :
    (b : Bool) (e : RunError) (d : Daemon) {u : Unit {0}} → (raise_if b e d).0 ≡ ok u → b ≡ false
raise_if-ok true e d h = cc
raise_if-ok false e d h = refl

or_raise-ok :
    {A : Type 0} (o : Option A) (e : RunError) (d : Daemon) {a : A}
    → (or_raise o e d).0 ≡ ok a
    → o ≡ some a
or_raise-ok none e d h = cc
or_raise-ok (some b) e d h = cc

checked-same : (c : Checked) (d : Daemon) → (checked c d).1 ≡ d
checked-same passed d = refl
checked-same (failed e) d = refl

or_raise-same : {A : Type 0} (o : Option A) (e : RunError) (d : Daemon) → (or_raise o e d).1 ≡ d
or_raise-same none e d = refl
or_raise-same (some a) e d = refl

raise_if-same : (b : Bool) (e : RunError) (d : Daemon) → (raise_if b e d).1 ≡ d
raise_if-same true e d = refl
raise_if-same false e d = refl

-- The workload whose namespace is joined is another one, and a container, as the new one is.
pub record Joins (id : Bytes) (backend : Backend) (target : Bytes) (d : Daemon) : Type 0 where
  pub other : target ≢ id
  pub own_backend : is_vm_backend backend ≡ false
  pub state : WorkloadState
  pub found : Map.get d.workloads target ≡ some state
  pub its_backend : starts_with container state.backend ≡ true

check_target-ok :
    (target : Bytes) (o : Option WorkloadState) (d : Daemon) {u : Unit {0}}
    → (check_target target o d).0 ≡ ok u
    → (s : WorkloadState) × (o ≡ some s) × (starts_with container s.backend ≡ true)
check_target-ok target none d h = cc
check_target-ok target (some s) d h = elim (Bool-cases (starts_with container s.backend)) [
  | inl y ↦ (s, refl, y)
  | inr n ↦ cc (rw n at h)
]

check_join_to-ok :
    (id : Bytes) (backend : Backend) (o : Option Bytes) (d : Daemon) {u : Unit {0}}
    → (check_join_to id backend o d).0 ≡ ok u
    → (target : Bytes) → o ≡ some target
    → Joins id backend target d
check_join_to-ok id backend none d h target e = cc
check_join_to-ok id backend (some t) d h target e =
    let (u, own, h1) = >>=-ok _ _ d h in
    let (v, vm, h2) = >>=-ok _ _ _ h1 in
    let (o, found, h3) = >>=-ok _ _ _ h2 in
    let (s, is, container) = check_target-ok t o _ h3 in
    let same =
      raise_if-same (is_vm_backend backend) join_needs_container
        (raise_if (eq_bytes t id) joins_itself d).1
      ∙ raise_if-same (eq_bytes t id) joins_itself d in
    let t-is : t ≡ target = some-inj e in
    let distinct = raise_if-ok (eq_bytes t id) joins_itself d own in
    record {
      other = λ q. cc (distinct, ap (λ x. eq_bytes x id) (t-is ∙ q), eq_bytes_refl id);
      own_backend = raise_if-ok _ _ _ vm;
      state = s;
      found =
          ap (λ x. Map.get d.workloads x) (sym t-is)
          ∙ sym (ap (λ (x : Daemon). Map.get x.workloads t) same)
          ∙ ok-inj found
          ∙ is;
      its_backend = container;
    }

module _ {Key Score : Type 0} (env : RunEnv Key Score) where
  decided-ok :
      (a : Stage env.services) (d : Daemon) {u : Unit {0}}
      → (decided env.services a d).0 ≡ ok u
      → a ≡ Signature.ok allow
  decided-ok (Signature.ok allow) d h = refl
  decided-ok (Signature.ok (deny reason)) d h = cc
  decided-ok (Signature.err e) d h = cc

  -- The policy of the engine allows the image under the reference that it is tagged with.
  abbrev pub PolicyAllows : Bytes → Daemon → Option (PolicyEngine Key Score) → Type 0
  PolicyAllows root d none = Unit
  PolicyAllows root d (some engine) =
      Allowed env.services engine engine.default_policy (ref_or root (Map.get d.image_tags root))
        root

  evaluate_with-ok :
      (engine : Option (PolicyEngine Key Score)) (root : Bytes) (d : Daemon) {u : Unit {0}}
      → (evaluate_with env.services engine root d).0 ≡ ok u
      → PolicyAllows root d engine
  evaluate_with-ok none root d h = tt
  evaluate_with-ok (some engine) root d h =
      let (image_ref, is, h1) = >>=-ok _ _ d h in
      subst (λ r. Allowed env.services engine engine.default_policy r root) (sym (ok-inj is))
        (evaluate_for_image-Allowed env.services engine engine.default_policy image_ref root
          (decided-ok _ _ h1))

  evaluate_for_run-ok :
      (root : Bytes) (d : Daemon) {u : Unit {0}}
      → (evaluate_for_run env root d).0 ≡ ok u
      → PolicyAllows root d env.policy_engine
  unfolding evaluate_for_run
  evaluate_for_run-ok root d h = evaluate_with-ok env.policy_engine root d h

  PolicyAllows-Kept :
      (engine : Option (PolicyEngine Key Score)) (root : Bytes) (d d' : Daemon)
      → Kept d d'
      → PolicyAllows root d' engine
      → PolicyAllows root d engine
  PolicyAllows-Kept none root d d' k h = tt
  PolicyAllows-Kept (some engine) root d d' k h =
      subst
        (λ tags.
          Allowed env.services engine engine.default_policy (ref_or root (Map.get tags root)) root)
        k.image_tags h

  -- The manifest names an architecture that is the machine's own or can be emulated.
  pub record RunsHere (root : Digest) : Type 0 where
    pub arch : Bytes
    pub named : env.architecture root ≡ some arch
    pub supported : (arch ≡ env.current_arch) ⊎ (env.ensure_binfmt arch ≡ true)

  native_or_emulated :
      (arch : Bytes)
      → (not (eq_bytes arch env.current_arch) && not (env.ensure_binfmt arch)) ≡ false
      → (arch ≡ env.current_arch) ⊎ (env.ensure_binfmt arch ≡ true)
  native_or_emulated arch h = elim (Bool-cases (eq_bytes arch env.current_arch)) [
    | inl y ↦ inl (eq_bytes_sound arch env.current_arch y)
    | inr n ↦ elim (Bool-cases (env.ensure_binfmt arch)) [
      | inl y ↦ inr y
      | inr z ↦ cc (rw (n, z) at h)
    ]
  ]

  pub record Passed (req : RunRequest) (d : Daemon) : Type 0 where
    pub id : SafeId req.id
    pub backend : Backend
    pub parsed : from_str env.base.to_lowercase req.backend ≡ some backend
    pub joins :
        (target : Bytes) → target_of (mode_of env req) ≡ some target → Joins req.id backend target d
    pub allowed : PolicyAllows req.root_digest d env.policy_engine
    pub kernel :
        is_vm_backend backend ≡ true
        → (is_nil req.kernel_image ≡ false) ⊎ (is_some env.vm_root ≡ true)
    pub root : Digest
    pub digest : from_hex env.base.hex_decode req.root_digest ≡ some root
    pub runs_here : is_vm_backend backend ≡ false → RunsHere root
    pub mounts : All (SafeMount env.canonicalize env.store_root) req.mounts

  prepare_kernel-ok :
      (backend : Backend) (req : RunRequest) (d : Daemon) {u : Unit {0}}
      → (prepare_kernel env backend req d).0 ≡ ok u
      → is_vm_backend backend ≡ true
      → (is_nil req.kernel_image ≡ false) ⊎ (is_some env.vm_root ≡ true)
  unfolding prepare_kernel
  prepare_kernel-ok backend req d h y =
      let (v, named, h1) = >>=-ok _ _ d (rw y at h) in
      let bootable = raise_if-ok _ _ d named in
      elim (Bool-cases (is_nil req.kernel_image)) [
        | inr n ↦ inl n
        | inl empty ↦ elim (Bool-cases (is_some env.vm_root)) [
          | inl there ↦ inr there
          | inr z ↦ cc (rw (empty, z) at bootable)
        ]
      ]

  check_arch-ok :
      (backend : Backend) (root_digest : Bytes) (root : Digest) (d : Daemon) {u : Unit {0}}
      → from_hex env.base.hex_decode root_digest ≡ some root
      → (check_arch env backend root_digest d).0 ≡ ok u
      → is_vm_backend backend ≡ false
      → RunsHere root
  unfolding check_arch
  check_arch-ok backend root_digest root d is h n =
      let (r, parsed, h1) = >>=-ok _ _ d (rw n at h) in
      let (arch, found, h2) = >>=-ok _ _ _ h1 in
      let same : r ≡ root = some-inj (sym (or_raise-ok _ _ d parsed) ∙ is) in
      record {
        arch = arch;
        named = ap env.architecture (sym same) ∙ or_raise-ok _ _ _ found;
        supported = native_or_emulated arch (raise_if-ok _ _ _ h2);
      }

  check_request-ok :
      (req : RunRequest) (backend : Backend) (d : Daemon)
      → (check_request env req d).0 ≡ ok backend
      → SafeId req.id
        × (from_str env.base.to_lowercase req.backend ≡ some backend)
        × ((target : Bytes)
            → target_of (mode_of env req) ≡ some target
            → Joins req.id backend target d)
  unfolding check_request check_join
  check_request-ok req backend d h =
      let (u, valid, h1) = >>=-ok _ _ d h in
      let (b, parsed, h2) = >>=-ok _ _ _ h1 in
      let (v, joined, h3) = >>=-ok _ _ _ h2 in
      let at : Daemon =
        (or_raise (from_str env.base.to_lowercase req.backend) unknown_backend
          (checked (validate_workload_id req.id) d).1).1 in
      let same =
        or_raise-same (from_str env.base.to_lowercase req.backend) unknown_backend
          (checked (validate_workload_id req.id) d).1
        ∙ checked-same (validate_workload_id req.id) d in
      let is : b ≡ backend = ok-inj h3 in
      (
        validate_workload_id-SafeId req.id (checked-ok _ d valid),
        or_raise-ok _ _ _ parsed ∙ ap some is,
        λ target e.
            subst (λ x. Joins req.id backend target x) same
              (subst (λ x. Joins req.id x target at) is
                (check_join_to-ok req.id b _ at joined target e)),
      )

  start_spec-root :
      (req : RunRequest) (backend : Backend) (mounts : List Mount) (l : Launched) (d : Daemon)
      → (start_spec env req backend mounts d).0 ≡ ok l
      → (root : Digest) × (from_hex env.base.hex_decode req.root_digest ≡ some root)
  unfolding start_spec
  start_spec-root req backend mounts l d h =
      let (k, kernel, h1) = >>=-ok _ _ d h in
      let (root, image, h2) = >>=-ok _ _ _ h1 in (root, or_raise-ok _ _ _ image)

  pub start_request-Passed :
      (req : RunRequest) (l : Launched) (d : Daemon)
      → (start_request env req d).0 ≡ ok l
      → Passed req d
  unfolding start_request stage_and_check
  start_request-Passed req l d h =
      let (backend, checks, h1) = >>=-ok _ _ d h in
      let (id, parsed, joins) = check_request-ok req backend d checks in
      let (mounts, staged, h2) = >>=-ok _ _ _ h1 in
      let (u, kernel, g1) = >>=-ok _ _ _ staged in
      let (v, allowed, g2) = >>=-ok _ _ _ g1 in
      let (w, arch, g3) = >>=-ok _ _ _ g2 in
      let (extra, files, g4) = >>=-ok _ _ _ g3 in
      let (x, sane, g5) = >>=-ok _ _ _ g4 in
      let (root, digest) = start_spec-root req backend mounts l _ h2 in
      record {
        kernel = prepare_kernel-ok backend req _ kernel;
        root = root;
        digest = digest;
        runs_here = check_arch-ok backend req.root_digest root _ digest arch;
        id = id;
        backend = backend;
        parsed = parsed;
        joins = joins;
        allowed =
            PolicyAllows-Kept env.policy_engine req.root_digest d _
              (Kept-trans (check_request-Keeps env req d) (prepare_kernel-Keeps env backend req _))
              (evaluate_for_run-ok req.root_digest _ allowed);
        mounts =
            sanitize_mounts-SafeMount env.canonicalize env.store_root req.mounts
              (checked-ok _ _ sane);
      }
