-- ===== src/Runtime/Run/Monad.antt =====
-- runtime/pullrun-runtime/src/service.rs: a handler that fails keeps what it has changed so far.
use pullrun.Base.{Bool, true, false, Option, none, some, ◌≡◌, refl, ◌∙◌}
use pullrun.Base.Words.{Bytes}
use pullrun.Runtime.Validate.{Invalid}
use pullrun.Runtime.State.{Daemon}

-- Why a workload is not run.
pub data RunError : Type 0 where
  invalid_request : Invalid → RunError
  unknown_backend joins_itself join_needs_container no_kernel no_stage_dir : RunError
  target_not_container target_not_found : Bytes → RunError
  kernel_not_staged : Bytes → RunError
  denied policy_failed invalid_digest no_manifest no_binfmt : RunError
  no_secret secret_not_staged no_config config_not_staged : Bytes → RunError
  create_failed start_failed : Bytes → RunError

pub data Ran (A : Type 0) : Type 0 where
  ok : A → Ran A
  err : RunError → Ran A

abbrev pub Action : Type 0 → Type 0
Action A = Daemon → Ran A × Daemon

module _ {A : Type 0} where
  abbrev pub pure : A → Action A
  pure a d = (ok a, d)

  abbrev pub raise : RunError → Action A
  raise e d = (err e, d)

  abbrev pub gets : (Daemon → A) → Action A
  gets f d = (ok (f d), d)

  abbrev pub or_raise : Option A → RunError → Action A
  or_raise none e = raise e
  or_raise (some a) e = pure a

abbrev pub bound : {A B : Type 0} → Ran A × Daemon → (A → Action B) → Ran B × Daemon
bound (ok a, d) f = f a d
bound (err e, d) f = (err e, d)

infixl 5 ◌>>=◌ ◌>>◌
unfoldable pub ◌>>=◌ : {A B : Type 0} → Action A → (A → Action B) → Action B
◌>>=◌ m f d = bound (m d) f

abbrev pub ◌>>◌ : {A B : Type 0} → Action A → Action B → Action B
m >> k = m >>= λ _. k

abbrev pub raise_if : Bool → RunError → Action (Unit {0})
raise_if true e = raise e
raise_if false e = pure tt

abbrev pub modify : (Daemon → Daemon) → Action (Unit {0})
modify f d = (ok tt, f d)

-- The states of the workloads, their checkpoints and the tags are as they were.
pub record Kept (d d' : Daemon) : Type 0 where
  pub workloads : d'.workloads ≡ d.workloads
  pub checkpoints : d'.checkpoints ≡ d.checkpoints
  pub image_tags : d'.image_tags ≡ d.image_tags

pub Kept-refl : {d : Daemon} → Kept d d
Kept-refl = record { workloads = refl; checkpoints = refl; image_tags = refl }

pub Kept-trans : {a b c : Daemon} → Kept a b → Kept b c → Kept a c
Kept-trans h k = record {
  workloads = k.workloads ∙ h.workloads;
  checkpoints = k.checkpoints ∙ h.checkpoints;
  image_tags = k.image_tags ∙ h.image_tags;
}

abbrev pub Keeps : {A : Type 0} → Action A → Type 0
Keeps m = (d : Daemon) → Kept d (m d).1

module _ {A B : Type 0} where
  pub bound-Kept :
      (d : Daemon) (r : Ran A × Daemon) (f : A → Action B)
      → Kept d r.1
      → ((a : A) → Keeps (f a))
      → Kept d (bound r f).1
  bound-Kept d (ok a, e) f h k = Kept-trans h (k a e)
  bound-Kept d (err x, e) f h k = h

  pub >>=-Keeps :
      (m : Action A) (f : A → Action B) → Keeps m → ((a : A) → Keeps (f a)) → Keeps (m >>= f)
  unfolding ◌>>=◌
  >>=-Keeps m f h k d = bound-Kept d (m d) f (h d) k

  pub bound-ok :
      (r : Ran A × Daemon) (f : A → Action B) {b : B}
      → (bound r f).0 ≡ ok b
      → (a : A) × (r.0 ≡ ok a) × ((f a r.1).0 ≡ ok b)
  bound-ok (ok a, d) f h = (a, refl, h)
  bound-ok (err e, d) f h = cc

  -- A sequence that succeeds does so in both parts.
  pub >>=-ok :
      (m : Action A) (f : A → Action B) (d : Daemon) {b : B}
      → ((m >>= f) d).0 ≡ ok b
      → (a : A) × ((m d).0 ≡ ok a) × ((f a (m d).1).0 ≡ ok b)
  unfolding ◌>>=◌
  >>=-ok m f d h = bound-ok (m d) f h
